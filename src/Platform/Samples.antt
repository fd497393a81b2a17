-- ===== src/Platform/Samples.antt =====
-- Values of the interfaces on which the laws hold: fixed-point numbers of seven decimals, and
-- instants counted in milliseconds. They show that the laws can be met, and run in the examples.
use Prim.Native.Char.{code}
use Prim.Native.Nat
use stellartrace.Prelude.Substring.{ascii_lower, ascii_lowercase, IsAscii}
use stellartrace.Prelude.{
  if-false, nat_beq, ◌≡◌, ℕ, zero, suc, ◌+◌, ◌-◌, ◌*◌, ◌/◌, ◌^◌, ◌≤◌, true, Option, none, some,
  String, arith, ltb, leb, if◌then◌else◌, ◌&&◌, refl, ◌<◌, le→leb, leb→le, lt→ltb,
}
use stellartrace.Prelude.Int.{ℤ, pos, negsuc}
use stellartrace.Prelude.Text.{show}
use stellartrace.Platform.Interface.{Unicode, Float, Chrono}
use stellartrace.Platform.Laws.{dotted_capital, dot_above, small_i, IsUnicode, IsIeee, IsTimeline}

abbrev pub unit : ℕ
unit = 10_000_000

-- The largest r with lo ≤ r < lo + 2^fuel and r * r ≤ n, if lo * lo ≤ n.
root_from : ℕ → ℕ → ℕ → ℕ → ℕ
root_from zero step lo n = lo
root_from (suc f) step lo n =
    let mid = lo + step in root_from f (step / 2) (if leb (mid * mid) n then mid else lo) n

-- a non-negative whole number in decimal
unfoldable pub whole : ℕ → String → Option ℕ
whole acc String.[] = some acc
whole acc (String.◌∷◌ c s) =
    let rest = whole (acc * 10 + (code c - 48)) s in
    if leb 48 (code c) && leb (code c) 57 then rest else none

abbrev pub scaled : Option ℕ → Option ℕ
scaled none = none
scaled (some n) = some (n * unit)

unfoldable pub fixed_sqrt : ℕ → ℕ
unfolding root_from
fixed_sqrt a = root_from 40 (2 ^ 39) 1 (a * unit)

instance abbrev pub fixed_point : Float ℕ
fixed_point = record {
  of_nat = λ n. n * unit;
  parse = λ s. scaled (whole 0 s);
  lt = ltb;
  le = leb;
  add = ◌+◌;
  mul = λ a b. a * b / unit;
  div = λ a b. a * unit / b;
  sqrt = fixed_sqrt;
  min = Nat.min;
  is_finite = λ a. true;
  display = λ a. show (a / unit);
  fixed = λ n a. show (a / unit);
}

abbrev pub negated : ℕ → ℤ
negated zero = pos 0
negated (suc n) = negsuc n

instance abbrev pub milliseconds : Chrono ℕ
milliseconds = record {
  before = ltb;
  at_most = leb;
  num_seconds = λ a b. if leb b a then pos ((a - b) / 1000) else negated ((b - a) / 1000);
  to_rfc3339 = show;
}

div_le_div : (a b c : ℕ) → a ≤ b → a / c ≤ b / c
div_le_div a b c h = grind arith

root_from-pos : (f step lo n : ℕ) → 0 < lo → 0 < root_from f step lo n
unfolding root_from
root_from-pos zero step lo n h = h
root_from-pos (suc f) step lo n h = ground (
  arith,
  root_from-pos f (step / 2) (if leb ((lo + step) * (lo + step)) n then lo + step else lo) n,
)

fixed_sqrt-pos : (a : ℕ) → 0 < fixed_sqrt a
unfolding fixed_sqrt
fixed_sqrt-pos a = root_from-pos 40 (2 ^ 39) 1 (a * unit) (omega arith)

mul_le_mul : (a b c : ℕ) → a ≤ b → a * c ≤ b * c
mul_le_mul a b c h = grind arith

div_cancel : (a b : ℕ) → a ≡ b * unit → a / unit ≡ b
div_cancel a b h = omega arith

scaled_product : (m n : ℕ) → m * unit * (n * unit) / unit ≡ m * n * unit
scaled_product m n = div_cancel (m * unit * (n * unit)) (m * n * unit) (omega arith)

pub fixed_point-IsIeee : IsIeee ℕ
fixed_point-IsIeee = record {
  refl_of_le = λ a b h. (ground arith, ground arith);
  le_trans = λ a b c h k. ground arith;
  le_total = λ a b h k. ground arith;
  lt-eq-not-le = λ a b h k. ground arith;
  of_nat_mono = λ m n h. ground arith;
  of_nat_strict = λ m n h k. ground arith;
  add_mono = λ a b c d h i j k. ground arith;
  add_zero = λ a h. ground arith;
  zero_add_zero = refl;
  div_mono = λ a b c h i j k. le→leb _ _ (div_le_div _ _ c (ground arith));
  zero_div = λ c h k. ground arith;
  mul_mono =
      λ a b n h i. le→leb _ _ (div_le_div _ _ unit (mul_le_mul a b (suc n * unit) (leb→le a b i)));
  finite_refl = λ a h. le→leb a a (omega arith);
  of_nat_finite = λ n h. refl;
  of_nat_mul = λ m n h. scaled_product m n;
  zero_mul = λ n. ground arith;
  sqrt_scale = λ n. (lt→ltb _ _ (fixed_sqrt-pos (n * unit + 1 * unit)), refl);
  min_le_right = λ a b h. ground arith;
  le_min = λ a b c h k. ground arith;
  min_mono = λ a b c h k. ground arith;
}

pub milliseconds-IsTimeline : IsTimeline ℕ
milliseconds-IsTimeline = record {
  at_most_trans = λ a b d h k. ground arith;
  at_most_total = λ a b. ground arith;
  before-eq-not-at_most = λ a b. ground arith;
  num_seconds_nonneg = λ a b h. ground arith;
  num_seconds_mono = λ a b d h k. ground arith;
}

-- A lower case that knows the ASCII letters and U+0130, whose lower case is two characters.
unfoldable pub lower_case : String → String
lower_case String.[] = String.[]
lower_case (String.◌∷◌ c s) =
    let rest = lower_case s in
    if nat_beq (code c) 0x130
    then String.◌∷◌ small_i (String.◌∷◌ dot_above rest)
    else String.◌∷◌ (ascii_lower c) rest

instance abbrev pub lower_cases : Unicode
lower_cases = record { to_lowercase = lower_case }

lower_case-ascii : (s : String) → IsAscii s → lower_case s ≡ ascii_lowercase s
unfolding lower_case ascii_lowercase
lower_case-ascii String.[] h = refl
lower_case-ascii (String.◌∷◌ c s) (low, h) =
    rw (lower_case-ascii s h) (if-false (nat_beq (code c) 0x130) _ _ (ground arith))

lower_case-dotted :
    (s : String)
    → IsAscii s
    → lower_case (String.◌∷◌ dotted_capital s)
      ≡ String.◌∷◌ small_i (String.◌∷◌ dot_above (ascii_lowercase s))
unfolding lower_case
lower_case-dotted s h = rw (lower_case-ascii s h)

pub lower_cases-IsUnicode : IsUnicode
lower_cases-IsUnicode = record { ascii = lower_case-ascii; dotted = lower_case-dotted }
