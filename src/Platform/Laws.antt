-- ===== src/Platform/Laws.antt =====
-- Laws of IEEE 754 arithmetic and of chrono that theorems ask for by name. Rounding is monotone,
-- so sums, products and quotients of values that are not negative are monotone too.
use Prim.Native.Char.{Char, char}
use stellartrace.Prelude.{String, false, ℕ, suc, ◌*◌, ◌^◌, ◌<◌, ◌≤◌, ◌≡◌, ◌⊎◌, true, not}
use stellartrace.Prelude.Int.{leb_ℤ, pos}
use stellartrace.Prelude.Substring.{IsAscii, ascii_lowercase}
use stellartrace.Platform.Interface.{Unicode, Float, Chrono, ◌<F◌, ◌≤F◌}

-- NaN is the value that is not `<=` itself; no other law speaks of it.
pub record IsIeee (F : Type 0) ⦃f : Float F⦄ : Type 0 where
  pub refl_of_le : (a b : F) → (a ≤F b) ≡ true → ((a ≤F a) ≡ true) × ((b ≤F b) ≡ true)
  pub le_trans : (a b c : F) → (a ≤F b) ≡ true → (b ≤F c) ≡ true → (a ≤F c) ≡ true
  pub le_total :
      (a b : F) → (a ≤F a) ≡ true → (b ≤F b) ≡ true → ((a ≤F b) ≡ true) ⊎ ((b ≤F a) ≡ true)
  pub lt-eq-not-le : (a b : F) → (a ≤F a) ≡ true → (b ≤F b) ≡ true → (a <F b) ≡ not (b ≤F a)
  pub of_nat_mono : (m n : ℕ) → m ≤ n → (f.of_nat m ≤F f.of_nat n) ≡ true
  -- whole numbers up to 2^53 are exact
  pub of_nat_strict : (m n : ℕ) → m < n → n ≤ 2 ^ 53 → (f.of_nat n ≤F f.of_nat m) ≡ false
  pub add_mono :
      (a b c d : F)
      → (f.of_nat 0 ≤F a) ≡ true
      → (a ≤F b) ≡ true
      → (f.of_nat 0 ≤F c) ≡ true
      → (c ≤F d) ≡ true
      → (f.add a c ≤F f.add b d) ≡ true
  pub add_zero : (a : F) → (f.of_nat 0 ≤F a) ≡ true → (a ≤F f.add a (f.of_nat 0)) ≡ true
  pub zero_add_zero : (f.of_nat 0 ≤F f.add (f.of_nat 0) (f.of_nat 0)) ≡ true
  pub div_mono :
      (a b c : F)
      → (f.of_nat 0 ≤F a) ≡ true
      → (a ≤F b) ≡ true
      → (f.of_nat 0 <F c) ≡ true
      → f.is_finite c ≡ true
      → (f.div a c ≤F f.div b c) ≡ true
  pub zero_div :
      (c : F)
      → (f.of_nat 0 <F c) ≡ true
      → f.is_finite c ≡ true
      → (f.of_nat 0 ≤F f.div (f.of_nat 0) c) ≡ true
  pub mul_mono :
      (a b : F) (n : ℕ)
      → (f.of_nat 0 ≤F a) ≡ true
      → (a ≤F b) ≡ true
      → (f.mul a (f.of_nat (suc n)) ≤F f.mul b (f.of_nat (suc n))) ≡ true
  -- what is finite is a number
  pub finite_refl : (a : F) → f.is_finite a ≡ true → (a ≤F a) ≡ true
  pub of_nat_finite : (n : ℕ) → n ≤ 2 ^ 53 → f.is_finite (f.of_nat n) ≡ true
  pub of_nat_mul : (m n : ℕ) → m * n ≤ 2 ^ 53 → f.mul (f.of_nat m) (f.of_nat n) ≡ f.of_nat (m * n)
  pub zero_mul : (n : ℕ) → (f.of_nat 0 ≤F f.mul (f.of_nat 0) (f.of_nat (suc n))) ≡ true
  pub sqrt_scale :
      (n : ℕ)
      → ((f.of_nat 0 <F f.sqrt (f.add (f.of_nat n) (f.of_nat 1))) ≡ true)
        × (f.is_finite (f.sqrt (f.add (f.of_nat n) (f.of_nat 1))) ≡ true)
  pub min_le_right : (a b : F) → (b ≤F b) ≡ true → (f.min a b ≤F b) ≡ true
  pub le_min : (a b c : F) → (a ≤F b) ≡ true → (a ≤F c) ≡ true → (a ≤F f.min b c) ≡ true
  pub min_mono : (a b c : F) → (a ≤F b) ≡ true → (c ≤F c) ≡ true → (f.min a c ≤F f.min b c) ≡ true

-- An instant is at most itself, and later instants are further away.
pub record IsTimeline (T : Type 0) ⦃c : Chrono T⦄ : Type 0 where
  pub at_most_trans :
      (a b d : T) → c.at_most a b ≡ true → c.at_most b d ≡ true → c.at_most a d ≡ true
  pub at_most_total : (a b : T) → (c.at_most a b ≡ true) ⊎ (c.at_most b a ≡ true)
  pub before-eq-not-at_most : (a b : T) → c.before a b ≡ not (c.at_most b a)
  pub num_seconds_nonneg :
      (a b : T) → c.at_most b a ≡ true → leb_ℤ (pos 0) (c.num_seconds a b) ≡ true
  pub num_seconds_mono :
      (a b d : T)
      → c.at_most b d ≡ true
      → c.at_most d a ≡ true
      → leb_ℤ (c.num_seconds a d) (c.num_seconds a b) ≡ true

abbrev pub dotted_capital : Char
dotted_capital = char 0x130 tt

abbrev pub dot_above : Char
dot_above = char 0x307 tt

abbrev pub small_i : Char
small_i = char 0x69 tt

-- What Unicode says of lower case: of ASCII text, and of U+0130, the capital I with a dot, whose
-- lower case is the letter i with the combining mark U+0307.
pub record IsUnicode ⦃u : Unicode⦄ : Type 0 where
  pub ascii : (s : String) → IsAscii s → u.to_lowercase s ≡ ascii_lowercase s
  pub dotted :
      (s : String)
      → IsAscii s
      → u.to_lowercase (String.◌∷◌ dotted_capital s)
        ≡ String.◌∷◌ small_i (String.◌∷◌ dot_above (ascii_lowercase s))
