-- ===== src/Prelude/Substring/Positions.antt =====
-- What slices at byte positions leave of a text.
use Prim.Native.Char.{Char}
use Prim.Native.String.{◌++◌}
use text.Mathlib.TextLemmas.{nil-append, cons-append}
use stellartrace.Prelude.{
  ℕ, ◌+◌, ◌-◌, ◌<◌, ◌≤◌, ◌≡◌, refl, Option, none, some, String, nat_beq, leb, arith, ap, Bool-cases,
  inl, inr, ◌∙◌,
}
use stellartrace.Prelude.Substring.{len_utf8, char_count, byte_len, split_at, cons_first}

pub len_utf8_pos : (c : Char) → 0 < len_utf8 c
len_utf8_pos c = ground arith

pub split_at_zero : (s : String) → split_at s 0 ≡ some (String.[], s)
unfolding split_at
split_at_zero String.[] = refl
split_at_zero (String.◌∷◌ c s) = refl

-- The slices at a position behind the first character.
pub split_at-cons :
    (c : Char) (s : String) (n : ℕ)
    → 0 < n
    → len_utf8 c ≤ n
    → split_at (String.◌∷◌ c s) n ≡ cons_first c (split_at s (n - len_utf8 c))
unfolding split_at
split_at-cons c s n pos fits = ground arith

split_at-cons_inside :
    (c : Char) (s : String) (n : ℕ) → 0 < n → n < len_utf8 c → split_at (String.◌∷◌ c s) n ≡ none
unfolding split_at
split_at-cons_inside c s n pos inside = ground arith

pub byte_len-append : (a b : String) → byte_len (a ++ b) ≡ byte_len a + byte_len b
unfolding byte_len
byte_len-append String.[] b = rw (nil-append b) (omega arith)
byte_len-append (String.◌∷◌ c a) b = rw (cons-append c a b) (omega (arith, byte_len-append a b))

pub char_count-append : (a b : String) → char_count (a ++ b) ≡ char_count a + char_count b
unfolding char_count
char_count-append String.[] b = rw (nil-append b) (omega arith)
char_count-append (String.◌∷◌ c a) b = rw (cons-append c a b) (omega (arith, char_count-append a b))

-- Slices at the end of a part give the two parts.
pub split_at-append : (a b : String) → split_at (a ++ b) (byte_len a) ≡ some (a, b)
unfolding byte_len
split_at-append String.[] b = rw (nil-append b) (split_at_zero b)
split_at-append (String.◌∷◌ c a) b =
    let rest : len_utf8 c + byte_len a - len_utf8 c ≡ byte_len a = omega arith in
    rw (cons-append c a b) (
      split_at-cons c (a ++ b) (len_utf8 c + byte_len a) (omega (arith, len_utf8_pos c))
        (omega arith)
      ∙ rw (rest, split_at-append a b))

cons_first-eq_some :
    (c : Char) (o : Option (String × String)) (a b : String)
    → cons_first c o ≡ some (a, b)
    → (a' : String) × (o ≡ some (a', b)) × (a ≡ String.◌∷◌ c a')
cons_first-eq_some c none a b h = absurd (cc)
cons_first-eq_some c (some (a', b')) a b h = (a', ground arith, ground arith)

-- The parts of a text that slices at a position give.
pub split_at-parts :
    (s : String) (n : ℕ) (a b : String)
    → split_at s n ≡ some (a, b)
    → (a ++ b ≡ s) × (byte_len a ≡ n)
unfolding split_at byte_len
split_at-parts String.[] n a b h = elim (Bool-cases (nat_beq n 0)) [
  | inl e ↦
      let (ea, eb) : (String.[] ≡ a) × (String.[] ≡ b) = ground arith in
      (rw (← ea, ← eb) (nil-append String.[]), rw (← ea) (ground arith))
  | inr e ↦ absurd (ground arith)
]
split_at-parts (String.◌∷◌ c s) n a b h = elim (Bool-cases (nat_beq n 0)) [
  | inl e ↦
      let (ea, eb) : (String.[] ≡ a) × (String.◌∷◌ c s ≡ b) = ground arith in
      (rw (← ea, ← eb) (nil-append (String.◌∷◌ c s)), rw (← ea) (ground arith))
  | inr e ↦ elim (Bool-cases (leb (len_utf8 c) n)) [
    | inl fits ↦
        let (a', ho, ea) = cons_first-eq_some c (split_at s (n - len_utf8 c)) a b (ground arith) in
        let (whole, size) = split_at-parts s (n - len_utf8 c) a' b ho in
        (rw ea (cons-append c a' b ∙ ap (String.◌∷◌ c) whole), rw ea (ground arith))
    | inr inside ↦ absurd (ground arith)
  ]
]

char_count-pos : (s : String) → 0 < byte_len s → 0 < char_count s
unfolding byte_len char_count
char_count-pos String.[] h = h
char_count-pos (String.◌∷◌ c s) h = omega arith

-- What slices leave behind a position that is not the start is shorter.
pub split_at-shorter :
    (s : String) (n : ℕ) (a b : String)
    → split_at s n ≡ some (a, b)
    → 0 < n
    → char_count b < char_count s
split_at-shorter s n a b h pos =
    let (whole, size) = split_at-parts s n a b h in
    omega (arith, char_count-append a b, ap char_count whole, char_count-pos a (omega arith))
