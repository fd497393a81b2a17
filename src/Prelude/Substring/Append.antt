-- ===== src/Prelude/Substring/Append.antt =====
-- Occurrences in a text that is put together from two.
use Prim.Native.Char.{Char, code}
use Prim.Native.String.{◌++◌}
use text.Mathlib.TextLemmas.{nil-append, cons-append}
use stellartrace.Prelude.{
  not, Bool, ◌&&◌, nat_beq, ℕ, zero, suc, ◌≤◌, ap, ◌∙◌, ◌≡◌, refl, true, false, ◌||◌, String, arith,
}
use stellartrace.Prelude.Substring.{
  EachChar, take_chars, char_count, starts_with, contains_str, Lacks,
}

pub starts_with-append : (m u v : String) → starts_with u m ≡ true → starts_with (u ++ v) m ≡ true
unfolding starts_with
starts_with-append String.[] u v h = refl
starts_with-append (String.◌∷◌ k m) String.[] v h = absurd (cc)
starts_with-append (String.◌∷◌ k m) (String.◌∷◌ c u) v h =
    rw (cons-append c u v) (ground (arith, starts_with-append m u v))

contains_str-eq_true_of_starts_with :
    (s m : String) → starts_with s m ≡ true → contains_str s m ≡ true
unfolding contains_str
contains_str-eq_true_of_starts_with String.[] m h = h
contains_str-eq_true_of_starts_with (String.◌∷◌ c s) m h = rw h

-- The search in the text `c ∷ s` without its first character.
pub contains_str-cons :
    (c : Char) (s m : String)
    → contains_str (String.◌∷◌ c s) m ≡ (starts_with (String.◌∷◌ c s) m || contains_str s m)
unfolding contains_str
contains_str-cons c s m = ground arith

-- A prefix and a suffix of a text without `m` have none.
pub contains_str-prefix :
    (m u v : String) → contains_str (u ++ v) m ≡ false → contains_str u m ≡ false
contains_str-prefix m String.[] v h =
    unfold contains_str in
    ground (
      arith,
      nil-append v,
      starts_with-append m String.[] v,
      contains_str-eq_true_of_starts_with v m,
    )
contains_str-prefix m (String.◌∷◌ c u) v h =
    let e = cons-append c u v in
    ground (
      arith,
      contains_str-cons c u m,
      contains_str-cons c (u ++ v) m,
      e,
      starts_with-append m (String.◌∷◌ c u) v,
      contains_str-prefix m u v,
    )

pub contains_str-suffix :
    (m u v : String) → contains_str (u ++ v) m ≡ false → contains_str v m ≡ false
contains_str-suffix m String.[] v h = rw (nil-append v) at h
contains_str-suffix m (String.◌∷◌ c u) v h =
    contains_str-suffix m u v (ground (arith, cons-append c u v, contains_str-cons c (u ++ v) m))

-- A prefix `m` without the character `x` ends before `x`.
starts_with-barrier :
    (x : Char) (m u v : String)
    → Lacks (code x) m
    → starts_with (u ++ String.◌∷◌ x v) m ≡ starts_with u m
unfolding starts_with
starts_with-barrier x String.[] u v h = refl
starts_with-barrier x (String.◌∷◌ k m) String.[] v (other, h) =
    rw (nil-append (String.◌∷◌ x v)) (ground arith)
starts_with-barrier x (String.◌∷◌ k m) (String.◌∷◌ c u) v (other, h) =
    rw (cons-append c u (String.◌∷◌ x v), starts_with-barrier x m u v h)

-- Nothing without the character `x` occurs across it.
pub contains_str-barrier :
    (x : Char) (m u v : String)
    → Lacks (code x) m
    → contains_str (u ++ String.◌∷◌ x v) m ≡ (contains_str u m || contains_str v m)
contains_str-barrier x m String.[] v h =
    let empty : contains_str String.[] m ≡ starts_with String.[] m = unfold contains_str in refl in
    let e = nil-append (String.◌∷◌ x v) in
    ground (arith, contains_str-cons x v m, starts_with-barrier x m String.[] v h, empty, e)
contains_str-barrier x m (String.◌∷◌ c u) v h = ground (
  arith,
  cons-append c u (String.◌∷◌ x v),
  contains_str-cons c u m,
  contains_str-cons c (u ++ String.◌∷◌ x v) m,
  starts_with-barrier x m (String.◌∷◌ c u) v h,
  contains_str-barrier x m u v h,
)

module _ (P : Char → Type 0) where
  pub EachChar-append : (a b : String) → EachChar P a → EachChar P b → EachChar P (a ++ b)
  EachChar-append String.[] b ha hb = rw (nil-append b) hb
  EachChar-append (String.◌∷◌ c a) b (first, ha) hb =
      rw (cons-append c a b) (first, EachChar-append a b ha hb)

  pub EachChar-parts : (a b : String) → EachChar P (a ++ b) → EachChar P a × EachChar P b
  EachChar-parts String.[] b h = (tt, rw (nil-append b) at h)
  EachChar-parts (String.◌∷◌ c a) b h =
      let whole : EachChar P (String.◌∷◌ c (a ++ b)) = rw (cons-append c a b) at h in
      let (ha, hb) = EachChar-parts a b whole.1 in ((whole.0, ha), hb)

-- A text is its first characters and some rest.
pub take_chars-parts : (n : ℕ) (s : String) → (rest : String) × (take_chars n s ++ rest ≡ s)
unfolding take_chars
take_chars-parts zero s = (s, nil-append s)
take_chars-parts (suc n) String.[] = (String.[], nil-append String.[])
take_chars-parts (suc n) (String.◌∷◌ c s) =
    let (rest, whole) = take_chars-parts n s in
    (rest, cons-append c (take_chars n s) rest ∙ ap (String.◌∷◌ c) whole)

pub char_count-take_chars-le : (n : ℕ) (s : String) → char_count (take_chars n s) ≤ n
unfolding take_chars char_count
char_count-take_chars-le zero s = omega arith
char_count-take_chars-le (suc n) String.[] = omega arith
char_count-take_chars-le (suc n) (String.◌∷◌ c s) = omega (arith, char_count-take_chars-le n s)

pub take_chars_all : (n : ℕ) (s : String) → char_count s ≤ n → take_chars n s ≡ s
unfolding take_chars char_count
take_chars_all zero String.[] h = refl
take_chars_all zero (String.◌∷◌ c s) h = absurd (omega arith)
take_chars_all (suc n) String.[] h = refl
take_chars_all (suc n) (String.◌∷◌ c s) h = ap (String.◌∷◌ c) (take_chars_all n s (omega arith))

-- tests that no character has a code
unfoldable pub lacks : ℕ → String → Bool
lacks n String.[] = true
lacks n (String.◌∷◌ c s) = not (nat_beq (code c) n) && lacks n s

pub lacks-Lacks : (n : ℕ) (s : String) → lacks n s ≡ true → Lacks n s
unfolding lacks
lacks-Lacks n String.[] h = tt
lacks-Lacks n (String.◌∷◌ c s) h = (ground arith, lacks-Lacks n s (ground arith))
