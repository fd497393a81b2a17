-- ===== src/Prelude/Substring/Single.antt =====
-- The first and the last occurrence of a single character in a text.
use Prim.Native.Char.{Char, code}
use Prim.Native.String.{◌++◌}
use text.Mathlib.TextLemmas.{nil-append, cons-append, head-eq_of_cons-eq, tail-eq_of_cons-eq}
use text.Mathlib.TextEquality.{Char-path}
use stellartrace.Prelude.{
  Bool, ℕ, ◌+◌, ◌<◌, ◌≡◌, refl, true, false, Option, none, some, String, nat_beq, arith,
  if◌then◌else◌, ap, Bool-cases, inl, inr, ◌∙◌, sym,
}
use stellartrace.Prelude.Substring.{
  len_utf8, byte_len, starts_with, find?, rfind?, shift, behind_or, Lacks,
}

-- A text at an occurrence of `k`, the first one.
pub record IsFirst (k : Char) (s : String) (n : ℕ) : Type 0 where
  pub before : String
  pub rest : String
  pub whole : before ++ String.◌∷◌ k rest ≡ s
  pub size : byte_len before ≡ n
  pub lacks : Lacks (code k) before

-- A text at an occurrence of `k`, the last one.
pub record IsLast (k : Char) (s : String) (n : ℕ) : Type 0 where
  pub before : String
  pub rest : String
  pub whole : before ++ String.◌∷◌ k rest ≡ s
  pub size : byte_len before ≡ n
  pub lacks : Lacks (code k) rest

starts_with-single :
    (k c : Char) (s : String)
    → starts_with (String.◌∷◌ c s) (String.◌∷◌ k String.[]) ≡ nat_beq (code c) (code k)
unfolding starts_with
starts_with-single k c s = ground arith

same_char : (c k : Char) → nat_beq (code c) (code k) ≡ true → k ≡ c
same_char c k e = Char-path k c (ground arith)

abbrev pub First : Char → String → Option ℕ → Type 0
First k s none = Lacks (code k) s
First k s (some n) = IsFirst k s n

abbrev pub Last : Char → String → Option ℕ → Type 0
Last k s none = Lacks (code k) s
Last k s (some n) = IsLast k s n

First-behind :
    (k c : Char) (s : String) (o : Option ℕ)
    → nat_beq (code c) (code k) ≡ false
    → First k s o
    → First k (String.◌∷◌ c s) (shift (len_utf8 c) o)
unfolding byte_len
First-behind k c s none other lacks = (other, lacks)
First-behind k c s (some n) other found = record {
  before = String.◌∷◌ c found.before;
  rest = found.rest;
  whole = cons-append c found.before (String.◌∷◌ k found.rest) ∙ ap (String.◌∷◌ c) found.whole;
  size = ap (λ n. len_utf8 c + n) found.size;
  lacks = (other, found.lacks);
}

-- `find` of a character gives its first occurrence, and fails only where there is none.
pub find?-First : (k : Char) (s : String) → First k s (find? s (String.◌∷◌ k String.[]))
unfolding find? starts_with byte_len
find?-First k String.[] = tt
find?-First k (String.◌∷◌ c s) = elim (Bool-cases (nat_beq (code c) (code k))) [
  | inl e ↦
      rw (starts_with-single k c s, e)
        (record {
          before = String.[];
          rest = s;
          whole = nil-append (String.◌∷◌ k s) ∙ ap (λ x. String.◌∷◌ x s) (same_char c k e);
          size = refl;
          lacks = tt;
        })
  | inr e ↦
      rw (starts_with-single k c s, e)
        (First-behind k c s (find? s (String.◌∷◌ k String.[])) e (find?-First k s))
]

Last-behind :
    (k c : Char) (s : String) (o : Option ℕ) (b : Bool)
    → nat_beq (code c) (code k) ≡ b
    → Last k s o
    → Last k (String.◌∷◌ c s) (behind_or (len_utf8 c) o (if b then some 0 else none))
unfolding byte_len
Last-behind k c s (some n) b e found = record {
  before = String.◌∷◌ c found.before;
  rest = found.rest;
  whole = cons-append c found.before (String.◌∷◌ k found.rest) ∙ ap (String.◌∷◌ c) found.whole;
  size = ap (λ n. len_utf8 c + n) found.size;
  lacks = found.lacks;
}
Last-behind k c s none true e lacks = record {
  before = String.[];
  rest = s;
  whole = nil-append (String.◌∷◌ k s) ∙ ap (λ x. String.◌∷◌ x s) (same_char c k e);
  size = refl;
  lacks = lacks;
}
Last-behind k c s none false e lacks = (e, lacks)

-- `rfind` of a character gives its last occurrence, and fails only where there is none.
pub rfind?-Last : (k : Char) (s : String) → Last k s (rfind? s (String.◌∷◌ k String.[]))
unfolding rfind? starts_with
rfind?-Last k String.[] = tt
rfind?-Last k (String.◌∷◌ c s) = rw (starts_with-single k c s) (
    Last-behind k c s (rfind? s (String.◌∷◌ k String.[])) (nat_beq (code c) (code k)) refl
      (rfind?-Last k s))

-- Of two occurrences in one text the second is in the rest behind the first.
pub occurrences_apart :
    (x y : Char) (a b c d : String)
    → a ++ String.◌∷◌ x b ≡ c ++ String.◌∷◌ y d
    → byte_len a < byte_len c
    → (mid : String) × (c ≡ a ++ String.◌∷◌ x mid) × (b ≡ mid ++ String.◌∷◌ y d)
unfolding byte_len
occurrences_apart x y a b String.[] d e h = absurd (omega arith)
occurrences_apart x y String.[] b (String.◌∷◌ k c) d e h =
    let same : Path String (String.◌∷◌ x b) (String.◌∷◌ k (c ++ String.◌∷◌ y d)) =
      sym (nil-append (String.◌∷◌ x b)) ∙ e ∙ cons-append k c (String.◌∷◌ y d) in
    (
      c,
      ap (λ z. String.◌∷◌ z c) (sym (head-eq_of_cons-eq same)) ∙ sym (nil-append (String.◌∷◌ x c)),
      tail-eq_of_cons-eq same,
    )
occurrences_apart x y (String.◌∷◌ j a) b (String.◌∷◌ k c) d e h =
    let same : Path String (String.◌∷◌ j (a ++ String.◌∷◌ x b))
        (String.◌∷◌ k (c ++ String.◌∷◌ y d)) =
      sym (cons-append j a (String.◌∷◌ x b)) ∙ e ∙ cons-append k c (String.◌∷◌ y d) in
    let first = head-eq_of_cons-eq same in
    let (mid, ec, eb) =
      occurrences_apart x y a b c d (tail-eq_of_cons-eq same) (omega (arith, ap len_utf8 first)) in
    (
      mid,
      ap (λ z. String.◌∷◌ z c) (sym first)
          ∙ ap (String.◌∷◌ j) ec
          ∙ sym (cons-append j a (String.◌∷◌ x mid)),
      eb,
    )
