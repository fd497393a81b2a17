-- ===== src/Prelude/Substring/Occurrence.antt =====
-- Occurrences in the lower-case form of a text of ASCII characters, taken back to the text.
use Prim.Native.Char.{Char, code}
use Prim.Native.String.{◌++◌}
use text.Mathlib.TextLemmas.{nil-append, cons-append}
use stellartrace.Prelude.{
  ℕ, ◌+◌, ◌<◌, ◌≡◌, refl, true, false, Option, none, some, String, arith, ap, Bool-cases, inl, inr,
  ◌∙◌,
}
use stellartrace.Prelude.Substring.{
  len_utf8, byte_len, starts_with, find?, contains_str, shift, ascii_lower, ascii_lowercase,
  IsAscii,
}
use stellartrace.Prelude.Substring.Append.{starts_with-append, contains_str-cons}

pub ascii_lower-lt : (c : Char) → code c < 128 → code (ascii_lower c) < 128
ascii_lower-lt (Char.char n p) h = ground arith

pub ascii_lowercase-append :
    (a b : String) → ascii_lowercase (a ++ b) ≡ ascii_lowercase a ++ ascii_lowercase b
unfolding ascii_lowercase
ascii_lowercase-append String.[] b = rw (nil-append b, nil-append (ascii_lowercase b))
ascii_lowercase-append (String.◌∷◌ c a) b = rw (
  cons-append c a b,
  cons-append (ascii_lower c) (ascii_lowercase a) (ascii_lowercase b),
  ascii_lowercase-append a b,
)

shift-eq_some :
    (k : ℕ) (o : Option ℕ) (n : ℕ) → shift k o ≡ some n → (p : ℕ) × (o ≡ some p) × (n ≡ k + p)
shift-eq_some k none n h = absurd (cc)
shift-eq_some k (some p) n h = (p, refl, ground arith)

-- A text that ends before the first occurrence of `k ∷ m`, the occurrence and what follows.
pub record IsFound (k : Char) (m s : String) (n : ℕ) : Type 0 where
  pub before : String
  pub from : String
  pub whole : before ++ from ≡ s
  pub size : byte_len before ≡ n
  pub occurs : starts_with (ascii_lowercase from) (String.◌∷◌ k m) ≡ true
  pub first : contains_str (ascii_lowercase before) (String.◌∷◌ k m) ≡ false

nothing_there :
    (k : Char) (m : String)
    → (starts_with String.[] (String.◌∷◌ k m) ≡ false)
      × (contains_str String.[] (String.◌∷◌ k m) ≡ false)
unfolding starts_with contains_str
nothing_there k m = (refl, refl)

ascii_lower-len_utf8 : (c : Char) → code c < 128 → len_utf8 (ascii_lower c) ≡ len_utf8 c
ascii_lower-len_utf8 (Char.char n p) h = ground arith

-- An occurrence in `c ∷ a` but not in `a` would be an occurrence at the start of `c ∷ (a ++ b)`.
contains_str-cons_false :
    (c : Char) (a b m : String)
    → starts_with (String.◌∷◌ c (a ++ b)) m ≡ false
    → contains_str a m ≡ false
    → contains_str (String.◌∷◌ c a) m ≡ false
contains_str-cons_false c a b m other rest =
    let e = cons-append c a b in
    ground (arith, contains_str-cons c a m, starts_with-append m (String.◌∷◌ c a) b, e)

IsFound-behind :
    (k : Char) (m : String) (c : Char) (s : String) (n p : ℕ)
    → code c < 128
    → n ≡ len_utf8 (ascii_lower c) + p
    → starts_with (String.◌∷◌ (ascii_lower c) (ascii_lowercase s)) (String.◌∷◌ k m) ≡ false
    → IsFound k m s p
    → IsFound k m (String.◌∷◌ c s) n
unfolding ascii_lowercase byte_len
IsFound-behind k m c s n p low en e found = record {
  before = String.◌∷◌ c found.before;
  from = found.from;
  whole = cons-append c found.before found.from ∙ ap (String.◌∷◌ c) found.whole;
  size = omega (arith, ascii_lower-len_utf8 c low);
  occurs = found.occurs;
  first =
      contains_str-cons_false (ascii_lower c) (ascii_lowercase found.before)
        (ascii_lowercase found.from) (String.◌∷◌ k m)
        (rw (← ascii_lowercase-append found.before found.from, found.whole) e) found.first;
}

-- The byte position found in the lower-case form of an ASCII text is that of the text itself.
pub find?-IsFound :
    (k : Char) (m s : String) (n : ℕ)
    → IsAscii s
    → find? (ascii_lowercase s) (String.◌∷◌ k m) ≡ some n
    → IsFound k m s n
unfolding find? ascii_lowercase byte_len
find?-IsFound k m String.[] n ascii h = absurd (ground (arith, nothing_there k m))
find?-IsFound k m (String.◌∷◌ c s) n (low, ascii) h =
    elim (Bool-cases
      (starts_with (String.◌∷◌ (ascii_lower c) (ascii_lowercase s)) (String.◌∷◌ k m))) [
        | inl e ↦ record {
          before = String.[];
          from = String.◌∷◌ c s;
          whole = nil-append (String.◌∷◌ c s);
          size = ground arith;
          occurs = e;
          first = (nothing_there k m).1;
        }
        | inr e ↦
            let (p, hp, en) =
              shift-eq_some (len_utf8 (ascii_lower c)) (find? (ascii_lowercase s) (String.◌∷◌ k m))
                n (ground arith) in
            IsFound-behind k m c s n p low en e (find?-IsFound k m s p ascii hp)
      ]

shift-ne-none : (k : ℕ) (o : Option ℕ) → shift k o ≡ none → o ≡ none
shift-ne-none k none h = refl
shift-ne-none k (some n) h = absurd (cc)

-- Where nothing is found there is nothing.
pub find?-eq_none : (s m : String) → find? s m ≡ none → contains_str s m ≡ false
unfolding find? contains_str
find?-eq_none String.[] m h = ground arith
find?-eq_none (String.◌∷◌ c s) m h =
    ground (arith, find?-eq_none s m, shift-ne-none (len_utf8 c) (find? s m))

-- An ASCII text whose lower-case form starts with `m` starts with a part of the size of `m`.
pub starts_with-parts :
    (m s : String)
    → IsAscii s
    → starts_with (ascii_lowercase s) m ≡ true
    → (a : String) × (b : String) × (a ++ b ≡ s) × (byte_len a ≡ byte_len m)
unfolding starts_with ascii_lowercase byte_len
starts_with-parts String.[] s ascii h = (String.[], s, nil-append s, refl)
starts_with-parts (String.◌∷◌ k m) String.[] ascii h = absurd (cc)
starts_with-parts (String.◌∷◌ k m) (String.◌∷◌ c s) (low, ascii) h =
    let (a, b, whole, size) = starts_with-parts m s ascii (ground arith) in
    (
      String.◌∷◌ c a,
      b,
      cons-append c a b ∙ ap (String.◌∷◌ c) whole,
      ground (arith, ascii_lower-len_utf8 c low),
    )
