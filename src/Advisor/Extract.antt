-- ===== src/Advisor/Extract.antt =====
-- `extract_json` of crates/ai_advisor/src/claude.rs.
use Prim.Native.Char.{Char, char, code}
use Prim.Native.String.{◌++◌}
use text.Mathlib.TextLemmas.{nil-append, cons-append, append_assoc}
use native.Mathlib.Decide.{dec_lt}
use stellartrace.Prelude.{
  ℕ, ◌+◌, ◌-◌, ◌<◌, ◌≤◌, ◌≡◌, ◌≢◌, refl, Option, none, some, String, ltb, arith, ap, Bool-cases,
  inl, inr, ◌∙◌, sym,
}
use stellartrace.Prelude.Outcome.{done, ◌>>=◌, Returns}
use stellartrace.Prelude.Substring.{byte_len, split_at, find?, rfind?, Lacks}
use stellartrace.Prelude.Substring.Append.{EachChar-parts}
use stellartrace.Prelude.Substring.Positions.{split_at-append, byte_len-append}
use stellartrace.Prelude.Substring.Single.{
  IsFirst, IsLast, First, Last, find?-First, rfind?-Last, occurrences_apart,
}
use stellartrace.Advisor.Claude.{sliced, slice_from_to, extract_json}

abbrev opening : Char
opening = char b'{' tt

abbrev closing : Char
closing = char b'}' tt

-- a text in braces
abbrev pub braced : String → String
braced mid = String.◌∷◌ opening (mid ++ "}")

-- `json` stands in `text` between its first opening and its last closing brace.
pub record IsExtracted (text json : String) : Type 0 where
  pub front : String
  pub mid : String
  pub rear : String
  pub spelled : json ≡ braced mid
  pub whole : front ++ (json ++ rear) ≡ text
  pub first : Lacks b'{' front
  pub last : Lacks b'}' rear

-- No closing brace stands behind an opening one.
abbrev pub Unbraced : String → Type 0
Unbraced text = (a mid b : String) → a ++ (braced mid ++ b) ≢ text

abbrev pub Extracted : String → Option String → Type 0
Extracted text none = Unbraced text
Extracted text (some json) = IsExtracted text json

braced_parts :
    (a mid b : String)
    → (a ++ (braced mid ++ b) ≡ a ++ String.◌∷◌ opening (mid ++ String.◌∷◌ closing b))
      × (a ++ (braced mid ++ b) ≡ (a ++ String.◌∷◌ opening mid) ++ String.◌∷◌ closing b)
braced_parts a mid b =
    let spread : braced mid ++ b ≡ String.◌∷◌ opening (mid ++ String.◌∷◌ closing b) =
      cons-append opening (mid ++ "}") b
      ∙ ap (String.◌∷◌ opening) (
          append_assoc mid "}" b
          ∙ ap (λ (t : String). mid ++ t)
              (cons-append closing "" b ∙ ap (String.◌∷◌ closing) (nil-append b))) in
    let one = ap (λ (t : String). a ++ t) spread in
    (
      one,
      one
          ∙ ap (λ (t : String). a ++ t) (sym (cons-append opening mid (String.◌∷◌ closing b)))
          ∙ sym (append_assoc a (String.◌∷◌ opening mid) (String.◌∷◌ closing b)),
    )

lacks_at : (x : Char) (a b : String) → Lacks (code x) (a ++ String.◌∷◌ x b) → ⊥
lacks_at x a b h = let (here, rest) = (EachChar-parts _ a (String.◌∷◌ x b) h).1 in ground arith

-- Without an opening brace there is no braced part, nor without a closing one.
Unbraced-of_no_opening : (text : String) → Lacks b'{' text → Unbraced text
Unbraced-of_no_opening text lacks a mid b e =
    lacks_at opening a (mid ++ String.◌∷◌ closing b) (rw (← (braced_parts a mid b).0, e) lacks)

Unbraced-of_no_closing : (text : String) → Lacks b'}' text → Unbraced text
Unbraced-of_no_closing text lacks a mid b e =
    lacks_at closing (a ++ String.◌∷◌ opening mid) b (rw (← (braced_parts a mid b).1, e) lacks)

first_le :
    (x : Char) (text : String) (n : ℕ) (a b : String)
    → IsFirst x text n
    → a ++ String.◌∷◌ x b ≡ text
    → n ≤ byte_len a
first_le x text n a b first e = elim (dec_lt (byte_len a) n) [
  | yes h ↦
      let (mid, inside, rest) =
        occurrences_apart x x a b first.before first.rest (e ∙ sym first.whole)
          (omega (arith, first.size)) in
      absurd (lacks_at x a mid (rw inside at first.lacks))
  | no h ↦ omega arith
]

le_last :
    (x : Char) (text : String) (n : ℕ) (a b : String)
    → IsLast x text n
    → a ++ String.◌∷◌ x b ≡ text
    → byte_len a ≤ n
le_last x text n a b last e = elim (dec_lt n (byte_len a)) [
  | yes h ↦
      let (mid, front, inside) =
        occurrences_apart x x last.before last.rest a b (last.whole ∙ sym e)
          (omega (arith, last.size)) in
      absurd (lacks_at x mid b (rw inside at last.lacks))
  | no h ↦ omega arith
]

-- A closing brace that is nowhere behind the first opening one.
Unbraced-of_order :
    (text : String) (start end : ℕ)
    → IsFirst opening text start
    → IsLast closing text end
    → end ≤ start
    → Unbraced text
unfolding byte_len
Unbraced-of_order text start end first last h a mid b e =
    let (one, other) = braced_parts a mid b in
    omega (
      arith,
      first_le opening text start a (mid ++ String.◌∷◌ closing b) first (sym one ∙ e),
      le_last closing text end (a ++ String.◌∷◌ opening mid) b last (sym other ∙ e),
      byte_len-append a (String.◌∷◌ opening mid),
    )

-- the slice of a braced part
sliced_braced :
    (text front mid rear : String) (start end : ℕ)
    → front ++ (braced mid ++ rear) ≡ text
    → byte_len front ≡ start
    → byte_len (front ++ String.◌∷◌ opening mid) ≡ end
    → slice_from_to text start end ≡ done (braced mid)
unfolding byte_len
sliced_braced text front mid rear start end whole starts ends =
    let one : split_at text start ≡ some (front, braced mid ++ rear) =
      rw (← whole, ← starts) (split_at-append front (braced mid ++ rear)) in
    let size : end + 1 - start ≡ byte_len (braced mid) =
      omega (arith, byte_len-append front (String.◌∷◌ opening mid), byte_len-append mid "}") in
    rw (one, size, split_at-append (braced mid) rear)

sliced-IsExtracted :
    (text : String) (start end : ℕ)
    → IsFirst opening text start
    → IsLast closing text end
    → start < end
    → Returns (Extracted text) (slice_from_to text start end >>= (λ json. done (some json)))
sliced-IsExtracted text start end first last h =
    let (mid, front, rest) =
      occurrences_apart opening closing first.before first.rest last.before last.rest
        (first.whole ∙ sym last.whole) (omega (arith, first.size, last.size)) in
    let whole : first.before ++ (braced mid ++ last.rest) ≡ text =
      (braced_parts first.before mid last.rest).1
      ∙ ap (λ (t : String). t ++ String.◌∷◌ closing last.rest) (sym front)
      ∙ last.whole in
    rw
      (sliced_braced text first.before mid last.rest start end whole first.size
        (rw (← front) last.size))
      (record {
        front = first.before;
        mid = mid;
        rear = last.rest;
        spelled = refl;
        whole = whole;
        first = first.lacks;
        last = last.lacks;
      })

sliced-Extracted :
    (text : String) (start end : Option ℕ)
    → First opening text start
    → Last closing text end
    → Returns (Extracted text) (sliced text start end)
sliced-Extracted text none end first last = Unbraced-of_no_opening text first
sliced-Extracted text (some start) none first last = Unbraced-of_no_closing text last
sliced-Extracted text (some start) (some end) first last = elim (Bool-cases (ltb start end)) [
  | inl e ↦ rw e (sliced-IsExtracted text start end first last (ground arith))
  | inr e ↦ rw e (Unbraced-of_order text start end first last (ground arith))
]

-- `extract_json` never panics, on any text. It returns the part from the first opening brace to the
-- last closing one; it returns nothing just where no closing brace stands behind an opening one.
pub extract_json-Extracted : (text : String) → Returns (Extracted text) (extract_json text)
unfolding extract_json
extract_json-Extracted text =
    sliced-Extracted text (find? text "{") (rfind? text "}") (find?-First opening text)
      (rfind?-Last closing text)
