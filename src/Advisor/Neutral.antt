-- ===== src/Advisor/Neutral.antt =====
-- What `neutralize_action_language` leaves of a text of ASCII characters.
use Prim.Native.Char.{Char, char}
use Prim.Native.String.{◌++◌}
use text.Mathlib.TextLemmas.{nil-append, cons-append, append_assoc}
use stellartrace.Prelude.{ℕ, ◌≡◌, refl, false, ◌||◌, String, arith, ap, ◌∙◌, ap₂}
use stellartrace.Prelude.Substring.{contains_str, Lacks, IsAscii, ascii_lowercase}
use stellartrace.Prelude.Substring.Append.{
  contains_str-prefix, contains_str-suffix, contains_str-barrier, EachChar-append, EachChar-parts,
}
use stellartrace.Prelude.Substring.Occurrence.{ascii_lowercase-append}
use stellartrace.Advisor.Sanitize.{neutralized}

-- the text between the brackets of `neutralized`, in lower case
abbrev pub notice : String
notice = "neutralized: non-actionable ai text removed"

-- A text that is not empty and cannot overlap with the notice that replaces it.
pub record IsMarker (m : String) : Type 0 where
  pub initial : Char
  pub others : String
  pub spelled : m ≡ String.◌∷◌ initial others
  pub no_bracket : Lacks b'[' m
  pub no_closing : Lacks b']' m
  pub no_notice : contains_str notice m ≡ false

abbrev opening : Char
opening = char b'[' tt

abbrev closing : Char
closing = char b']' tt

notice_lower : ascii_lowercase neutralized ≡ String.◌∷◌ opening (notice ++ "]")
unfolding ascii_lowercase
notice_lower = refl

neutralized_lower :
    (v : String)
    → ascii_lowercase (neutralized ++ v)
      ≡ String.◌∷◌ opening (notice ++ String.◌∷◌ closing (ascii_lowercase v))
neutralized_lower v =
    let low = ascii_lowercase v in
    ascii_lowercase-append neutralized v
    ∙ ap (λ (t : String). t ++ low) notice_lower
    ∙ cons-append opening (notice ++ "]") low
    ∙ ap (String.◌∷◌ opening) (
        append_assoc notice "]" low
        ∙ ap (λ (t : String). notice ++ t)
            (cons-append closing "" low ∙ ap (String.◌∷◌ closing) (nil-append low)))

-- A marker occurs in a text with the notice just if it occurs before or behind it.
contains_str-neutralized :
    (m u v : String)
    → IsMarker m
    → contains_str (ascii_lowercase (u ++ (neutralized ++ v))) m
      ≡ (contains_str (ascii_lowercase u) m || contains_str (ascii_lowercase v) m)
contains_str-neutralized m u v marker =
    let a = ascii_lowercase u in
    let b = ascii_lowercase v in
    ap (λ (t : String). contains_str t m)
      (ascii_lowercase-append u (neutralized ++ v)
        ∙ ap (λ (t : String). a ++ t) (neutralized_lower v))
    ∙ contains_str-barrier opening m a (notice ++ String.◌∷◌ closing b) marker.no_bracket
    ∙ ap (λ t. contains_str a m || t)
        (contains_str-barrier closing m notice b marker.no_closing
          ∙ ap (λ t. t || contains_str b m) marker.no_notice)

-- `out` is `rest` with every `m` replaced: it has no `m`, and no marker that `rest` has not.
pub record IsRewritten (m rest out : String) : Type 0 where
  pub ascii : IsAscii out
  pub gone : contains_str (ascii_lowercase out) m ≡ false
  pub others :
      (m' : String)
      → IsMarker m'
      → contains_str (ascii_lowercase rest) m' ≡ false
      → contains_str (ascii_lowercase out) m' ≡ false
  pub lacks : (n : ℕ) → Lacks n neutralized → Lacks n rest → Lacks n out

absent_parts :
    (m a b : String)
    → contains_str (ascii_lowercase (a ++ b)) m ≡ false
    → (contains_str (ascii_lowercase a) m ≡ false) × (contains_str (ascii_lowercase b) m ≡ false)
absent_parts m a b h =
    let both : contains_str (ascii_lowercase a ++ ascii_lowercase b) m ≡ false =
      rw (← ascii_lowercase-append a b) h in
    (
      contains_str-prefix m (ascii_lowercase a) (ascii_lowercase b) both,
      contains_str-suffix m (ascii_lowercase a) (ascii_lowercase b) both,
    )

-- A text in three parts, the second of which is replaced.
pub replaced :
    (m a x c out : String)
    → IsMarker m
    → IsAscii (a ++ (x ++ c))
    → contains_str (ascii_lowercase a) m ≡ false
    → IsRewritten m c out
    → IsRewritten m (a ++ (x ++ c)) (a ++ (neutralized ++ out))
replaced m a x c out marker ascii first rewritten = record {
  ascii =
      EachChar-append _ a (neutralized ++ out) (EachChar-parts _ a (x ++ c) ascii).0
        (EachChar-append _ neutralized out (omega arith) rewritten.ascii);
  gone = contains_str-neutralized m a out marker ∙ ap₂ (λ p q. p || q) first rewritten.gone;
  others = λ m' marker' absent.
      let (in_a, rest) = absent_parts m' a (x ++ c) absent in
      let in_c = (absent_parts m' x c rest).1 in
      contains_str-neutralized m' a out marker'
      ∙ ap₂ (λ p q. p || q) in_a (rewritten.others m' marker' in_c);
  lacks = λ n notice_lacks lack.
      let (in_a, rest) = EachChar-parts _ a (x ++ c) lack in
      let in_c = (EachChar-parts _ x c rest).1 in
      EachChar-append _ a (neutralized ++ out) in_a
        (EachChar-append _ neutralized out notice_lacks (rewritten.lacks n notice_lacks in_c));
}

pub kept_whole :
    (m s : String) → IsAscii s → contains_str (ascii_lowercase s) m ≡ false → IsRewritten m s s
kept_whole m s ascii absent = record {
  ascii = ascii;
  gone = absent;
  others = λ m' marker' absent'. absent';
  lacks = λ n notice_lacks lack. lack;
}
