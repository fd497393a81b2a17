-- ===== src/Advisor/Markup.antt =====
-- `strip_markup` of crates/ai_advisor/src/sanitize.rs.
use Prim.Native.Char.{Char, code}
use stellartrace.Prelude.{
  ◌≡◌, refl, true, false, Bool, String, nat_beq, if◌then◌else◌, Bool-cases, inl, inr, not, ap,
}
use stellartrace.Prelude.Substring.{Lacks, EachChar}
use stellartrace.Advisor.Sanitize.{strip_from}

-- The first character is dropped, or it is kept, outside of a tag, and no bracket.
strip_from-cases :
    (Q : String → Type 0) (in_tag : Bool) (c : Char) (s : String)
    → ((tag : Bool) → Q (strip_from tag s))
    → (nat_beq (code c) b'<' ≡ false
        → nat_beq (code c) b'>' ≡ false
        → Q (String.◌∷◌ c (strip_from in_tag s)))
    → Q (strip_from in_tag (String.◌∷◌ c s))
unfolding strip_from
strip_from-cases Q in_tag c s dropped kept = elim (Bool-cases (nat_beq (code c) b'<')) [
  | inl e ↦ rw e (dropped true)
  | inr e ↦ elim (Bool-cases (nat_beq (code c) b'>')) [
    | inl e' ↦ rw (e, e') (dropped false)
    | inr e' ↦ rw (e, e') (outside in_tag (dropped in_tag) (kept e e'))
  ]
]
  where
    outside :
        (tag : Bool)
        → Q (strip_from in_tag s)
        → Q (String.◌∷◌ c (strip_from in_tag s))
        → Q (if not tag then String.◌∷◌ c (strip_from in_tag s) else strip_from in_tag s)
    outside true q r = q
    outside false q r = r

-- What is kept are characters of the text.
pub strip_from-EachChar :
    (P : Char → Type 0) (s : String)
    → EachChar P s
    → (in_tag : Bool) → EachChar P (strip_from in_tag s)
strip_from-EachChar P String.[] h in_tag = unfold strip_from in tt
strip_from-EachChar P (String.◌∷◌ c s) (first, h) in_tag =
    strip_from-cases (EachChar P) in_tag c s (strip_from-EachChar P s h)
      (λ no_open no_close. (first, strip_from-EachChar P s h in_tag))

-- No bracket is kept.
pub strip_from-Lacks :
    (s : String) (in_tag : Bool)
    → Lacks b'<' (strip_from in_tag s) × Lacks b'>' (strip_from in_tag s)
strip_from-Lacks String.[] in_tag = unfold strip_from in (tt, tt)
strip_from-Lacks (String.◌∷◌ c s) in_tag =
    strip_from-cases (λ t. Lacks b'<' t × Lacks b'>' t) in_tag c s (strip_from-Lacks s)
      (λ no_open no_close.
        let (opens, closes) = strip_from-Lacks s in_tag in ((no_open, opens), (no_close, closes)))

-- A text without brackets is kept.
pub strip_from-eq_self : (s : String) → Lacks b'<' s → Lacks b'>' s → strip_from false s ≡ s
unfolding strip_from
strip_from-eq_self String.[] opens closes = refl
strip_from-eq_self (String.◌∷◌ c s) (no_open, opens) (no_close, closes) =
    rw (no_open, no_close) (ap (String.◌∷◌ c) (strip_from-eq_self s opens closes))
