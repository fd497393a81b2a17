-- ===== src/Advisor/Clean.antt =====
-- `clean_field` of crates/ai_advisor/src/sanitize.rs on texts of ASCII characters.
use Prim.Native.Char.{Char}
use Prim.Native.String.{◌++◌}
use stellartrace.Prelude.{
  ◌&&◌, ap, ◌+◌, ◌+◌, ℕ, ◌≤◌, ◌≡◌, refl, true, false, Bool, String, List, [], ◌∷◌, arith,
  if◌then◌else◌, Bool-cases, inl, inr, All, not,
}
use stellartrace.Prelude.Outcome.{Returns-mono, done, Returns, Returns-bind, Returns-mono}
use stellartrace.Prelude.Substring.Append.{lacks, lacks-Lacks}
use stellartrace.Prelude.Substring.{
  char_count, take_chars, contains_str, starts_with, Lacks, IsAscii, ascii_lowercase,
}
use stellartrace.Prelude.Substring.Append.{
  contains_str-prefix, EachChar-parts, take_chars-parts, char_count-take_chars-le, take_chars_all,
}
use stellartrace.Prelude.Substring.Occurrence.{ascii_lowercase-append}
use stellartrace.Platform.{Unicode, IsUnicode}
use stellartrace.Advisor.Sanitize.{
  rebuild, neutralize_from, neutralize_action_language, neutralized, strip_markup, clean_field,
  action_instruction_markers, max_field_len,
}
use stellartrace.Advisor.Markup.{strip_from-EachChar, strip_from-Lacks, strip_from-eq_self}
use stellartrace.Advisor.Neutral.{notice, IsMarker, IsRewritten, kept_whole}
use stellartrace.Advisor.Rebuild.{rebuild-IsRewritten}

-- `out` is `s` with every marker of the list replaced.
record IsNeutral (markers : List String) (s out : String) : Type 0 where
  pub ascii : IsAscii out
  pub gone : All (λ m. contains_str (ascii_lowercase out) m ≡ false) markers
  pub others :
      (m : String)
      → IsMarker m
      → contains_str (ascii_lowercase s) m ≡ false
      → contains_str (ascii_lowercase out) m ≡ false
  pub lacks : (n : ℕ) → Lacks n neutralized → Lacks n s → Lacks n out

-- The markers that the search in `lower` misses do not occur in `s`.
abbrev Sees : String → String → List String → Type 0
Sees lower s = All (λ m. contains_str lower m ≡ false → contains_str (ascii_lowercase s) m ≡ false)

module _ ⦃unicode : Unicode⦄ (laws : IsUnicode) where
  replaced_round :
      (lower m s : String)
      → IsMarker m
      → IsAscii s
      → (contains_str lower m ≡ false → contains_str (ascii_lowercase s) m ≡ false)
      → Returns
          (IsRewritten m s)
          (if contains_str lower m then rebuild (char_count s + 1) m s else done s)
  replaced_round lower m s marker ascii sees = elim (Bool-cases (contains_str lower m)) [
    | inl e ↦ rw e (rebuild-IsRewritten laws (char_count s + 1) m s marker ascii (omega arith))
    | inr e ↦ rw e (kept_whole m s ascii (sees e))
  ]

  -- One more marker in front.
  IsNeutral-cons :
      (m : String) (ms : List String) (s t out : String)
      → IsMarker m
      → IsRewritten m s t
      → IsNeutral ms t out
      → IsNeutral (m ∷ ms) s out
  IsNeutral-cons m ms s t out marker first rest = record {
    ascii = rest.ascii;
    gone = (rest.others m marker first.gone, rest.gone);
    others = λ m' marker' absent. rest.others m' marker' (first.others m' marker' absent);
    lacks = λ n notice lack. rest.lacks n notice (first.lacks n notice lack);
  }

  Sees-on :
      (lower m s t : String) (ms : List String)
      → All IsMarker ms
      → IsRewritten m s t
      → Sees lower s ms
      → Sees lower t ms
  Sees-on lower m s t [] markers first sees = tt
  Sees-on lower m s t (m' ∷ ms) (marker, markers) first (see, sees) =
      (λ absent. first.others m' marker (see absent), Sees-on lower m s t ms markers first sees)

  neutralize_from-IsNeutral :
      (lower : String) (ms : List String) (s : String)
      → All IsMarker ms
      → IsAscii s
      → Sees lower s ms
      → Returns (IsNeutral ms s) (neutralize_from lower ms s)
  unfolding neutralize_from
  neutralize_from-IsNeutral lower [] s markers ascii sees = record {
    ascii = ascii;
    gone = tt;
    others = λ m marker absent. absent;
    lacks = λ n notice lack. lack;
  }
  neutralize_from-IsNeutral lower (m ∷ ms) s (marker, markers) ascii (see, sees) =
      Returns-bind (IsRewritten m s) (IsNeutral (m ∷ ms) s) _ (neutralize_from lower ms)
        (replaced_round lower m s marker ascii see)
        (λ t first.
          Returns-mono (IsNeutral ms t) (IsNeutral (m ∷ ms) s) (neutralize_from lower ms t)
            (λ out. IsNeutral-cons m ms s t out marker first)
            (neutralize_from-IsNeutral lower ms t markers first.ascii
              (Sees-on lower m s t ms markers first sees)))

  Sees-self : (s : String) (ms : List String) → Sees (ascii_lowercase s) s ms
  Sees-self s [] = tt
  Sees-self s (m ∷ ms) = (λ absent. absent, Sees-self s ms)

is_marker : String → Bool
is_marker m = lacks b'[' m && (lacks b']' m && not (contains_str notice m))

is_marker-IsMarker :
    (c : Char) (s : String) → is_marker (String.◌∷◌ c s) ≡ true → IsMarker (String.◌∷◌ c s)
unfolding is_marker
is_marker-IsMarker c s h = record {
  initial = c;
  others = s;
  spelled = refl;
  no_bracket = lacks-Lacks b'[' (String.◌∷◌ c s) (ground arith);
  no_closing = lacks-Lacks b']' (String.◌∷◌ c s) (ground arith);
  no_notice = ground arith;
}

-- A check of a whole list by evaluation; no marker is empty.
are_markers : List String → Bool
are_markers [] = true
are_markers (String.[] ∷ ms) = false
are_markers (String.◌∷◌ c s ∷ ms) = is_marker (String.◌∷◌ c s) && are_markers ms

are_markers-IsMarker : (ms : List String) → are_markers ms ≡ true → All IsMarker ms
unfolding are_markers
are_markers-IsMarker [] h = tt
are_markers-IsMarker (String.[] ∷ ms) h = absurd (cc)
are_markers-IsMarker (String.◌∷◌ c s ∷ ms) h =
    (is_marker-IsMarker c s (ground arith), are_markers-IsMarker ms (ground arith))

markers-IsMarker : All IsMarker action_instruction_markers
unfolding are_markers is_marker lacks contains_str starts_with
markers-IsMarker = are_markers-IsMarker action_instruction_markers refl

neutralized-Lacks : Lacks b'<' neutralized × Lacks b'>' neutralized
unfolding lacks
neutralized-Lacks = (lacks-Lacks b'<' neutralized refl, lacks-Lacks b'>' neutralized refl)

module _ ⦃unicode : Unicode⦄ where
  -- A text that may be shown: short, without markup, and without a marker in whatever case.
  pub record IsClean (out : String) : Type 0 where
    pub ascii : IsAscii out
    pub within : char_count out ≤ max_field_len
    pub no_opening : Lacks b'<' out
    pub no_closing : Lacks b'>' out
    pub no_marker :
        All (λ m. contains_str (unicode.to_lowercase out) m ≡ false) action_instruction_markers

  nothing_neutralized :
      (lower : String) (ms : List String) (s : String)
      → All (λ m. contains_str lower m ≡ false) ms
      → neutralize_from lower ms s ≡ done s
  unfolding neutralize_from
  nothing_neutralized lower [] s absent = refl
  nothing_neutralized lower (m ∷ ms) s (here, absent) =
      rw here (nothing_neutralized lower ms s absent)

  clean_field-eq_self : (s : String) → IsClean s → clean_field s ≡ done s
  unfolding clean_field neutralize_action_language
  clean_field-eq_self s clean =
      rw
        (
          strip_from-eq_self s clean.no_opening clean.no_closing,
          nothing_neutralized (unicode.to_lowercase s) action_instruction_markers s clean.no_marker,
        )
        (ap done (take_chars_all max_field_len s clean.within))

  module _ (laws : IsUnicode) where
    -- What a text misses, its prefix misses too.
    absent_prefix :
        (t rest : String) (ms : List String)
        → IsAscii t
        → All (λ m. contains_str (ascii_lowercase (t ++ rest)) m ≡ false) ms
        → All (λ m. contains_str (unicode.to_lowercase t) m ≡ false) ms
    absent_prefix t rest [] ascii absent = tt
    absent_prefix t rest (m ∷ ms) ascii (here, absent) = (
      rw (laws.ascii t ascii) (
          contains_str-prefix m (ascii_lowercase t) (ascii_lowercase rest)
            (rw (← ascii_lowercase-append t rest) here)),
      absent_prefix t rest ms ascii absent,
    )

    -- the first characters of a neutral text
    taken-IsClean :
        (s out : String)
        → Lacks b'<' s
        → Lacks b'>' s
        → IsNeutral action_instruction_markers s out
        → IsClean (take_chars max_field_len out)
    taken-IsClean s out opens closes neutral =
        let t = take_chars max_field_len out in
        let (rest, whole) = take_chars-parts max_field_len out in
        let ascii = (EachChar-parts _ t rest (rw whole neutral.ascii)).0 in
        record {
          ascii = ascii;
          within = char_count-take_chars-le max_field_len out;
          no_opening =
              (EachChar-parts _ t rest (rw whole (neutral.lacks b'<' neutralized-Lacks.0 opens))).0;
          no_closing =
              (EachChar-parts _ t rest
                (rw whole (neutral.lacks b'>' neutralized-Lacks.1 closes))).0;
          no_marker = absent_prefix t rest action_instruction_markers ascii (rw whole neutral.gone);
        }

    neutralize-IsNeutral :
        (s : String)
        → IsAscii s
        → Returns (IsNeutral action_instruction_markers s) (neutralize_action_language s)
    unfolding neutralize_action_language
    neutralize-IsNeutral s ascii = rw (laws.ascii s ascii) (
        neutralize_from-IsNeutral laws (ascii_lowercase s) action_instruction_markers s
          markers-IsMarker ascii (Sees-self laws s action_instruction_markers))

    -- On a text of ASCII characters `clean_field` does not panic. What it returns has at most 4000
    -- characters, no angle bracket, and no marker in whatever case; cleaning it again changes nothing.
    pub clean_field-IsClean :
        (s : String)
        → IsAscii s
        → Returns (λ out. IsClean out × (clean_field out ≡ done out)) (clean_field s)
    unfolding clean_field
    clean_field-IsClean s ascii =
        let stripped = strip_markup s in
        let (opens, closes) = strip_from-Lacks s false in
        Returns-bind (IsNeutral action_instruction_markers stripped) _
          (neutralize_action_language stripped) (λ t. done (take_chars max_field_len t))
          (neutralize-IsNeutral stripped (strip_from-EachChar _ s ascii false))
          (λ out neutral.
            let clean = taken-IsClean stripped out opens closes neutral in
            (clean, clean_field-eq_self (take_chars max_field_len out) clean))
