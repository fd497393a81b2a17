-- ===== src/Advisor/Ends.antt =====
-- The loops of crates/ai_advisor/src/sanitize.rs end on every text, whatever lower case is.
use stellartrace.Prelude.{
  ℕ, zero, suc, ◌+◌, ◌<◌, ◌≡◌, refl, Option, none, some, String, List, [], ◌∷◌, arith,
  if◌then◌else◌, Bool-cases, inl, inr, All,
}
use stellartrace.Prelude.Outcome.{Run, done, ◌>>=◌, Ends, Ends-bind}
use stellartrace.Prelude.Substring.{byte_len, char_count, contains_str, split_at, take_chars}
use stellartrace.Prelude.Substring.Positions.{split_at-shorter}
use stellartrace.Platform.{Unicode}
use stellartrace.Advisor.Sanitize.{
  before, behind, pushed, rebuild, neutralize_from, neutralize_action_language, strip_markup,
  clean_field, action_instruction_markers, max_field_len,
}

before-Ends : (o : Option (String × String)) → Ends (before o)
before-Ends none = tt
before-Ends (some (a, b)) = tt

-- What a slice from behind a marker gives is shorter.
behind-Ends :
    (rest : String) (n : ℕ) (o : Option (String × String)) (f : String → Run String)
    → split_at rest n ≡ o
    → 0 < n
    → ((next : String) → char_count next < char_count rest → Ends (f next))
    → Ends (behind o >>= f)
behind-Ends rest n none f e pos later = tt
behind-Ends rest n (some (a, b)) f e pos later = later b (split_at-shorter rest n a b e pos)

pushed-Ends :
    (m rest : String) (found : Option ℕ) (again : String → Run String)
    → 0 < byte_len m
    → ((next : String) → char_count next < char_count rest → Ends (again next))
    → Ends (pushed found m rest again)
pushed-Ends m rest none again nonempty later = tt
pushed-Ends m rest (some pos) again nonempty later =
    Ends-bind (before (split_at rest pos)) _ (before-Ends (split_at rest pos)) (λ kept.
      behind-Ends rest (pos + byte_len m) (split_at rest (pos + byte_len m)) _ refl (omega arith)
        (λ next shorter. Ends-bind (again next) _ (later next shorter) (λ out. tt)))

module _ ⦃unicode : Unicode⦄ where
  rebuild-Ends :
      (fuel : ℕ) (m rest : String)
      → 0 < byte_len m
      → char_count rest < fuel
      → Ends (rebuild fuel m rest)
  unfolding rebuild
  rebuild-Ends zero m rest nonempty h = absurd (omega arith)
  rebuild-Ends (suc fuel) m rest nonempty h =
      pushed-Ends m rest _ (rebuild fuel m) nonempty
        (λ next shorter. rebuild-Ends fuel m next nonempty (omega arith))

  neutralize_from-Ends :
      (lower : String) (ms : List String) (s : String)
      → All (λ m. 0 < byte_len m) ms
      → Ends (neutralize_from lower ms s)
  unfolding neutralize_from
  neutralize_from-Ends lower [] s nonempty = tt
  neutralize_from-Ends lower (m ∷ ms) s (here, nonempty) =
      Ends-bind (if contains_str lower m then rebuild (char_count s + 1) m s else done s) _
        (elim (Bool-cases (contains_str lower m)) [
          | inl e ↦ rw e (rebuild-Ends (char_count s + 1) m s here (omega arith))
          | inr e ↦ rw e tt
        ])
        (λ t. neutralize_from-Ends lower ms t nonempty)

  markers_pos : All (λ m. 0 < byte_len m) action_instruction_markers
  unfolding byte_len
  markers_pos = omega arith

  -- `clean_field` ends on every text, in a value or a panic, whatever lower case is: the fuel of its
  -- inner loop, one more than the characters of the text, is enough.
  pub clean_field-Ends : (s : String) → Ends (clean_field s)
  unfolding clean_field neutralize_action_language
  clean_field-Ends s =
      let stripped = strip_markup s in
      Ends-bind
        (neutralize_from (unicode.to_lowercase stripped) action_instruction_markers stripped)
        (λ t. done (take_chars max_field_len t))
        (neutralize_from-Ends (unicode.to_lowercase stripped) action_instruction_markers stripped
          markers_pos)
        (λ t. tt)
