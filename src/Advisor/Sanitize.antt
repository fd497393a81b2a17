-- ===== src/Advisor/Sanitize.antt =====
-- crates/ai_advisor/src/sanitize.rs. Slices of a text may panic; the loop runs on fuel.
use Prim.Native.Char.{code}
use Prim.Native.String.{◌++◌}
use stellartrace.Prelude.{
  ℕ, zero, suc, ◌+◌, Bool, true, false, not, Option, none, some, String, List, [], ◌∷◌, nat_beq,
  if◌then◌else◌, take,
}
use stellartrace.Prelude.Outcome.{Run, done, panicked, unfinished, ◌>>=◌, run_all}
use stellartrace.Prelude.Substring.{byte_len, char_count, take_chars, find?, contains_str, split_at}
use stellartrace.Platform.{Float, Unicode, ◌<F◌}
use stellartrace.Common.{AiRecommendation, ai_advisory_label}

abbrev pub max_field_len : ℕ
max_field_len = 4000

abbrev pub max_list_items : ℕ
max_list_items = 20

abbrev pub action_instruction_markers : List String
action_instruction_markers =
    "approve this transaction" ∷ "reject this transaction" ∷ "freeze the account"
    ∷ "freeze this account" ∷ "reverse this transaction" ∷ "block this transaction"
    ∷ "set status to" ∷ "mark as false positive" ∷ "ignore previous instructions"
    ∷ "ignore prior instructions" ∷ "dismiss and close" ∷ "automatically" ∷ []

-- the rest of the loop of `strip_markup`, by the value of `in_tag`
unfoldable pub strip_from : Bool → String → String
strip_from in_tag String.[] = String.[]
strip_from in_tag (String.◌∷◌ c s) =
    let opened = strip_from true s in
    let closed = strip_from false s in
    let rest = strip_from in_tag s in
    if nat_beq (code c) b'<'
    then opened
    else if nat_beq (code c) b'>'
    then closed
    else if not in_tag
    then String.◌∷◌ c rest
    else rest

abbrev pub strip_markup : String → String
strip_markup input = strip_from false input

abbrev pub neutralized : String
neutralized = "[neutralized: non-actionable AI text removed]"

abbrev pub before : Option (String × String) → Run String
before none = panicked
before (some (a, b)) = done a

abbrev pub behind : Option (String × String) → Run String
behind none = panicked
behind (some (a, b)) = done b

-- One round of the inner loop, and then `again`.
abbrev pub pushed : Option ℕ → String → String → (String → Run String) → Run String
pushed none marker rest again = done rest
pushed (some pos) marker rest again = do
  kept ← before (split_at rest pos)
  next ← behind (split_at rest (pos + byte_len marker))
  rebuilt ← again next
  done (kept ++ (neutralized ++ rebuilt))

-- `f64::clamp(0.0, 1.0)`
abbrev pub clamp_unit : {F : Type 0} ⦃f64 : Float F⦄ → F → F
clamp_unit ⦃f64⦄ x =
    let low = if x <F f64.of_nat 0 then f64.of_nat 0 else x in
    if f64.of_nat 1 <F low then f64.of_nat 1 else low

module _ ⦃unicode : Unicode⦄ where
  -- The inner loop of `neutralize_action_language`: what is pushed on `rebuilt` from `rest` on.
  unfoldable pub rebuild : ℕ → String → String → Run String
  rebuild zero marker rest = unfinished
  rebuild (suc fuel) marker rest =
      pushed (find? (unicode.to_lowercase rest) marker) marker rest (rebuild fuel marker)

  -- The outer loop, over the markers.
  unfoldable pub neutralize_from : String → List String → String → Run String
  neutralize_from lower [] result = done result
  neutralize_from lower (marker ∷ markers) result = do
    rebuilt ←
        (if contains_str lower marker
          then rebuild (char_count result + 1) marker result
          else done result)
    neutralize_from lower markers rebuilt

  unfoldable pub neutralize_action_language : String → Run String
  neutralize_action_language input =
      neutralize_from (unicode.to_lowercase input) action_instruction_markers input

  unfoldable pub clean_field : String → Run String
  clean_field input = do
    neutralized_text ← neutralize_action_language (strip_markup input)
    done (take_chars max_field_len neutralized_text)

  module _ {F T : Type 0} ⦃f64 : Float F⦄ where
    unfoldable pub sanitize_recommendation : AiRecommendation F T → Run (AiRecommendation F T)
    sanitize_recommendation rec = do
      summary ← clean_field rec.summary
      relevant_history_context ← clean_field rec.relevant_history_context
      risk_assessment ← clean_field rec.risk_assessment
      explanation ← clean_field rec.explanation
      suspicious_signals ← run_all clean_field (take max_list_items rec.suspicious_signals)
      recommended_next_steps ← run_all clean_field (take max_list_items rec.recommended_next_steps)
      done (record rec {
        label = ai_advisory_label;
        summary = summary;
        suspicious_signals = suspicious_signals;
        relevant_history_context = relevant_history_context;
        risk_assessment = risk_assessment;
        recommended_next_steps = recommended_next_steps;
        confidence =
            clamp_unit
              (if not (f64.is_finite rec.confidence) then f64.of_nat 0 else rec.confidence);
        explanation = explanation;
      })
