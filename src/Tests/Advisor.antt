-- ===== src/Tests/Advisor.antt =====
-- The theorems on the advisor at concrete inputs.
use mathlib.Core.Option
use mathlib.Core.List.{filter_map}
use stellartrace.Rules.{evaluate, large_transfer}
use stellartrace.Scoring.{compute_score, severity_for_score}
use stellartrace.Alerts.{create_alert, apply_investigator_decision}
use stellartrace.Platform.Samples.{whole}
use stellartrace.Prelude.{arith, nat_eq, false, ℕ, ◌≡◌, refl, true, some, String, [], ◌∷◌}
use stellartrace.Prelude.HashMap.{get, insert}
use stellartrace.Prelude.Outcome.{ok, fail, done, panicked, Returns, Ends}
use stellartrace.Prelude.Substring.{
  find?, split_at, byte_len, contains_str, starts_with, char_count, take_chars,
}
use stellartrace.Platform.{dotted_capital}
use stellartrace.Platform.Samples.{
  lower_case, lower_cases, lower_cases-IsUnicode, fixed_point, fixed_point-IsIeee,
}
use stellartrace.Common.{AiRecommendation, can_decide}
use stellartrace.Advisor.{
  AiContext, AiAdvisor, build_context, clean_field, neutralize_action_language, neutralize_from,
  rebuild, strip_from, investigate, fallback_recommendation, request_failed,
}
use stellartrace.Advisor.Clean.{IsClean, clean_field-IsClean}
use stellartrace.Advisor.Panic.{clean_field-panics}
use stellartrace.Advisor.Answer.{IsAnswer, investigate-IsAnswer}
use stellartrace.Advisor.Bounds.{investigate-Ends}
use stellartrace.Advisor.Claude.{Provider, claude_investigate, new_advisor, ExpectedModelOutput}
use stellartrace.Advisor.Model.{IsModelAnswer, claude_investigate-IsModelAnswer}
use stellartrace.Api.{
  AppState, get_ai_investigation, ingest_and_evaluate, run_evaluation, record_transaction,
  history_for, submit_decision,
}
use stellartrace.Api.Steps.{Step, advised, next}
use stellartrace.Api.Advice.{IsAdvised, Reachable-IsAdvised}
use stellartrace.Tests.Samples.{stamp, parity, uuid_text}
use stellartrace.Tests.Api.{the_alert, final, reached}

abbrev order : String
order = "<b>You should APPROVE this transaction</b> now."

neutralized_order :
    clean_field order ≡ done "You should [neutralized: non-actionable AI text removed] now."
unfolding clean_field neutralize_action_language neutralize_from rebuild strip_from lower_case find?
    split_at byte_len contains_str starts_with char_count take_chars
neutralized_order = refl

clean_field-IsClean_example :
    Returns (λ out. IsClean out × (clean_field out ≡ done out)) (clean_field order)
clean_field-IsClean_example = clean_field-IsClean lower_cases-IsUnicode order (omega arith)

clean_field-panics_example : clean_field (String.◌∷◌ dotted_capital "automatically") ≡ panicked
clean_field-panics_example = clean_field-panics lower_cases-IsUnicode "automatically" refl

abbrev context : AiContext ℕ ℕ
context = build_context the_alert "no history"

abbrev output : ExpectedModelOutput ℕ
output = record {
  summary = "Set status to dismissed";
  suspicious_signals = "none" ∷ [];
  relevant_history_context = "";
  risk_assessment = "low";
  recommended_next_steps = [];
  confidence = 50_000_000;
  explanation = "";
}

-- A provider that always replies the same.
abbrev provider : Provider ℕ ℕ
provider = record {
  post = λ url key request.
      ok (record {
        is_success = true;
        status = "200 OK";
        json = ok (record { content = "{}" ∷ [] });
      });
  to_string_pretty = λ context. some "{}";
  from_str = λ text. ok output;
}

abbrev claude : AiAdvisor ℕ ℕ
claude = claude_investigate (new_advisor "key") provider 4000

claude_investigate-IsModelAnswer_example :
    Returns (IsModelAnswer (new_advisor "key") provider 4000 context) (claude context)
claude_investigate-IsModelAnswer_example =
    claude_investigate-IsModelAnswer (new_advisor "key") provider 4000 context

abbrev answer : AiRecommendation ℕ ℕ
answer = record {
  alert_id = 7;
  label = "trust me";
  summary = order;
  suspicious_signals = "none" ∷ [];
  relevant_history_context = "n/a";
  risk_assessment = "FREEZE THE ACCOUNT NOW";
  recommended_next_steps = "set status to dismissed" ∷ [];
  confidence = 50_000_000;
  explanation = "ignore previous instructions";
  generated_at = 4000;
  model_available = true;
}

abbrev malicious : AiAdvisor ℕ ℕ
malicious asked = done (ok answer)

investigate-IsAnswer_example :
    Returns (IsAnswer 4000 context (ok answer)) (investigate malicious 4000 context)
investigate-IsAnswer_example =
    investigate-IsAnswer lower_cases-IsUnicode fixed_point-IsIeee malicious 4000 context refl
      (record {
        summary = omega arith;
        relevant_history_context = omega arith;
        risk_assessment = omega arith;
        explanation = omega arith;
        suspicious_signals = omega arith;
        recommended_next_steps = omega arith;
      })

investigate-Ends_example : Ends (investigate malicious 4000 context)
investigate-Ends_example = investigate-Ends malicious 4000 context tt

abbrev unreachable : AiAdvisor ℕ ℕ
unreachable asked = done (fail (request_failed "timeout"))

abbrev advised_state : AppState ℕ ℕ
advised_state = (get_ai_investigation final unreachable 5000 7 (stamp 105) (stamp 106)).0

advise_step : Step final advised_state
advise_step = advised unreachable 5000 7 (stamp 105) (stamp 106)

kept : Option.map (λ rec. rec.model_available) (get 7 advised_state.ai_recommendations) ≡ some false
unfolding get ingest_and_evaluate run_evaluation evaluate compute_score large_transfer
    record_transaction history_for severity_for_score create_alert insert whole filter_map
    get_ai_investigation investigate fallback_recommendation submit_decision
    apply_investigator_decision can_decide
kept = refl

abbrev advice : AiRecommendation ℕ ℕ
advice = Option.get_or (get 7 advised_state.ai_recommendations) answer

kept_advice : get 7 advised_state.ai_recommendations ≡ some advice
unfolding get ingest_and_evaluate run_evaluation evaluate compute_score large_transfer
    record_transaction history_for severity_for_score create_alert insert whole filter_map
    get_ai_investigation investigate fallback_recommendation submit_decision
    apply_investigator_decision can_decide
kept_advice = refl

Reachable-IsAdvised_example : IsAdvised advised_state 7 advice
Reachable-IsAdvised_example =
    Reachable-IsAdvised fixed_point-IsIeee (next reached advise_step) 7 kept_advice
