-- ===== src/Advisor/Service.antt =====
-- crates/ai_advisor/src/lib.rs: an advisor with its fallback.
use stellartrace.Prelude.{false, String, [], ◌∷◌}
use stellartrace.Prelude.Outcome.{Result, ok, fail, Run, done, ◌>>=◌}
use stellartrace.Platform.{Float, Unicode}
use stellartrace.Common.{AiRecommendation, ai_advisory_label}
use stellartrace.Advisor.Context.{AiContext}
use stellartrace.Advisor.Sanitize.{sanitize_recommendation}

pub data AiAdvisorError : Type 0 where
  request_failed : String → AiAdvisorError
  unparseable_response : String → AiAdvisorError
  not_configured : AiAdvisorError

-- `trait AiAdvisor`: what `investigate` answers, if it does not panic
abbrev pub AiAdvisor : Type 0 → Type 0 → Type 0
AiAdvisor F T = AiContext F T → Run (Result (AiRecommendation F T) AiAdvisorError)

module _ {F T : Type 0} ⦃f64 : Float F⦄ where
  -- what `FallbackAdvisor` recommends at an instant
  unfoldable pub fallback_recommendation : T → AiContext F T → AiRecommendation F T
  fallback_recommendation now context = record {
    alert_id = context.alert_id;
    label = ai_advisory_label;
    summary = "AI investigation service was unavailable; this alert was not analyzed by the model.";
    suspicious_signals = context.triggered_rule_reasons;
    relevant_history_context = "Not available — AI service unreachable.";
    risk_assessment = "Unable to assess. Manual review required.";
    recommended_next_steps =
        "Manually review triggered rules and transaction details."
        ∷ "Retry AI analysis once the service is available." ∷ [];
    confidence = f64.of_nat 0;
    explanation =
        "Fallback response generated locally because the AI provider request failed or timed out.";
    generated_at = now;
    model_available = false;
  }

  -- `FallbackAdvisor::investigate`
  abbrev pub fallback_advisor : T → AiAdvisor F T
  fallback_advisor now context = done (ok (fallback_recommendation now context))

  abbrev pub answered :
      ⦃unicode : Unicode⦄
      → T
      → AiContext F T
      → Result (AiRecommendation F T) AiAdvisorError
      → Run (AiRecommendation F T)
  answered now context (ok rec) = sanitize_recommendation rec
  answered now context (fail e) = done (fallback_recommendation now context)

  -- `AdvisorService::investigate`
  unfoldable pub investigate :
      ⦃unicode : Unicode⦄ → AiAdvisor F T → T → AiContext F T → Run (AiRecommendation F T)
  investigate primary now context = primary context >>= answered now context
