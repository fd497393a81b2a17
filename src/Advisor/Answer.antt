-- ===== src/Advisor/Answer.antt =====
-- What an investigator is given by `AdvisorService::investigate` of crates/ai_advisor/src/lib.rs.
use stellartrace.Prelude.{◌≡◌, refl, false}
use stellartrace.Prelude.Outcome.{Result, ok, fail, done, Returns}
use stellartrace.Platform.{Float, Unicode, IsIeee, IsUnicode}
use stellartrace.Common.{AiRecommendation, ai_advisory_label}
use stellartrace.Advisor.Context.{AiContext}
use stellartrace.Advisor.Service.{
  AiAdvisor, AiAdvisorError, fallback_recommendation, answered, investigate,
}
use stellartrace.Advisor.Advice.{IsAsciiAdvice, IsSanitized, sanitize_recommendation-IsSanitized}

module _ {F T : Type 0} ⦃f64 : Float F⦄ where
  -- A recommendation that no model has made: it says so, and repeats the reasons of the rules.
  pub record IsFallback (now : T) (context : AiContext F T) (out : AiRecommendation F T)
      : Type 0 where
    pub alert : out.alert_id ≡ context.alert_id
    pub label : out.label ≡ ai_advisory_label
    pub unavailable : out.model_available ≡ false
    pub no_confidence : out.confidence ≡ f64.of_nat 0
    pub reasons : out.suspicious_signals ≡ context.triggered_rule_reasons
    pub generated : out.generated_at ≡ now

  -- Each text of a recommendation is ASCII, and an error has none.
  abbrev pub IsAsciiAnswer : Result (AiRecommendation F T) AiAdvisorError → Type 0
  IsAsciiAnswer (ok rec) = IsAsciiAdvice rec
  IsAsciiAnswer (fail e) = Unit {0}

  module _ ⦃unicode : Unicode⦄ where
    -- An answer is sanitized, and an error is replaced by the fallback.
    abbrev pub IsAnswer :
        T
        → AiContext F T
        → Result (AiRecommendation F T) AiAdvisorError
        → AiRecommendation F T
        → Type 0
    IsAnswer now context (ok rec) out = IsSanitized rec out
    IsAnswer now context (fail e) out = IsFallback now context out

    answered-IsAnswer :
        IsUnicode
        → IsIeee F
        → (now : T) (context : AiContext F T)
          (answer : Result (AiRecommendation F T) AiAdvisorError)
        → IsAsciiAnswer answer
        → Returns (IsAnswer now context answer) (answered now context answer)
    unfolding fallback_recommendation
    answered-IsAnswer unicode_laws laws now context (ok rec) ascii =
        sanitize_recommendation-IsSanitized unicode_laws laws rec ascii
    answered-IsAnswer unicode_laws laws now context (fail e) ascii = record {
      alert = refl;
      label = refl;
      unavailable = refl;
      no_confidence = refl;
      reasons = refl;
      generated = refl;
    }

    -- If the primary advisor answers, in ASCII, the service returns a recommendation. On an answer it is
    -- for the same alert, at the same instant and of the same availability, labelled as advice; its
    -- summary, history, assessment and explanation are those of the answer, each cleaned; its signals
    -- and its steps are the first 20 of the answer's, each cleaned, in their order; its confidence is
    -- the answer's, clamped to 0 and 1, and 0 for no finite number. On an error it is a fallback with
    -- no confidence that says that no model was available and repeats the reasons of the rules as they
    -- are. It is assumed that the floats are IEEE 754, and the lower case that of Unicode.
    pub investigate-IsAnswer :
        IsUnicode
        → IsIeee F
        → (primary : AiAdvisor F T) (now : T) (context : AiContext F T)
          {answer : Result (AiRecommendation F T) AiAdvisorError}
        → primary context ≡ done answer
        → IsAsciiAnswer answer
        → Returns (IsAnswer now context answer) (investigate primary now context)
    unfolding investigate
    investigate-IsAnswer unicode_laws laws primary now context {answer} e ascii =
        rw e (answered-IsAnswer unicode_laws laws now context answer ascii)
