-- ===== src/Tests/Requests.antt =====
-- The theorems on the router at concrete requests.
use mathlib.Core.List.{filter_map}
use stellartrace.Rules.{evaluate, large_transfer}
use stellartrace.Scoring.{compute_score, severity_for_score}
use stellartrace.Alerts.{apply_investigator_decision, create_alert, get_alert as alert_in}
use stellartrace.Platform.Samples.{whole, fixed_point, milliseconds, lower_cases}
use stellartrace.Prelude.{
  nat_eq, string_eq, ℕ, ◌≡◌, refl, some, none, List, [], ◌∷◌, ◌==◌, if◌then◌else◌,
}
use stellartrace.Prelude.HashMap.{get, insert}
use stellartrace.Prelude.Outcome.{done, fail}
use stellartrace.Common.{can_decide}
use stellartrace.Advisor.{AiAdvisor, request_failed}
use stellartrace.Api.{
  ingest_and_evaluate, run_evaluation, record_transaction, history_for, submit_decision,
  from_request_parts, strip_prefix,
}
use stellartrace.Api.Router.{UuidParse, Request, Chance, post, serve, matched}
use stellartrace.Api.Lifecycle.{Life, status_in, serve_all-Life}
use stellartrace.Api.Kept.{IsKept, serve-IsKept}
use stellartrace.Api.Requests.{AreFresh, serve_all}
use stellartrace.Tests.Samples.{stamp, parity, uuid_text, payment, confirm, empty}
use stellartrace.Tests.Api.{stored, the_alert, ingested}

instance abbrev pub seven : UuidParse
seven = record { parse_uuid = λ s. if s == "seven" then some 7 else none }

abbrev pub submission : Request ℕ
submission = record {
  method = post;
  segments = "api" ∷ "transactions" ∷ [];
  status = none;
  authorization = none;
  transaction_body = some payment;
  decision_body = none;
}

abbrev judgement : Request ℕ
judgement = record {
  method = post;
  segments = "api" ∷ "alerts" ∷ "seven" ∷ "decision" ∷ [];
  status = none;
  authorization = some "Bearer secret";
  transaction_body = none;
  decision_body = some confirm;
}

abbrev pub silent : AiAdvisor ℕ ℕ
silent context = done (fail (request_failed "offline"))

abbrev pub chance_of : ℕ → Chance ℕ ℕ
chance_of id = record {
  draws = record { now = 2000; alert_id = id; first = stamp 101; second = stamp 102 };
  primary = silent;
  now = 3000;
  decided_at = 3000;
  first = stamp 103;
  second = stamp 104;
}

no_eight : alert_in ingested.0.manager 8 ≡ none
unfolding get ingest_and_evaluate run_evaluation evaluate compute_score large_transfer
    record_transaction history_for severity_for_score create_alert insert whole filter_map
no_eight = refl

serve-IsKept_example : IsKept ingested.0 judgement (chance_of 8) 7 the_alert
serve-IsKept_example = serve-IsKept ingested.0 judgement (chance_of 8) no_eight 7 stored

-- An evaluated transaction, a decision on its alert, and a path that no route has.
abbrev session : List (Request ℕ × Chance ℕ ℕ)
session =
    (submission, chance_of 7)
    ∷ (judgement, chance_of 8)
    ∷ (
      record {
        method = post;
        segments = "api" ∷ "secrets" ∷ [];
        status = none;
        authorization = none;
        transaction_body = none;
        decision_body = none;
      },
      chance_of 8,
    )
    ∷ []

session-AreFresh : AreFresh empty session
unfolding serve matched get ingest_and_evaluate run_evaluation evaluate compute_score large_transfer
    record_transaction history_for severity_for_score create_alert insert whole filter_map
    submit_decision from_request_parts strip_prefix apply_investigator_decision can_decide
session-AreFresh = (refl, (refl, (refl, tt)))

serve_all-Life_example :
    Life empty.auth 7 session (status_in empty 7) (status_in (serve_all empty session) 7)
serve_all-Life_example = serve_all-Life session empty session-AreFresh 7
