-- ===== src/Api/Steps.antt =====
-- The handlers of crates/api/src/handlers.rs that change the state, as one step relation.
use stellartrace.Prelude.{◌≡◌, Bool, true, Option, none, some, String, List, nat_eq, string_eq}
use stellartrace.Prelude.Outcome.{Result, ok}
use stellartrace.Platform.{Float, Uuid, Unicode}
use stellartrace.Common.{Alert, NormalizedTransaction, TriggeredRule, Severity, can_decide}
use stellartrace.Rules.{RulesEngine, RulesConfig}
use stellartrace.Audit.{Hashing, append, ai_context_sent, ai_recommendation_received}
use stellartrace.Alerts.{
  AlertManager, Stamp, create_alert, get_alert as alert_in, apply_investigator_decision,
}
use stellartrace.Advisor.{AiAdvisor}
use stellartrace.Api.Auth.{AuthRegistry, AuthUser, from_request_parts}
use stellartrace.Api.Error.{UuidText, ApiError}
use stellartrace.Api.State.{AppState, initial}
use stellartrace.Api.Evaluation.{
  Draws, EvaluationResult, ingest_transaction, ingest_and_evaluate, evaluate_transaction,
}
use stellartrace.Api.Review.{
  DecisionRequest, get_ai_investigation, submit_decision, settled, decision_of,
}

module _ {F T : Type 0} ⦃hashing : Hashing F T⦄ ⦃text : UuidText⦄ where
  -- What a step without a decision does to the alert manager.
  pub data Effect (m : AlertManager F T) : AlertManager F T → Type 0 where
    same : Effect m m
    created :
        (tx : NormalizedTransaction T) (rules : List TriggeredRule) (score : F)
        (severity : Severity) (draws : Draws T)
        → alert_in m draws.alert_id ≡ none
        → Effect m
            (create_alert m tx rules score severity draws.now draws.alert_id draws.first
              draws.second).0
    told :
        (alert_id : Uuid) (a : Alert F T) (summary : String) (first : Stamp T)
        → alert_in m alert_id ≡ some a
        → Effect m (record {
          alerts = m.alerts;
          audit =
              append m.audit first.record_id first.timestamp alert_id a.tx_hash
                (ai_context_sent summary);
        })
    remarked :
        (alert_id : Uuid) (a : Alert F T) (summary : String) (confidence : F)
        (model_available : Bool) (first second : Stamp T)
        → alert_in m alert_id ≡ some a
        → Effect m (record {
          alerts = m.alerts;
          audit =
              append
                (append m.audit first.record_id first.timestamp alert_id a.tx_hash
                  (ai_context_sent summary))
                second.record_id
                second.timestamp
                alert_id
                a.tx_hash
                (ai_recommendation_received confidence model_available);
        })

  -- A step by a decision of a user who may decide.
  pub record Decided (s s' : AppState F T) : Type 0 where
    pub header : Option String
    pub user : AuthUser
    pub alert_id : Uuid
    pub req : DecisionRequest
    pub decided_at : T
    pub now : T
    pub first : Stamp T
    pub second : Stamp T
    pub known : from_request_parts s.auth header ≡ ok user
    pub allowed : can_decide user.role ≡ true
    pub result :
        s'
        ≡ (settled s (
            apply_investigator_decision s.manager
              (decision_of user alert_id req decided_at)
              now
              first
              second)).0

module _ {F T : Type 0} ⦃f64 : Float F⦄ ⦃hashing : Hashing F T⦄ ⦃text : UuidText⦄
    ⦃unicode : Unicode⦄ where
  -- A handled request. An alert is created under an identifier that no alert has, as `Uuid::new_v4`
  -- draws it; whoever decides has passed the extractor with some header.
  pub data Step (s : AppState F T) : AppState F T → Type 0 where
    ingested : (tx : NormalizedTransaction T) → Step s (ingest_transaction s tx).0
    ingest_evaluated :
        (tx : NormalizedTransaction T) (draws : Draws T) {s' : AppState F T}
        {result : EvaluationResult F T}
        → alert_in s.manager draws.alert_id ≡ none
        → ingest_and_evaluate s tx draws ≡ some (s', result)
        → Step s s'
    stored_evaluated :
        (tx_hash : String) (draws : Draws T) {s' : AppState F T}
        {result : Result (EvaluationResult F T) ApiError}
        → alert_in s.manager draws.alert_id ≡ none
        → evaluate_transaction s tx_hash draws ≡ some (s', result)
        → Step s s'
    advised :
        (primary : AiAdvisor F T) (answered_at : T) (alert_id : Uuid) (first second : Stamp T)
        → Step s (get_ai_investigation s primary answered_at alert_id first second).0
    decided :
        (header : Option String) (user : AuthUser) (alert_id : Uuid) (req : DecisionRequest)
        (decided_at now : T) (first second : Stamp T)
        → from_request_parts s.auth header ≡ ok user
        → Step s (submit_decision s user alert_id req decided_at now first second).0

  -- the states of the application that starts with no snapshot
  pub data Reachable : AppState F T → Type 0 where
    start :
        (rules_engine : RulesEngine F T) (rules_config : RulesConfig F) (auth : AuthRegistry)
        → Reachable (initial rules_engine rules_config auth)
    next : {s s' : AppState F T} → Reachable s → Step s s' → Reachable s'
