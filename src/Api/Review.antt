-- ===== src/Api/Review.antt =====
-- The handlers of crates/api/src/handlers.rs on alerts, advice, decisions and the audit log. They take
-- their draws and the advisor as arguments.
use stellartrace.Prelude.{
  Bool, true, false, not, Option, none, some, String, List, [], ◌∷◌, string_eq, nat_eq, ◌==◌,
  length, insert_item, if◌then◌else◌,
}
use stellartrace.Prelude.Outcome.{Result, ok, fail, Run, done, panicked, unfinished}
use stellartrace.Prelude.Text.{format, show}
use stellartrace.Platform.{Chrono, Uuid, Float, Unicode}
use stellartrace.Common.{
  Alert, AiRecommendation, InvestigationStatus, opened, under_investigation, escalated, dismissed,
  confirmed_suspicious, status_eq, InvestigatorDecision, can_decide,
}
use stellartrace.Audit.{
  AuditRecord, Hashing, append, for_alert, verify_integrity, Verdict, intact, err, IntegrityError,
  chain_broken, hash_mismatch, ai_context_sent, ai_recommendation_received,
}
use stellartrace.Alerts.{
  AlertManager, AlertError, Stamp, list, list_by_status, get_alert as alert_in,
  apply_investigator_decision,
}
use stellartrace.Advisor.{AiContext, build_context, AiAdvisor, investigate}
use stellartrace.Api.Metrics.{record_ai_recommendation, record_investigator_decision}
use stellartrace.Api.Auth.{AuthUser}
use stellartrace.Api.Error.{
  ApiError, UuidText, bad_request, forbidden, alert_missing, from_alert_error,
}
use stellartrace.Api.State.{
  AppState, with_manager, with_metrics, with_flagged, with_recommendation, history_for,
}
use stellartrace.Api.Evaluation.{found_or}

pub record DecisionRequest : Type 0 where
  pub decision : InvestigationStatus
  pub notes : String

pub record IntegrityResponse : Type 0 where
  pub intact : Bool
  pub detail : Option String

abbrev pub listed : {A : Type 0} → (InvestigationStatus → A) → A → Option String → Result A ApiError
listed by_status all none = ok all
listed by_status all (some name) =
    if name == "open"
    then ok (by_status opened)
    else if name == "under_investigation"
    then ok (by_status under_investigation)
    else if name == "escalated"
    then ok (by_status escalated)
    else if name == "dismissed"
    then ok (by_status dismissed)
    else if name == "confirmed_suspicious"
    then ok (by_status confirmed_suspicious)
    else fail (bad_request (format ("unknown status filter: " ∷ name ∷ [])))

module _ {F T : Type 0} ⦃chrono : Chrono T⦄ where
  unfoldable pub list_alerts : AppState F T → Option String → Result (List (Alert F T)) ApiError
  list_alerts s status = listed (list_by_status s.manager) (list s.manager) status

module _ {F T : Type 0} ⦃text : UuidText⦄ where
  unfoldable pub get_alert : AppState F T → Uuid → Result (Alert F T) ApiError
  get_alert s alert_id = found_or (alert_in s.manager alert_id) (alert_missing alert_id)

-- `if let Some(dest) = &updated.destination_account { flagged.insert(..) }`
abbrev pub flag_destination : Option String → List String → List String
flag_destination none flagged = flagged
flag_destination (some dest) flagged = insert_item dest flagged

-- the accounts flagged after a decision that has led to `updated`
abbrev pub flagged_by : {F T : Type 0} → Alert F T → List String → List String
flagged_by updated flagged =
    if updated.status == confirmed_suspicious
    then flag_destination updated.destination_account (insert_item updated.source_account flagged)
    else flagged

abbrev pub decision_of :
    {T : Type 0} → AuthUser → Uuid → DecisionRequest → T → InvestigatorDecision T
decision_of auth alert_id req decided_at = record {
  alert_id = alert_id;
  investigator_id = auth.investigator_id;
  decision = req.decision;
  notes = req.notes;
  decided_at = decided_at;
}

module _ {F T : Type 0} ⦃hashing : Hashing F T⦄ ⦃text : UuidText⦄ where
  -- the summary of the history that is sent in its place
  abbrev pub history_summary : AppState F T → Alert F T → String
  history_summary s alert = format (
      show (length (history_for s alert.source_account))
      ∷ " prior transactions on record for source account "
      ∷ alert.source_account
      ∷ " (not shown in full; aggregated only)."
      ∷ [])

  -- the state after the record that the context was sent
  abbrev pub context_sent : AppState F T → Uuid → Alert F T → AiContext F T → Stamp T → AppState F T
  context_sent s alert_id alert context first = with_manager s (record {
    alerts = s.manager.alerts;
    audit = append s.manager.audit first.record_id first.timestamp alert_id alert.tx_hash (
        ai_context_sent (
          format
            (show (length context.triggered_rule_reasons) ∷ " triggered rule reasons sent" ∷ [])));
  })

  -- the state after a recommendation has come
  abbrev pub recommended :
      AppState F T → Uuid → Alert F T → AiRecommendation F T → Stamp T → AppState F T
  recommended s alert_id alert recommendation second =
      let counted =
        with_metrics s (record_ai_recommendation s.metrics recommendation.model_available) in
      let manager : AlertManager F T = record {
        alerts = counted.manager.alerts;
        audit =
            append counted.manager.audit second.record_id second.timestamp alert_id alert.tx_hash
              (ai_recommendation_received recommendation.confidence recommendation.model_available);
      } in
      with_recommendation (with_manager counted manager) alert_id recommendation

  -- the rest of `get_ai_investigation` by what the advisor does; a panic ends it
  abbrev pub advised_by :
      AppState F T
      → Uuid
      → Alert F T
      → Stamp T
      → Run (AiRecommendation F T)
      → AppState F T × Run (Result (AiRecommendation F T) ApiError)
  advised_by s alert_id alert second panicked = (s, panicked)
  advised_by s alert_id alert second unfinished = (s, unfinished)
  advised_by s alert_id alert second (done recommendation) =
      (recommended s alert_id alert recommendation second, done (ok recommendation))

  module _ ⦃f64 : Float F⦄ ⦃unicode : Unicode⦄ where
    -- the rest of `get_ai_investigation`, of an alert that exists
    abbrev pub investigated :
        AppState F T
        → AiAdvisor F T
        → T
        → Uuid
        → Alert F T
        → Stamp T
        → Stamp T
        → AppState F T × Run (Result (AiRecommendation F T) ApiError)
    investigated s primary now alert_id alert first second =
        let context = build_context alert (history_summary s alert) in
        advised_by (context_sent s alert_id alert context first) alert_id alert second
          (investigate primary now context)

    abbrev pub investigated_if :
        AppState F T
        → AiAdvisor F T
        → T
        → Uuid
        → Option (Alert F T)
        → Stamp T
        → Stamp T
        → AppState F T × Run (Result (AiRecommendation F T) ApiError)
    investigated_if s primary now alert_id none first second =
        (s, done (fail (alert_missing alert_id)))
    investigated_if s primary now alert_id (some alert) first second =
        investigated s primary now alert_id alert first second

    -- The advisor of the state stands as the argument `primary`, which answers at the instant `now`.
    unfoldable pub get_ai_investigation :
        AppState F T
        → AiAdvisor F T
        → T
        → Uuid
        → Stamp T
        → Stamp T
        → AppState F T × Run (Result (AiRecommendation F T) ApiError)
    get_ai_investigation s primary now alert_id first second =
        investigated_if s primary now alert_id (alert_in s.manager alert_id) first second

  -- the rest of `submit_decision`, of the result of `apply_investigator_decision`
  abbrev pub settled :
      AppState F T
      → AlertManager F T × Result (Alert F T) AlertError
      → AppState F T × Result (Alert F T) ApiError
  settled s (manager, fail e) = (with_manager s manager, fail (from_alert_error e))
  settled s (manager, ok updated) =
      let decided = with_manager s manager in
      let counted = with_metrics decided (record_investigator_decision decided.metrics) in
      (with_flagged counted (flagged_by updated counted.flagged_accounts), ok updated)

  unfoldable pub submit_decision :
      AppState F T
      → AuthUser
      → Uuid
      → DecisionRequest
      → T
      → T
      → Stamp T
      → Stamp T
      → AppState F T × Result (Alert F T) ApiError
  submit_decision s auth alert_id req decided_at now first second =
      if not (can_decide auth.role)
      then (
        s,
        fail (forbidden "only an authorized investigator or admin may submit a final decision"),
      )
      else settled s (
          apply_investigator_decision s.manager (decision_of auth alert_id req decided_at) now first
            second)

module _ {F T : Type 0} where
  abbrev pub get_alert_audit : AppState F T → Uuid → List (AuditRecord F T)
  get_alert_audit s alert_id = for_alert s.manager.audit alert_id

-- `impl Display for IntegrityError`
abbrev pub display_integrity_error : IntegrityError → String
display_integrity_error (chain_broken index) =
    format ("audit chain broken at record index " ∷ show index ∷ [])
display_integrity_error (hash_mismatch index) =
    format ("audit record hash mismatch at index " ∷ show index ∷ [])

abbrev pub integrity_response : Verdict → IntegrityResponse
integrity_response intact = record { intact = true; detail = none }
integrity_response (err e) = record { intact = false; detail = some (display_integrity_error e) }

abbrev pub verify_audit_integrity :
    {F T : Type 0} ⦃hashing : Hashing F T⦄ → AppState F T → IntegrityResponse
verify_audit_integrity s = integrity_response (verify_integrity s.manager.audit)
