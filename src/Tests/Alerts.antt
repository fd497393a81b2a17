-- ===== src/Tests/Alerts.antt =====
-- The theorems on the alert manager at concrete inputs.
use stellartrace.Prelude.{refl, ◌≢◌, some, ◌≡◌, [], ◌∷◌, ℕ}
use stellartrace.Prelude.HashMap.{get, insert}
use stellartrace.Common.{dismissed, Alert, high, escalated, opened, InvestigatorDecision}
use stellartrace.Platform.Samples.{milliseconds}
use stellartrace.Alerts.{
  with_status, AlertManager, create_alert, new_manager, alert_of, get_alert,
  apply_investigator_decision,
}
use stellartrace.Alerts.Decisions.{apply_investigator_decision-IsDecided, IsDecided}
use stellartrace.Alerts.Interleaved.{trail-interleaved, store_decision, log_decision}
use stellartrace.Alerts.Trail.{IsFaithful, trail, corrupt}
use stellartrace.Alerts.Faithful.{create_alert-IsFaithful, new_manager-IsFaithful}
use stellartrace.Tests.Samples.{parity, payment, stamp, a_trigger}

abbrev manager : AlertManager ℕ ℕ
manager =
    (create_alert
      (create_alert new_manager payment (a_trigger ∷ []) 10 high 5 7 (stamp 1) (stamp 2)).0 payment
      (a_trigger ∷ []) 10 high 6 8 (stamp 3) (stamp 4)).0

abbrev decision : InvestigatorDecision ℕ
decision = record {
  alert_id = 7;
  investigator_id = "ann";
  decision = escalated;
  notes = "";
  decided_at = 9;
}

apply_investigator_decision-IsDecided_example :
    IsDecided manager decision 9
      (get_alert manager 7)
      (apply_investigator_decision manager decision 9 (stamp 5) (stamp 6))
apply_investigator_decision-IsDecided_example =
    apply_investigator_decision-IsDecided manager decision 9 (stamp 5) (stamp 6)

abbrev first_alert : Alert ℕ ℕ
first_alert = alert_of payment (a_trigger ∷ []) 10 high 5 7

first_manager-IsFaithful :
    IsFaithful
      (create_alert
        (new_manager {F = ℕ} {T = ℕ})
        payment
        (a_trigger ∷ [])
        10
        high
        5
        7
        (stamp 1)
        (stamp 2)).0
unfolding get
first_manager-IsFaithful =
    create_alert-IsFaithful new_manager payment (a_trigger ∷ []) 10 high 5 7 (stamp 1) (stamp 2)
      (new_manager-IsFaithful ℕ ℕ) refl

manager-IsFaithful : IsFaithful manager
unfolding create_alert get insert
manager-IsFaithful =
    create_alert-IsFaithful
      (create_alert new_manager payment (a_trigger ∷ []) 10 high 5 7 (stamp 1) (stamp 2)).0 payment
      (a_trigger ∷ []) 10 high 6 8 (stamp 3) (stamp 4) first_manager-IsFaithful refl

manager-get : get_alert manager 7 ≡ some first_alert
unfolding create_alert get insert
manager-get = refl

abbrev dismissal : InvestigatorDecision ℕ
dismissal = record decision { investigator_id = "bob"; decision = dismissed }

abbrev raced : AlertManager ℕ ℕ
raced =
    store_decision (store_decision manager decision first_alert 9) dismissal
      (with_status first_alert escalated 9) 10

abbrev raced_log : AlertManager ℕ ℕ
raced_log =
    log_decision (log_decision raced dismissal escalated "h1" (stamp 5) (stamp 6)) decision opened
      "h1" (stamp 7) (stamp 8)

trail-interleaved_example :
    (get_alert raced_log 7 ≡ some (with_status (with_status first_alert escalated 9) dismissed 10))
    × (trail raced_log.audit 7 ≡ corrupt)
trail-interleaved_example =
    trail-interleaved manager decision dismissal first_alert 9 10 (stamp 5) (stamp 6) (stamp 7)
      (stamp 8) manager-IsFaithful manager-get refl escalated_opened
  where
    escalated_opened : escalated ≢ opened
    escalated_opened e = cc
