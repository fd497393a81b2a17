-- ===== src/Alerts/Faithful.antt =====
-- What the operations of `AlertManager` in crates/alerts/src/lib.rs keep: the log tells the status of
-- each alert.
use stellartrace.Prelude.{
  map, ◌≡◌, refl, sym, ap, ◌∙◌, Bool, Option, none, some, String, List, nat_eq, string_eq, ◌==◌,
}
use stellartrace.Prelude.HashMap.{get-nil, get, get-insert}
use stellartrace.Platform.{Uuid}
use stellartrace.Common.{
  debug_severity, Alert, NormalizedTransaction, TriggeredRule, Severity, debug_status,
  InvestigatorDecision, status_eq,
}
use stellartrace.Audit.{
  Hashing, append, for_alert, alert_created, rules_triggered, ai_context_sent,
  ai_recommendation_received, investigator_decision, status_changed,
}
use stellartrace.Alerts.Manager.{
  new_manager, with_status, alert_of, decide_on, AlertManager, Stamp, create_alert,
  apply_investigator_decision, get_alert, validate_transition,
}
use stellartrace.Alerts.Trail.{
  absent, at, opening, changing, remarking, after, replay, trail, told, IsFaithful, told-if,
  remark-if, remark_one-if, changing_self, trail-append, trail-append₂,
}

module _ {F T : Type 0} ⦃h : Hashing F T⦄ where
  -- Creating an alert under an identifier that is not in use keeps the log faithful.
  pub create_alert-IsFaithful :
      (m : AlertManager F T) (tx : NormalizedTransaction T) (triggered_rules : List TriggeredRule)
      (score : F) (severity : Severity) (now : T) (alert_id : Uuid) (first second : Stamp T)
      → IsFaithful m
      → get_alert m alert_id ≡ none
      → IsFaithful (create_alert m tx triggered_rules score severity now alert_id first second).0
  unfolding create_alert after debug_status
  create_alert-IsFaithful m tx triggered_rules score severity now alert_id first second faithful
        fresh j =
      let a = alert_of tx triggered_rules score severity now alert_id in
      trail-append₂ m.audit first.record_id second.record_id first.timestamp second.timestamp
        alert_id tx.tx_hash tx.tx_hash (alert_created score (debug_severity severity))
        (rules_triggered (map (λ r. r.rule_id) triggered_rules)) j
      ∙ told-if (alert_id == j) (get_alert m j) a
          (λ same.
            let t : trail m.audit j ≡ absent =
              faithful j
              ∙ ap told (ap (get_alert m) (sym ((nat_eq.test_iff alert_id j).0 same)) ∙ fresh) in
            ap (λ t. remarking (opening t)) t)
          (faithful j)
      ∙ sym (ap told (get-insert alert_id j a m.alerts))

  -- A decision keeps the log faithful, whether or not its alert exists.
  pub decision-IsFaithful :
      (m : AlertManager F T) (decision : InvestigatorDecision T) (now : T) (first second : Stamp T)
      → IsFaithful m
      → IsFaithful (apply_investigator_decision m decision now first second).0
  unfolding apply_investigator_decision validate_transition after
  decision-IsFaithful m decision now first second faithful j =
      decided (get decision.alert_id m.alerts) refl
    where
      decided :
          (found : Option (Alert F T))
          → get decision.alert_id m.alerts ≡ found
          → trail (decide_on m decision now first second found).0.audit j
            ≡ told (get_alert (decide_on m decision now first second found).0 j)
      decided none e = faithful j
      decided (some a) e =
          let updated = with_status a decision.decision now in
          trail-append₂ m.audit first.record_id second.record_id first.timestamp second.timestamp
            decision.alert_id a.tx_hash a.tx_hash
            (investigator_decision decision.investigator_id (debug_status decision.decision)
              decision.notes)
            (status_changed (debug_status a.status) (debug_status decision.decision)) j
          ∙ told-if (decision.alert_id == j) (get_alert m j) updated
              (λ same.
                let t : trail m.audit j ≡ at (debug_status a.status) =
                  faithful j
                  ∙ ap told
                      (ap (get_alert m) (sym ((nat_eq.test_iff decision.alert_id j).0 same)) ∙ e) in
                ap
                  (λ t.
                    changing (remarking t) (debug_status a.status) (debug_status decision.decision))
                  t
                ∙ changing_self (debug_status a.status) (debug_status decision.decision))
              (faithful j)
          ∙ sym (ap told (get-insert decision.alert_id j updated m.alerts))

  -- So does the record that the context of an alert that exists was sent.
  pub context-IsFaithful :
      (m : AlertManager F T) (alert_id : Uuid) (a : Alert F T) (summary : String) (first : Stamp T)
      → IsFaithful m
      → get_alert m alert_id ≡ some a
      → IsFaithful (record {
        alerts = m.alerts;
        audit =
            append m.audit first.record_id first.timestamp alert_id a.tx_hash
              (ai_context_sent summary);
      })
  unfolding after
  context-IsFaithful m alert_id a summary first faithful found = λ j.
      trail-append m.audit first.record_id first.timestamp alert_id a.tx_hash
        (ai_context_sent summary) j
      ∙ remark_one-if (alert_id == j) (get_alert m j) a (faithful j)
          (λ same. ap (get_alert m) (sym ((nat_eq.test_iff alert_id j).0 same)) ∙ found)

  -- So do remarks of the advice on an alert that exists.
  pub advice-IsFaithful :
      (m : AlertManager F T) (alert_id : Uuid) (a : Alert F T) (summary : String) (confidence : F)
      (available : Bool) (first second : Stamp T)
      → IsFaithful m
      → get_alert m alert_id ≡ some a
      → IsFaithful (record {
        alerts = m.alerts;
        audit =
            append
              (append m.audit first.record_id first.timestamp alert_id a.tx_hash
                (ai_context_sent summary))
              second.record_id
              second.timestamp
              alert_id
              a.tx_hash
              (ai_recommendation_received confidence available);
      })
  unfolding after
  advice-IsFaithful m alert_id a summary confidence available first second faithful found = λ j.
      trail-append₂ m.audit first.record_id second.record_id first.timestamp second.timestamp
        alert_id a.tx_hash a.tx_hash (ai_context_sent summary)
        (ai_recommendation_received confidence available) j
      ∙ remark-if (alert_id == j) (get_alert m j) a (faithful j)
          (λ same. ap (get_alert m) (sym ((nat_eq.test_iff alert_id j).0 same)) ∙ found)

-- The empty log is faithful to the empty store.
pub new_manager-IsFaithful : (F T : Type 0) → IsFaithful {F = F} {T = T} new_manager
unfolding replay for_alert
new_manager-IsFaithful F T = λ j. ap told (sym (get-nil {V = Alert F T} j))
