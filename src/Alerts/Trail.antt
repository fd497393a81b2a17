-- ===== src/Alerts/Trail.antt =====
-- The audit trail of crates/alerts/src/lib.rs tells the status of each alert: an abstract view of the
-- log, and what the operations of `AlertManager` keep of it.
use stellartrace.Prelude.{
  ◌≡◌, refl, sym, ap, ◌∙◌, Bool, true, false, Option, none, some, String, List, [], ◌∷◌, ◌++◌,
  nat_eq, string_eq, ◌==◌, if◌then◌else◌, filter, filter-append, beq_refl, arith,
}
use stellartrace.Platform.{Uuid}
use stellartrace.Common.{Alert, debug_status, status_eq}
use stellartrace.Audit.{
  AuditRecord, AuditEventKind, Hashing, append, next_record, for_alert, alert_created,
  rules_triggered, ai_context_sent, ai_recommendation_received, investigator_decision,
  status_changed, note,
}
use stellartrace.Alerts.Manager.{AlertManager, get_alert}

-- What a trail tells: nothing yet, a status by name, or that it contradicts itself.
pub data Trail : Type 0 where
  absent : Trail
  at : String → Trail
  corrupt : Trail

abbrev pub opening : Trail → Trail
opening absent = at "Open"
opening (at s) = corrupt
opening corrupt = corrupt

-- A change must start at the status that the trail has reached.
abbrev pub changing : Trail → String → String → Trail
changing absent from to = corrupt
changing (at s) from to = if s == from then at to else corrupt
changing corrupt from to = corrupt

-- Other events are of an alert that exists.
abbrev pub remarking : Trail → Trail
remarking absent = corrupt
remarking (at s) = at s
remarking corrupt = corrupt

module _ {F : Type 0} where
  unfoldable pub after : Trail → AuditEventKind F → Trail
  after t (alert_created score severity) = opening t
  after t (rules_triggered rule_ids) = remarking t
  after t (ai_context_sent context_summary) = remarking t
  after t (ai_recommendation_received confidence model_available) = remarking t
  after t (investigator_decision investigator_id decision notes) = remarking t
  after t (status_changed from to) = changing t from to
  after t (note message) = remarking t

module _ {F T : Type 0} where
  unfoldable pub replay : Trail → List (AuditRecord F T) → Trail
  unfolding after
  replay t [] = t
  replay t (r ∷ rs) = replay (after t r.event) rs

  -- what the log tells of one alert
  abbrev pub trail : List (AuditRecord F T) → Uuid → Trail
  trail records alert_id = replay absent (for_alert records alert_id)

  -- what it should tell, by the alert in the store
  abbrev pub told : Option (Alert F T) → Trail
  told none = absent
  told (some a) = at (debug_status a.status)

  -- The log tells of every alert the status it has, and nothing of any other.
  abbrev pub IsFaithful : AlertManager F T → Type 0
  IsFaithful m = (alert_id : Uuid) → trail m.audit alert_id ≡ told (get_alert m alert_id)

  replay-append :
      (t : Trail) (xs ys : List (AuditRecord F T)) → replay t (xs ++ ys) ≡ replay (replay t xs) ys
  unfolding replay
  replay-append t [] ys = refl
  replay-append t (x ∷ xs) ys = replay-append (after t x.event) xs ys

  replay-one :
      (t : Trail) (b : Bool) (r : AuditRecord F T)
      → replay t (if b then r ∷ [] else []) ≡ (if b then after t r.event else t)
  unfolding replay
  replay-one t true r = refl
  replay-one t false r = refl

  pub told-if :
      (b : Bool) (o : Option (Alert F T)) (a : Alert F T) {t t' : Trail}
      → (b ≡ true → t' ≡ told (some a))
      → t ≡ told o
      → (if b then t' else t) ≡ told (if b then some a else o)
  told-if true o a new old = new refl
  told-if false o a new old = old

module _ {F T : Type 0} where
  pub remark-if :
      (b : Bool) (o : Option (Alert F T)) (a : Alert F T) {t : Trail}
      → t ≡ told o
      → (b ≡ true → o ≡ some a)
      → (if b then remarking (remarking t) else t) ≡ told o
  remark-if true o a h k =
      ap (λ t. remarking (remarking t)) (h ∙ ap told (k refl)) ∙ sym (ap told (k refl))
  remark-if false o a h k = h

module _ {F T : Type 0} where
  pub remark_one-if :
      (b : Bool) (o : Option (Alert F T)) (a : Alert F T) {t : Trail}
      → t ≡ told o
      → (b ≡ true → o ≡ some a)
      → (if b then remarking t else t) ≡ told o
  remark_one-if true o a h k = ap remarking (h ∙ ap told (k refl)) ∙ sym (ap told (k refl))
  remark_one-if false o a h k = h

pub changing_self : (from to : String) → changing (at from) from to ≡ at to
changing_self from to = ground (arith, beq_refl from)

module _ {F T : Type 0} ⦃h : Hashing F T⦄ where
  -- One more record moves the trail of its alert, and no other.
  pub trail-append :
      (records : List (AuditRecord F T)) (record_id : Uuid) (now : T) (alert_id : Uuid)
      (tx_hash : String) (event : AuditEventKind F) (j : Uuid)
      → trail (append records record_id now alert_id tx_hash event) j
        ≡ (if alert_id == j then after (trail records j) event else trail records j)
  unfolding append next_record for_alert replay
  trail-append records record_id now alert_id tx_hash event j =
      let r = next_record records record_id now alert_id tx_hash event in
      ap (replay absent) (filter-append (λ r. r.alert_id == j) records (r ∷ []))
      ∙ replay-append absent (for_alert records j) (filter (λ r. r.alert_id == j) (r ∷ []))
      ∙ replay-one (trail records j) (alert_id == j) r

  -- Two more records of one alert.
  pub trail-append₂ :
      (records : List (AuditRecord F T)) (r s : Uuid) (now later : T) (alert_id : Uuid)
      (tx_hash tx_hash' : String) (first second : AuditEventKind F) (j : Uuid)
      → trail
          (append (append records r now alert_id tx_hash first) s later alert_id tx_hash' second)
          j
        ≡ (if alert_id == j then after (after (trail records j) first) second else trail records j)
  trail-append₂ records r s now later alert_id tx_hash tx_hash' first second j = ground (
    arith,
    trail-append (append records r now alert_id tx_hash first) s later alert_id tx_hash' second j,
    trail-append records r now alert_id tx_hash first j,
  )
