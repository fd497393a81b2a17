-- ===== src/Api/Flags.antt =====
-- The accounts that `submit_decision` of crates/api/src/handlers.rs flags.
use mathlib.Core.Option
use stellartrace.Prelude.{
  ◌≡◌, refl, sym, ap, subst, ◌∙◌, inl, inr, true, false, Bool, Option, none, some, String, List,
  nat_eq, string_eq, ◌==◌, contains, insert_item, contains-insert_item, beq_refl, if◌then◌else◌,
  if-true, if-false, Bool-cases, arith,
}
use stellartrace.Prelude.HashMap.{get, get-nil, get-insert}
use stellartrace.Platform.{Unicode, Float, Uuid}
use stellartrace.Common.{Alert, opened, confirmed_suspicious, status_eq, InvestigatorDecision}
use stellartrace.Audit.{Hashing}
use stellartrace.Alerts.{
  AlertManager, Stamp, get_alert as alert_in, with_status, apply_investigator_decision,
  validate_transition, decide_on, create_alert,
}
use stellartrace.Api.Error.{UuidText}
use stellartrace.Api.State.{AppState}
use stellartrace.Api.Review.{settled, flagged_by, flag_destination, decision_of}
use stellartrace.Api.Steps.{Step, Reachable, start, next, Effect, same, told, created, remarked}
use stellartrace.Api.Cases.{step-cases}

abbrev IsWithin : List String → List String → Type 0
IsWithin xs ys = (x : String) → contains xs x ≡ true → contains ys x ≡ true

insert_item-IsWithin : (a : String) (xs : List String) → IsWithin xs (insert_item a xs)
insert_item-IsWithin a xs x h = ground (arith, contains-insert_item a x xs)

contains-insert_item_self : (a : String) (xs : List String) → contains (insert_item a xs) a ≡ true
contains-insert_item_self a xs = ground (arith, contains-insert_item a a xs, beq_refl a)

flag_destination-IsWithin :
    (dest : Option String) (xs : List String) → IsWithin xs (flag_destination dest xs)
flag_destination-IsWithin none xs x h = h
flag_destination-IsWithin (some dest) xs x h = insert_item-IsWithin dest xs x h

module _ {F T : Type 0} where
  -- Both ends of the alert's transaction are flagged.
  abbrev pub IsCovered : List String → Alert F T → Type 0
  IsCovered flagged a =
      (contains flagged a.source_account ≡ true)
      × ((dest : String) → a.destination_account ≡ some dest → contains flagged dest ≡ true)

  flagged_by-IsWithin : (u : Alert F T) (xs : List String) → IsWithin xs (flagged_by u xs)
  flagged_by-IsWithin u xs x h = elim (Bool-cases (u.status == confirmed_suspicious)) [
    | inl e ↦
        subst (λ l. contains l x ≡ true) (sym (if-true _ _ _ e))
          (flag_destination-IsWithin u.destination_account _ x
            (insert_item-IsWithin u.source_account xs x h))
    | inr e ↦ subst (λ l. contains l x ≡ true) (sym (if-false _ _ _ e)) h
  ]

  flagged_by-IsCovered :
      (u : Alert F T) (xs : List String)
      → u.status ≡ confirmed_suspicious
      → IsCovered (flagged_by u xs) u
  flagged_by-IsCovered u xs e =
      subst (λ l. IsCovered l u)
        (sym (if-true _ _ _ ((status_eq.test_iff u.status confirmed_suspicious).1 e)))
        (
          flag_destination-IsWithin u.destination_account _ u.source_account
              (contains-insert_item_self u.source_account xs),
          λ dest is. at_dest u.destination_account dest is,
        )
    where
      at_dest :
          (o : Option String) (dest : String)
          → o ≡ some dest
          → contains (flag_destination o (insert_item u.source_account xs)) dest ≡ true
      at_dest none dest is = absurd (ground arith)
      at_dest (some d) dest is =
          subst (λ d. contains (insert_item d (insert_item u.source_account xs)) dest ≡ true)
            (sym (Option.some-injective d dest is))
            (contains-insert_item_self dest (insert_item u.source_account xs))

  -- Every confirmed alert is covered by the flags.
  abbrev pub IsCoveredBy : AlertManager F T → List String → Type 0
  IsCoveredBy m flagged =
      (id : Uuid) (a : Alert F T)
      → alert_in m id ≡ some a
      → a.status ≡ confirmed_suspicious
      → IsCovered flagged a

  more : (xs ys : List String) (a : Alert F T) → IsWithin xs ys → IsCovered xs a → IsCovered ys a
  more xs ys a within (source, dest) = (within a.source_account source, λ d e. within d (dest d e))

module _ {F T : Type 0} ⦃f64 : Float F⦄ ⦃hashing : Hashing F T⦄ ⦃text : UuidText⦄
    ⦃unicode : Unicode⦄ where
  Effect-IsCoveredBy :
      {m m' : AlertManager F T} (flagged : List String)
      → Effect m m'
      → IsCoveredBy m flagged
      → IsCoveredBy m' flagged
  unfolding create_alert
  Effect-IsCoveredBy flagged same covered = covered
  Effect-IsCoveredBy flagged (told alert_id a summary first found) covered = covered
  Effect-IsCoveredBy flagged (remarked alert_id a summary confidence available first second found)
        covered =
      covered
  Effect-IsCoveredBy {m} flagged (created tx rules score severity draws fresh) covered =
      λ id a found confirmed.
        other id a confirmed (draws.alert_id == id) _ refl
          (sym (get-insert draws.alert_id id _ m.alerts) ∙ found)
    where
      other :
          (id : Uuid) (a : Alert F T)
          → a.status ≡ confirmed_suspicious
          → (b : Bool) (new : Alert F T) → new.status ≡ opened
          → (if b then some new else get id m.alerts) ≡ some a
          → IsCovered flagged a
      other id a confirmed true new opens e =
          absurd (ground (arith, ap (λ a. a.status) (Option.some-injective new a e)))
      other id a confirmed false new opens e = covered id a e confirmed

  settled-IsCoveredBy :
      (s : AppState F T) (decision : InvestigatorDecision T) (now : T) (first second : Stamp T)
      (found : Option (Alert F T))
      → IsCoveredBy s.manager s.flagged_accounts
      → IsCoveredBy
          (settled s (decide_on s.manager decision now first second found)).0.manager
          (settled s (decide_on s.manager decision now first second found)).0.flagged_accounts
  unfolding validate_transition
  settled-IsCoveredBy s decision now first second none covered = covered
  settled-IsCoveredBy s decision now first second (some x) covered = λ id a found confirmed.
      at_id id a confirmed (decision.alert_id == id)
        (sym (get-insert decision.alert_id id _ s.manager.alerts) ∙ found)
    where
      at_id :
          (id : Uuid) (a : Alert F T)
          → a.status ≡ confirmed_suspicious
          → (b : Bool)
          → (if b then some (with_status x decision.decision now) else get id s.manager.alerts)
            ≡ some a
          → IsCovered (flagged_by (with_status x decision.decision now) s.flagged_accounts) a
      at_id id a confirmed true e =
          let same = Option.some-injective (with_status x decision.decision now) a e in
          subst (IsCovered _) same (
            flagged_by-IsCovered (with_status x decision.decision now) s.flagged_accounts
              (ap (λ a. a.status) same ∙ confirmed))
      at_id id a confirmed false e =
          more s.flagged_accounts _ a
            (flagged_by-IsWithin (with_status x decision.decision now) s.flagged_accounts)
            (covered id a e confirmed)

  step-IsCoveredBy :
      {s s' : AppState F T}
      → Step s s'
      → IsCoveredBy s.manager s.flagged_accounts
      → IsCoveredBy s'.manager s'.flagged_accounts
  unfolding apply_investigator_decision
  step-IsCoveredBy {s} {s'} step covered = elim (step-cases step) [
    | inl (effect, flags) ↦
        subst (IsCoveredBy s'.manager) (sym flags)
          (Effect-IsCoveredBy s.flagged_accounts effect covered)
    | inr d ↦
        subst (λ x. IsCoveredBy x.manager x.flagged_accounts) (sym d.result)
          (settled-IsCoveredBy s (decision_of d.user d.alert_id d.req d.decided_at) d.now d.first
            d.second _ covered)
  ]

  -- In every state that the handlers reach from an empty start, the source and the destination of each
  -- alert that is confirmed suspicious are flagged, so that the rules see them.
  pub Reachable-IsCoveredBy :
      {s : AppState F T} → Reachable s → IsCoveredBy s.manager s.flagged_accounts
  Reachable-IsCoveredBy (start rules_engine rules_config auth) =
      λ id a found confirmed. absurd (ground (arith, get-nil {V = Alert F T} id))
  Reachable-IsCoveredBy (next reached step) = step-IsCoveredBy step (Reachable-IsCoveredBy reached)
