-- ===== src/Api/Authority.antt =====
-- Who changes an alert, through the handlers of crates/api/src/handlers.rs.
use mathlib.Core.Option
use stellartrace.Prelude.{
  ◌≡◌, refl, sym, ap, ◌∙◌, ◌⊎◌, inl, inr, true, false, Bool, Option, none, some, String, nat_eq,
  string_eq, ◌==◌, if◌then◌else◌, if-true, if-false, arith,
}
use stellartrace.Prelude.HashMap.{get, get-insert}
use stellartrace.Prelude.Outcome.{ok}
use stellartrace.Platform.{Unicode, Float, Uuid}
use stellartrace.Common.{Alert, InvestigationStatus, InvestigatorDecision, can_decide}
use stellartrace.Audit.{Hashing}
use stellartrace.Alerts.{
  AlertManager, Stamp, get_alert as alert_in, with_status, apply_investigator_decision,
  validate_transition, decide_on, create_alert, alert_of,
}
use stellartrace.Api.Auth.{AuthUser, from_request_parts}
use stellartrace.Api.Error.{UuidText}
use stellartrace.Api.State.{AppState}
use stellartrace.Api.Review.{decision_of}
use stellartrace.Api.Steps.{Step, Effect, same, told, created, remarked, Decided}
use stellartrace.Api.Cases.{step-cases, Decided-manager}

module _ {F T : Type 0} ⦃hashing : Hashing F T⦄ where
  -- Every alert after a decision: the one that it is on has the new status.
  pub decision-get :
      (m : AlertManager F T) (decision : InvestigatorDecision T) (now : T) (first second : Stamp T)
      (j : Uuid)
      → alert_in (apply_investigator_decision m decision now first second).0 j ≡ (
          if decision.alert_id == j
          then Option.map (λ a. with_status a decision.decision now) (alert_in m j)
          else alert_in m j)
  unfolding apply_investigator_decision validate_transition
  decision-get m decision now first second j = decides (get decision.alert_id m.alerts) refl
    where
      decides :
          (found : Option (Alert F T))
          → get decision.alert_id m.alerts ≡ found
          → alert_in (decide_on m decision now first second found).0 j ≡ (
              if decision.alert_id == j
              then Option.map (λ a. with_status a decision.decision now) (alert_in m j)
              else alert_in m j)
      decides none e =
          at_id (decision.alert_id == j)
            (λ same. ap (alert_in m) (sym ((nat_eq.test_iff decision.alert_id j).0 same)) ∙ e)
        where
          at_id :
              (b : Bool)
              → (b ≡ true → alert_in m j ≡ none)
              → alert_in m j ≡ (
                  if b
                  then Option.map (λ a. with_status a decision.decision now) (alert_in m j)
                  else alert_in m j)
          at_id true k =
              k refl ∙ sym (ap (Option.map (λ a. with_status a decision.decision now)) (k refl))
          at_id false k = refl
      decides (some a) e =
          get-insert decision.alert_id j _ m.alerts
          ∙ at_id (decision.alert_id == j)
              (λ same. ap (alert_in m) (sym ((nat_eq.test_iff decision.alert_id j).0 same)) ∙ e)
        where
          at_id :
              (b : Bool)
              → (b ≡ true → alert_in m j ≡ some a)
              → (if b then some (with_status a decision.decision now) else get j m.alerts) ≡ (
                  if b
                  then Option.map (λ a. with_status a decision.decision now) (alert_in m j)
                  else alert_in m j)
          at_id true k = sym (ap (Option.map (λ a. with_status a decision.decision now)) (k refl))
          at_id false k = refl

module _ {F T : Type 0} ⦃f64 : Float F⦄ ⦃hashing : Hashing F T⦄ ⦃text : UuidText⦄
    ⦃unicode : Unicode⦄ where
  pub Effect-keeps :
      {m m' : AlertManager F T} {a : Alert F T} (j : Uuid)
      → Effect m m'
      → alert_in m j ≡ some a
      → alert_in m' j ≡ some a
  unfolding create_alert
  Effect-keeps j same found = found
  Effect-keeps {m} {a} j (created tx rules score severity draws fresh) found =
      get-insert draws.alert_id j _ m.alerts
      ∙ other (draws.alert_id == j)
          (λ same. ap (alert_in m) (sym ((nat_eq.test_iff draws.alert_id j).0 same)))
    where
      other :
          (b : Bool)
          → (b ≡ true → alert_in m j ≡ alert_in m draws.alert_id)
          → (if b
              then some (alert_of tx rules score severity draws.now draws.alert_id)
              else get j m.alerts)
            ≡ some a
      other true k = absurd (ground (arith, sym found ∙ k refl ∙ fresh))
      other false k = found
  Effect-keeps j (told alert_id b summary first known) found = found
  Effect-keeps j (remarked alert_id b summary confidence available first second known) found = found

  -- A user whom the extractor lets through, and who may decide, asked for the change from `a` to `b`.
  pub record Authorized (s : AppState F T) (alert_id : Uuid) (a b : Alert F T) : Type 0 where
    pub header : Option String
    pub user : AuthUser
    pub known : from_request_parts s.auth header ≡ ok user
    pub allowed : can_decide user.role ≡ true
    pub requested : InvestigationStatus
    pub changed_at : T
    pub change : b ≡ with_status a requested changed_at

  -- What has become of an alert.
  pub record Persisted (s s' : AppState F T) (alert_id : Uuid) (a : Alert F T) : Type 0 where
    pub now : Alert F T
    pub found : alert_in s'.manager alert_id ≡ some now
    pub cause : (now ≡ a) ⊎ Authorized s alert_id a now

  Decided-Persisted :
      {s s' : AppState F T} (alert_id : Uuid) {a : Alert F T} (d : Decided s s')
      → alert_in s.manager alert_id ≡ some a
      → (b : Bool) → (d.alert_id == alert_id) ≡ b
      → Persisted s s' alert_id a
  Decided-Persisted {s} {s'} alert_id {a} d found true on = record {
    now = with_status a d.req.decision d.now;
    found =
        ap (λ m. alert_in m alert_id) (Decided-manager d)
        ∙ decision-get s.manager (decision_of d.user d.alert_id d.req d.decided_at) d.now d.first
            d.second alert_id
        ∙ if-true (d.alert_id == alert_id) _ _ on
        ∙ ap (Option.map (λ a. with_status a d.req.decision d.now)) found;
    cause = inr (record {
      header = d.header;
      user = d.user;
      known = d.known;
      allowed = d.allowed;
      requested = d.req.decision;
      changed_at = d.now;
      change = refl;
    });
  }
  Decided-Persisted {s} {s'} alert_id {a} d found false off = record {
    now = a;
    found =
        ap (λ m. alert_in m alert_id) (Decided-manager d)
        ∙ decision-get s.manager (decision_of d.user d.alert_id d.req d.decided_at) d.now d.first
            d.second alert_id
        ∙ if-false (d.alert_id == alert_id) _ _ off
        ∙ found;
    cause = inl refl;
  }

  -- No step removes an alert. It stays as it is, advice and evaluations included, unless a user with a
  -- token of the registry and a role that may decide asked for a status: then its status and the time
  -- of its update change, and nothing else of it.
  pub step-Persisted :
      {s s' : AppState F T} (alert_id : Uuid) {a : Alert F T}
      → Step s s'
      → alert_in s.manager alert_id ≡ some a
      → Persisted s s' alert_id a
  step-Persisted {s} {s'} alert_id {a} step found = elim (step-cases step) [
    | inl (effect, flags) ↦ record {
      now = a;
      found = Effect-keeps alert_id effect found;
      cause = inl refl;
    }
    | inr d ↦ Decided-Persisted alert_id d found (d.alert_id == alert_id) refl
  ]
