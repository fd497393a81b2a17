-- ===== src/Api/Served.antt =====
-- What a request to crates/api does to the state, by its route: nothing, a step of the handlers that
-- decides nothing, or a decision.
use stellartrace.Prelude.{
  ◌≡◌, refl, sym, subst, true, false, Bool, Option, none, some, String, string_eq, nat_eq, ◌⊎◌, inl,
  inr, Bool-cases,
}
use stellartrace.Prelude.Outcome.{Result, ok, fail}
use stellartrace.Platform.{Float, Chrono, Uuid, Unicode}
use stellartrace.Common.{can_decide}
use stellartrace.Audit.{Hashing}
use stellartrace.Alerts.{get_alert as alert_in, apply_investigator_decision}
use stellartrace.Api.Auth.{AuthUser, AuthError, from_request_parts}
use stellartrace.Api.Error.{UuidText}
use stellartrace.Api.State.{AppState}
use stellartrace.Api.Review.{DecisionRequest, submit_decision, decision_of}
use stellartrace.Api.Router.{
  posts, get, head, other_method, Method, post, Endpoint, health, metrics, transactions, alerts,
  audit_verify, transaction, evaluation, alert, investigation, decision, alert_audit, matched,
  Request, Chance, UuidParse, allows, handled, handled_if, serve, post_decision, with_alert,
  with_decision, decision_response,
}
use stellartrace.Api.Steps.{Effect, same, Step, decided}
use stellartrace.Api.Effects.{settled-manager}
use stellartrace.Api.Calm.{
  Calm, post_transaction-Calm, evaluate-Calm, investigation-Calm, with_alert-Calm,
}

module _ {F T : Type 0} ⦃f64 : Float F⦄ ⦃chrono : Chrono T⦄ ⦃hashing : Hashing F T⦄
    ⦃text : UuidText⦄ ⦃unicode : Unicode⦄ ⦃uuid : UuidParse⦄ (s : AppState F T)
    (request : Request T) (chance : Chance F T) where
  -- A decision that the handler of a request applies.
  pub record Applied (id : String) (s' : AppState F T) : Type 0 where
    pub alert_id : Uuid
    pub parsed : uuid.parse_uuid id ≡ some alert_id
    pub user : AuthUser
    pub known : from_request_parts s.auth request.authorization ≡ ok user
    pub allowed : can_decide user.role ≡ true
    pub req : DecisionRequest
    pub asked : request.decision_body ≡ some req
    pub step : Step s s'
    pub applied :
        s'.manager
        ≡ (apply_investigator_decision s.manager
            (decision_of user alert_id req chance.decided_at)
            chance.now
            chance.first
            chance.second).0

  pub refused_decision :
      (user : AuthUser) (alert_id : Uuid) (req : DecisionRequest)
      → can_decide user.role ≡ false
      → (submit_decision s user alert_id req chance.decided_at chance.now chance.first
          chance.second).0.manager
        ≡ s.manager
  unfolding submit_decision
  refused_decision user alert_id req can = rw can

  pub allowed_decision :
      (user : AuthUser) (alert_id : Uuid) (req : DecisionRequest)
      → can_decide user.role ≡ true
      → (submit_decision s user alert_id req chance.decided_at chance.now chance.first
          chance.second).0.manager
        ≡ (apply_investigator_decision s.manager
            (decision_of user alert_id req chance.decided_at)
            chance.now
            chance.first
            chance.second).0
  unfolding submit_decision
  allowed_decision user alert_id req can = rw can (
      settled-manager s (
        apply_investigator_decision s.manager (decision_of user alert_id req chance.decided_at)
          chance.now chance.first chance.second))

  -- Either the alerts see nothing of the decision, or it is applied.
  post_decision-cases :
      (id : String) (user : Result AuthUser AuthError)
      → from_request_parts s.auth request.authorization ≡ user
      → Calm s (post_decision s request chance user id).0
        ⊎ Applied id (post_decision s request chance user id).0
  post_decision-cases id (fail e) known = inl (inl refl)
  post_decision-cases id (ok user) known =
      parsed (uuid.parse_uuid id) refl request.decision_body refl
    where
      step_of :
          (alert_id : Uuid) (req : DecisionRequest)
          → Step s
              (decision_response (
                submit_decision s user alert_id req chance.decided_at chance.now chance.first
                  chance.second)).0
      step_of alert_id req =
          decided request.authorization user alert_id req chance.decided_at chance.now chance.first
            chance.second known

      decides :
          (alert_id : Uuid) (req : DecisionRequest)
          → uuid.parse_uuid id ≡ some alert_id
          → request.decision_body ≡ some req
          → (b : Bool) → can_decide user.role ≡ b
          → Calm s
              (decision_response (
                submit_decision s user alert_id req chance.decided_at chance.now chance.first
                  chance.second)).0
            ⊎ Applied id
                (decision_response (
                  submit_decision s user alert_id req chance.decided_at chance.now chance.first
                    chance.second)).0
      decides alert_id req ids asks true can = inr (record {
        alert_id = alert_id;
        parsed = ids;
        user = user;
        known = known;
        allowed = can;
        req = req;
        asked = asks;
        step = step_of alert_id req;
        applied = allowed_decision user alert_id req can;
      })
      decides alert_id req ids asks false can = inl (
          inr (
            step_of alert_id req,
            subst (Effect s.manager) (sym (refused_decision user alert_id req can)) same,
          ))

      parsed :
          (o : Option Uuid)
          → uuid.parse_uuid id ≡ o
          → (p : Option DecisionRequest) → request.decision_body ≡ p
          → Calm s
              (with_alert s request chance o (λ alert_id. with_decision s request chance p (λ req.
                decision_response (
                  submit_decision s user alert_id req chance.decided_at chance.now chance.first
                    chance.second)))).0
            ⊎ Applied id
                (with_alert s request chance o (λ alert_id. with_decision s request chance p (λ req.
                  decision_response (
                    submit_decision s user alert_id req chance.decided_at chance.now chance.first
                      chance.second)))).0
      parsed none ids p asks = inl (inl refl)
      parsed (some alert_id) ids none asks = inl (inl refl)
      parsed (some alert_id) ids (some req) asks =
          decides alert_id req ids asks (can_decide user.role) refl

  -- What a request does to the state, by the route that it takes.
  abbrev pub Served : Option Endpoint → AppState F T → Type 0
  Served o s' =
      Calm s s'
      ⊎ ((request.method ≡ post) × ((id : String) × (o ≡ some (decision id)) × Applied id s'))

  pub posting : (m : Method) → posts m ≡ true → m ≡ post
  posting get e = absurd (cc)
  posting head e = absurd (cc)
  posting post e = refl
  posting other_method e = absurd (cc)

  handled-Served :
      alert_in s.manager chance.draws.alert_id ≡ none
      → (e : Endpoint) → allows e request.method ≡ true
      → Served (some e) (handled s request chance e).0
  handled-Served fresh health ok_method = inl (inl refl)
  handled-Served fresh metrics ok_method = inl (inl refl)
  handled-Served fresh transactions ok_method =
      inl (post_transaction-Calm s request chance fresh request.transaction_body)
  handled-Served fresh alerts ok_method = inl (inl refl)
  handled-Served fresh audit_verify ok_method = inl (inl refl)
  handled-Served fresh (transaction tx_hash) ok_method = inl (inl refl)
  handled-Served fresh (evaluation tx_hash) ok_method =
      inl (evaluate-Calm s request chance fresh tx_hash)
  handled-Served fresh (alert id) ok_method =
      inl (with_alert-Calm s request chance (uuid.parse_uuid id) _)
  handled-Served fresh (investigation id) ok_method =
      inl (investigation-Calm s request chance (uuid.parse_uuid id))
  handled-Served fresh (decision id) ok_method =
      elim (post_decision-cases id (from_request_parts s.auth request.authorization) refl) [
        | inl calm ↦ inl calm
        | inr applied ↦ inr (posting request.method ok_method, (id, refl, applied))
      ]
  handled-Served fresh (alert_audit id) ok_method =
      inl (with_alert-Calm s request chance (uuid.parse_uuid id) _)

  handled_if-Served :
      alert_in s.manager chance.draws.alert_id ≡ none
      → (o : Option Endpoint) → Served o (handled_if s request chance o).0
  handled_if-Served fresh none = inl (inl refl)
  handled_if-Served fresh (some e) = elim (Bool-cases (allows e request.method)) [
    | inl allowed ↦ rw allowed (handled-Served fresh e allowed)
    | inr other ↦ rw other (inl (inl refl))
  ]

  pub serve-Served :
      alert_in s.manager chance.draws.alert_id ≡ none
      → Served (matched request.segments) (serve s request chance).0
  unfolding serve
  serve-Served fresh = handled_if-Served fresh (matched request.segments)
