-- ===== src/Api/Kept.antt =====
-- What a request to crates/api may change of an alert: only a decision on its path, by a user who may
-- decide.
use mathlib.Core.Option
use stellartrace.Prelude.{
  ◌≡◌, refl, ap, ◌∙◌, true, none, some, String, List, [], ◌∷◌, string_eq, nat_eq, ◌==◌, ◌⊎◌, inl,
  inr, if◌then◌else◌, if-true, if-false, Bool-cases, arith,
}
use stellartrace.Prelude.Outcome.{ok}
use stellartrace.Platform.{Float, Chrono, Uuid, Unicode}
use stellartrace.Common.{Alert, can_decide}
use stellartrace.Audit.{Hashing}
use stellartrace.Alerts.{get_alert as alert_in, with_status}
use stellartrace.Api.Auth.{AuthUser, from_request_parts}
use stellartrace.Api.Error.{UuidText}
use stellartrace.Api.State.{AppState}
use stellartrace.Api.Review.{DecisionRequest, decision_of}
use stellartrace.Api.Router.{
  post, decision, three_segments, four_segments, matched, Request, Chance, UuidParse, serve,
}
use stellartrace.Api.Steps.{Effect}
use stellartrace.Api.Served.{Applied, serve-Served}
use stellartrace.Api.Calm.{Calm-Effect}
use stellartrace.Api.Authority.{Effect-keeps, decision-get}

three_segments-decision : (b c id : String) → three_segments b c ≡ some (decision id) → ⊥
three_segments-decision b c id e = ground arith

four_segments-decision :
    (b c d id : String)
    → four_segments b c d ≡ some (decision id)
    → (b ≡ "alerts") × (c ≡ id) × (d ≡ "decision")
four_segments-decision b c d id e =
    ground (arith, string_eq.test_iff b "alerts", string_eq.test_iff d "decision")

-- Only one path leads to the decisions.
matched-decision :
    (segments : List String) (id : String)
    → matched segments ≡ some (decision id)
    → segments ≡ "api" ∷ "alerts" ∷ id ∷ "decision" ∷ []
unfolding matched
matched-decision [] id e = absurd (cc)
matched-decision (a ∷ []) id e = absurd (ground arith)
matched-decision (a ∷ b ∷ []) id e = absurd (ground arith)
matched-decision (a ∷ b ∷ c ∷ []) id e = absurd (ground (arith, three_segments-decision b c id))
matched-decision (a ∷ b ∷ c ∷ d ∷ []) id e =
    ground (arith, string_eq.test_iff a "api", four_segments-decision b c d id)
matched-decision (a ∷ b ∷ c ∷ d ∷ f ∷ rest) id e = absurd (cc)

module _ {F T : Type 0} ⦃f64 : Float F⦄ ⦃chrono : Chrono T⦄ ⦃hashing : Hashing F T⦄
    ⦃text : UuidText⦄ ⦃unicode : Unicode⦄ ⦃uuid : UuidParse⦄ (s : AppState F T)
    (request : Request T) (chance : Chance F T) where
  -- The request is a decision on the alert by an investigator or admin with a token of the registry.
  pub record IsDecision (alert_id : Uuid) (a b : Alert F T) : Type 0 where
    pub posted : request.method ≡ post
    pub id : String
    pub path : request.segments ≡ "api" ∷ "alerts" ∷ id ∷ "decision" ∷ []
    pub parsed : uuid.parse_uuid id ≡ some alert_id
    pub user : AuthUser
    pub known : from_request_parts s.auth request.authorization ≡ ok user
    pub allowed : can_decide user.role ≡ true
    pub req : DecisionRequest
    pub asked : request.decision_body ≡ some req
    pub change : b ≡ with_status a req.decision chance.now

  -- What becomes of an alert when a request is served.
  pub record IsKept (alert_id : Uuid) (a : Alert F T) : Type 0 where
    pub now : Alert F T
    pub found : alert_in (serve s request chance).0.manager alert_id ≡ some now
    pub cause : (now ≡ a) ⊎ IsDecision alert_id a now

  effect-IsKept :
      (alert_id : Uuid) {a : Alert F T}
      → Effect s.manager (serve s request chance).0.manager
      → alert_in s.manager alert_id ≡ some a
      → IsKept alert_id a
  effect-IsKept alert_id {a} effect found = record {
    now = a;
    found = Effect-keeps alert_id effect found;
    cause = inl refl;
  }

  decision-found :
      (alert_id : Uuid) {a : Alert F T} {id : String}
      → (d : Applied s request chance id (serve s request chance).0)
      → alert_in s.manager alert_id ≡ some a
      → alert_in (serve s request chance).0.manager alert_id ≡ (
          if d.alert_id == alert_id then some (with_status a d.req.decision chance.now) else some a)
  decision-found alert_id {a} d found =
      ap (λ m. alert_in m alert_id) d.applied
      ∙ decision-get s.manager (decision_of d.user d.alert_id d.req chance.decided_at) chance.now
          chance.first chance.second alert_id
      ∙ ap
          (λ o.
            if d.alert_id == alert_id
            then Option.map (λ a. with_status a d.req.decision chance.now) o
            else o)
          found

  Applied-IsKept :
      (alert_id : Uuid) {a : Alert F T} {id : String}
      → request.method ≡ post
      → matched request.segments ≡ some (decision id)
      → Applied s request chance id (serve s request chance).0
      → alert_in s.manager alert_id ≡ some a
      → IsKept alert_id a
  Applied-IsKept alert_id {a} {id} posted path d found =
      elim (Bool-cases (d.alert_id == alert_id)) [
        | inl on ↦ record {
          now = with_status a d.req.decision chance.now;
          found = decision-found alert_id d found ∙ if-true (d.alert_id == alert_id) _ _ on;
          cause = inr (record {
            posted = posted;
            id = id;
            path = matched-decision request.segments id path;
            parsed = d.parsed ∙ ap some (ground (arith, nat_eq.test_iff d.alert_id alert_id));
            user = d.user;
            known = d.known;
            allowed = d.allowed;
            req = d.req;
            asked = d.asked;
            change = refl;
          });
        }
        | inr off ↦ record {
          now = a;
          found = decision-found alert_id d found ∙ if-false (d.alert_id == alert_id) _ _ off;
          cause = inl refl;
        }
      ]

  -- A request leaves every alert in the store, and as it is, unless it is a POST to the decision path
  -- of the alert, with a decision as its body and a token of the registry whose role may decide: then
  -- the status and the time of the update change, and nothing else of the alert. The identifier that
  -- the request may draw for a new alert is not in the store.
  pub serve-IsKept :
      alert_in s.manager chance.draws.alert_id ≡ none
      → (alert_id : Uuid) {a : Alert F T} → alert_in s.manager alert_id ≡ some a
      → IsKept alert_id a
  serve-IsKept fresh alert_id found = elim (serve-Served s request chance fresh) [
    | inl calm ↦ effect-IsKept alert_id (Calm-Effect s calm) found
    | inr (posted, (id, path, applied)) ↦ Applied-IsKept alert_id posted path applied found
  ]
