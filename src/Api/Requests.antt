-- ===== src/Api/Requests.antt =====
-- Requests to the router of crates/api/src/lib.rs, one after another, against the step relation of its
-- handlers.
use stellartrace.Prelude.{◌≡◌, sym, subst, none, List, [], ◌∷◌, string_eq, nat_eq, ◌⊎◌, inl, inr}
use stellartrace.Platform.{Float, Chrono, Unicode}
use stellartrace.Audit.{Hashing}
use stellartrace.Alerts.{get_alert as alert_in}
use stellartrace.Api.Error.{UuidText}
use stellartrace.Api.State.{AppState}
use stellartrace.Api.Router.{Request, Chance, UuidParse, serve}
use stellartrace.Api.Served.{serve-Served}
use stellartrace.Api.Steps.{Step, Reachable, next}

module _ {F T : Type 0} ⦃f64 : Float F⦄ ⦃chrono : Chrono T⦄ ⦃hashing : Hashing F T⦄
    ⦃text : UuidText⦄ ⦃unicode : Unicode⦄ ⦃uuid : UuidParse⦄ where
  -- the state after a sequence of requests
  unfoldable pub serve_all : AppState F T → List (Request T × Chance F T) → AppState F T
  serve_all s [] = s
  serve_all s ((request, chance) ∷ rest) = serve_all (serve s request chance).0 rest

  -- Each request draws an identifier that no alert has yet.
  abbrev pub AreFresh : AppState F T → List (Request T × Chance F T) → Type 0
  AreFresh s [] = Unit {0}
  AreFresh s ((request, chance) ∷ rest) =
      (alert_in s.manager chance.draws.alert_id ≡ none) × AreFresh (serve s request chance).0 rest

  pub serve-Step :
      (s : AppState F T) (request : Request T) (chance : Chance F T)
      → alert_in s.manager chance.draws.alert_id ≡ none
      → ((serve s request chance).0 ≡ s) ⊎ Step s (serve s request chance).0
  serve-Step s request chance fresh = elim (serve-Served s request chance fresh) [
    | inl (inl idle) ↦ inl idle
    | inl (inr (step, effect)) ↦ inr step
    | inr (posted, (id, path, applied)) ↦ inr applied.step
  ]

  -- A property that every step of the handlers keeps holds after a sequence of requests.
  pub serve_all-keeps :
      (P : AppState F T → Type 0)
      → ((s s' : AppState F T) → P s → Step s s' → P s')
      → (requests : List (Request T × Chance F T)) {s : AppState F T} → P s
      → AreFresh s requests
      → P (serve_all s requests)
  unfolding serve_all
  serve_all-keeps P keeps [] p fresh = p
  serve_all-keeps P keeps ((request, chance) ∷ rest) {s} p (fresh, later) =
      serve_all-keeps P keeps rest
        (elim (serve-Step s request chance fresh) [
          | inl same ↦ subst P (sym same) p
          | inr step ↦ keeps s (serve s request chance).0 p step
        ])
        later

  -- Whatever requests arrive, in whatever order, malformed and forbidden ones included, the router
  -- takes the application from a state that the handlers reach to a state that they reach, so that
  -- every invariant of those states holds after every request. The identifiers that are drawn for new
  -- alerts are new.
  pub serve_all-Reachable :
      (requests : List (Request T × Chance F T)) {s : AppState F T}
      → Reachable s
      → AreFresh s requests
      → Reachable (serve_all s requests)
  serve_all-Reachable requests reached fresh =
      serve_all-keeps Reachable (λ s s' reached step. next reached step) requests reached fresh
