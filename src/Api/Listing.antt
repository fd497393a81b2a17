-- ===== src/Api/Listing.antt =====
-- What `list_alerts` of crates/api/src/handlers.rs answers.
use mathlib.Core.List.{Mem, Perm}
use stellartrace.Prelude.{
  ◌≡◌, ◌≢◌, ◌↔◌, refl, false, Option, none, some, String, List, [], ◌∷◌, string_eq, ◌==◌, ◌⊎◌, inl,
  inr, Bool-cases, arith,
}
use stellartrace.Prelude.Outcome.{Result, ok, fail}
use stellartrace.Prelude.HashMap.{values}
use stellartrace.Prelude.Text.{format}
use stellartrace.Platform.{Chrono, IsTimeline}
use stellartrace.Common.{
  Alert, InvestigationStatus, opened, under_investigation, escalated, dismissed,
  confirmed_suspicious,
}
use stellartrace.Alerts.{AlertManager, list, list_by_status}
use stellartrace.Alerts.Listing.{
  IsNewestFirst, list-IsNewestFirst, list_by_status_iff, list_by_status-IsNewestFirst,
}
use stellartrace.Api.Error.{ApiError, bad_request}
use stellartrace.Api.State.{AppState}
use stellartrace.Api.Review.{list_alerts}

-- the name of a status in a query, as docs/api-reference.md and the JSON of an alert write it
abbrev pub query_name : InvestigationStatus → String
query_name opened = "open"
query_name under_investigation = "under_investigation"
query_name escalated = "escalated"
query_name dismissed = "dismissed"
query_name confirmed_suspicious = "confirmed_suspicious"

module _ {F T : Type 0} ⦃chrono : Chrono T⦄ where
  -- The stored alerts, all or those of one status, newest first.
  abbrev pub IsOfStatus : AlertManager F T → InvestigationStatus → List (Alert F T) → Type 0
  IsOfStatus m status l =
      ((a : Alert F T) → Mem a l ↔ (Mem a (values m.alerts) × (a.status ≡ status)))
      × IsNewestFirst l

  abbrev pub IsListing :
      AlertManager F T → Option String → Result (List (Alert F T)) ApiError → Type 0
  IsListing m none answer =
      (l : List (Alert F T)) × (answer ≡ ok l) × Perm l (values m.alerts) × IsNewestFirst l
  IsListing m (some name) answer =
      ((status : InvestigationStatus) × (name ≡ query_name status)
        × (l : List (Alert F T)) × (answer ≡ ok l)
        × IsOfStatus m status l)
      ⊎ (((status : InvestigationStatus) → name ≢ query_name status)
          × (answer ≡ fail (bad_request (format ("unknown status filter: " ∷ name ∷ [])))))

  -- Without a filter, `list_alerts` answers with every stored alert once. With the name of a status
  -- it answers with just the stored alerts of that status, and with any other name by an error that
  -- repeats it. No alert of an answer comes before one that was created later. It is assumed that
  -- instants are totally ordered.
  pub list_alerts-IsListing :
      IsTimeline T
      → (s : AppState F T) (status : Option String)
      → IsListing s.manager status (list_alerts s status)
  unfolding list_alerts
  list_alerts-IsListing timeline s none =
      let (stored, sorted) = list-IsNewestFirst timeline s.manager in
      (list s.manager, refl, stored, sorted)
  list_alerts-IsListing timeline s (some name) = elim (Bool-cases (name == "open")) [
    | inl e ↦ rw (e) (named opened ((string_eq.test_iff name "open").0 e))
    | inr e0 ↦ elim (Bool-cases (name == "under_investigation")) [
      | inl e ↦
          rw (e0, e)
            (named under_investigation ((string_eq.test_iff name "under_investigation").0 e))
      | inr e1 ↦ elim (Bool-cases (name == "escalated")) [
        | inl e ↦ rw (e0, e1, e) (named escalated ((string_eq.test_iff name "escalated").0 e))
        | inr e2 ↦ elim (Bool-cases (name == "dismissed")) [
          | inl e ↦ rw (e0, e1, e2, e) (named dismissed ((string_eq.test_iff name "dismissed").0 e))
          | inr e3 ↦ elim (Bool-cases (name == "confirmed_suspicious")) [
            | inl e ↦
                rw (e0, e1, e2, e3, e)
                  (named confirmed_suspicious
                    ((string_eq.test_iff name "confirmed_suspicious").0 e))
            | inr e4 ↦
                rw (e0, e1, e2, e3, e4)
                  (inr (
                    elim [
                      | opened ↦ other e0
                      | under_investigation ↦ other e1
                      | escalated ↦ other e2
                      | dismissed ↦ other e3
                      | confirmed_suspicious ↦ other e4
                    ],
                    refl,
                  ))
          ]
        ]
      ]
    ]
  ]
    where
      named :
          (status : InvestigationStatus)
          → name ≡ query_name status
          → IsListing s.manager (some name) (ok (list_by_status s.manager status))
      named status e = inl (
        status,
        e,
        list_by_status s.manager status,
        refl,
        (
          (λ a. list_by_status_iff timeline s.manager status a),
          list_by_status-IsNewestFirst timeline s.manager status,
        ),
      )

      other : {text : String} → (name == text) ≡ false → name ≢ text
      other {text} e h = absurd (ground (arith, string_eq.test_iff name text, e, h))
