-- ===== src/Api/Evaluated.antt =====
-- What `run_evaluation` of crates/api/src/handlers.rs comes to.
use stellartrace.Prelude.{
  ◌≡◌, ◌≢◌, ◌⊎◌, inl, inr, refl, sym, ap, ◌∙◌, true, none, some, List, [], ◌∷◌, nat_eq,
}
use stellartrace.Prelude.HashMap.{get-insert_self}
use stellartrace.Platform.{Float, ◌≤F◌, IsIeee}
use stellartrace.Common.{Alert, NormalizedTransaction, TriggeredRule, opened}
use stellartrace.Rules.{evaluate}
use stellartrace.Scoring.{compute_score, default_weights, severity_for_score}
use stellartrace.Scoring.Score.{compute_score-range}
use stellartrace.Scoring.Defaults.{default_weights-IsProper}
use stellartrace.Audit.{Hashing}
use stellartrace.Alerts.{create_alert, get_alert as alert_in}
use stellartrace.Api.State.{AppState}
use stellartrace.Api.Evaluation.{
  Draws, EvaluationResult, run_evaluation, respond, respond_if, context_of,
}

module _ {F T : Type 0} ⦃f64 : Float F⦄ ⦃hashing : Hashing F T⦄ (s : AppState F T)
    (tx : NormalizedTransaction T) (draws : Draws T) where
  -- the triggers of the transaction in the state
  abbrev pub triggers : List TriggeredRule
  triggers = evaluate s.rules_engine tx (context_of s tx) s.rules_config

  -- An open alert of the transaction, stored and returned.
  pub record IsRaised (done : AppState F T × EvaluationResult F T) : Type 0 where
    pub alert : Alert F T
    pub returned : done.1.alert ≡ some alert
    pub stored : alert_in done.0.manager draws.alert_id ≡ some alert
    pub is_open : alert.status ≡ opened
    pub of_transaction : alert.tx_hash ≡ tx.tx_hash
    pub of_rules : alert.triggered_rules ≡ triggers
    pub rated : (alert.anomaly_score ≡ done.1.anomaly_score) × (alert.severity ≡ done.1.severity)

  pub record IsEvaluation (done : AppState F T × EvaluationResult F T) : Type 0 where
    pub fired : done.1.triggered_rules ≡ triggers
    pub scored : compute_score triggers default_weights ≡ some done.1.anomaly_score
    pub within :
        (f64.of_nat 0 ≤F done.1.anomaly_score ≡ true)
        × (done.1.anomaly_score ≤F f64.of_nat 100 ≡ true)
    pub banded : done.1.severity ≡ severity_for_score done.1.anomaly_score
    pub alerting :
        ((triggers ≡ []) × ((done.1.alert ≡ none) × (done.0 ≡ s)))
        ⊎ ((triggers ≢ []) × IsRaised done)

  IsRaised-or_not :
      (rules : List TriggeredRule) (score : F)
      → rules ≡ triggers
      → ((triggers ≡ [])
          × (((respond s tx draws rules score).1.alert ≡ none)
              × ((respond s tx draws rules score).0 ≡ s)))
        ⊎ ((triggers ≢ []) × IsRaised (respond s tx draws rules score))
  unfolding create_alert
  IsRaised-or_not [] score same = inl (sym same, (refl, refl))
  IsRaised-or_not (t ∷ ts) score same = inr (
    λ empty. absurd (cons_nil t ts (same ∙ empty)),
    record {
      alert = _;
      returned = refl;
      stored = get-insert_self draws.alert_id _ s.manager.alerts;
      is_open = refl;
      of_transaction = refl;
      of_rules = same;
      rated = (refl, refl);
    },
  )
    where
      cons_nil : (t : TriggeredRule) (ts : List TriggeredRule) → (t ∷ ts) ≢ []
      cons_nil t ts e = cc

  -- `run_evaluation` never panics. It returns what the rules fire on the account's other transactions,
  -- with a score between 0 and 100 and its severity. If no rule fires it returns no alert and the state
  -- is unchanged; otherwise it returns and stores an open alert of the transaction, with its triggers,
  -- score and severity. It is assumed that the floats are IEEE 754.
  pub run_evaluation-IsEvaluation :
      IsIeee F
      → (done : AppState F T × EvaluationResult F T) × (run_evaluation s tx draws ≡ some done)
        × IsEvaluation done
  unfolding run_evaluation
  run_evaluation-IsEvaluation laws =
      let (score, scored, low_end, high_end) =
        compute_score-range laws default_weights (default_weights-IsProper laws).0 triggers in
      (
        respond s tx draws triggers score,
        ap (respond_if s tx draws triggers) scored,
        outcome triggers refl score scored low_end high_end,
      )
    where
      outcome :
          (rules : List TriggeredRule)
          → rules ≡ triggers
          → (score : F) → compute_score triggers default_weights ≡ some score
          → (f64.of_nat 0 ≤F score ≡ true)
          → (score ≤F f64.of_nat 100 ≡ true)
          → IsEvaluation (respond s tx draws rules score)
      outcome [] same score scored low_end high_end = record {
        fired = same;
        scored = scored;
        within = (low_end, high_end);
        banded = refl;
        alerting = IsRaised-or_not [] score same;
      }
      outcome (t ∷ ts) same score scored low_end high_end = record {
        fired = same;
        scored = scored;
        within = (low_end, high_end);
        banded = refl;
        alerting = IsRaised-or_not (t ∷ ts) score same;
      }
