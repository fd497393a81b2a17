-- ===== src/Scoring.antt =====
-- crates/scoring/src/lib.rs: the anomaly score of a list of triggers, and its severity band.
-- `none` stands for the panic of `partial_cmp(..).unwrap()` on a weight that is NaN.
pub mod Descending
pub mod Score
pub mod Unordered
pub mod Defaults
use stellartrace.Prelude.{
  ℕ, zero, suc, ◌+◌, Bool, true, ◌&&◌, Option, none, some, List, [], ◌∷◌, length, map, ltb,
  if◌then◌else◌,
}
use stellartrace.Prelude.Sort.{sort_by}
use stellartrace.Platform.{Float, ◌≤F◌}
use stellartrace.Common.{Severity, low, medium, high, critical, TriggeredRule}

pub record ScoringWeights (F : Type 0) : Type 0 where
  pub low : F
  pub medium : F
  pub high : F
  pub critical : F

-- `ScoringWeights::default`
abbrev pub default_weights : {F : Type 0} ⦃f64 : Float F⦄ → ScoringWeights F
default_weights ⦃f64⦄ = record {
  low = f64.of_nat 1;
  medium = f64.of_nat 3;
  high = f64.of_nat 6;
  critical = f64.of_nat 12;
}

abbrev pub weight_for : {F : Type 0} → ScoringWeights F → Severity → F
weight_for weights low = weights.low
weight_for weights medium = weights.medium
weight_for weights high = weights.high
weight_for weights critical = weights.critical

module _ {F : Type 0} ⦃f64 : Float F⦄ where
  -- The comparator's order: the greater weight first.
  abbrev pub heavier : ScoringWeights F → TriggeredRule → TriggeredRule → Bool
  heavier weights a b = weight_for weights b.severity ≤F weight_for weights a.severity

  -- No comparison panics: a sort of two or more items looks at each, and NaN compares with none.
  abbrev pub all_numbers : ScoringWeights F → List TriggeredRule → Bool
  all_numbers weights [] = true
  all_numbers weights (t ∷ ts) =
      weight_for weights t.severity ≤F weight_for weights t.severity && all_numbers weights ts

  abbrev pub comparable : ScoringWeights F → List TriggeredRule → Bool
  comparable weights ts = if ltb (length ts) 2 then true else all_numbers weights ts

  -- `.enumerate().map(|(i, t)| weight / (i as f64 + 1.0).sqrt()).sum()`, from index `i` on
  unfoldable pub raw_from : ℕ → F → List F → F
  raw_from i sum [] = sum
  raw_from i sum (w ∷ ws) =
      raw_from (suc i) (f64.add sum (f64.div w (f64.sqrt (f64.add (f64.of_nat i) (f64.of_nat 1)))))
        ws

  -- the last two lines of `compute_score`
  unfoldable pub normalize : ScoringWeights F → F → F
  normalize weights raw =
      f64.min (f64.mul (f64.div raw (f64.mul weights.critical (f64.of_nat 3))) (f64.of_nat 100))
        (f64.of_nat 100)

  unfoldable pub compute_score : List TriggeredRule → ScoringWeights F → Option F
  unfolding raw_from normalize sort_by
  compute_score [] weights = some (f64.of_nat 0)
  compute_score (t ∷ ts) weights =
      if comparable weights (t ∷ ts)
      then some (
          normalize weights (
            raw_from 0 (f64.of_nat 0)
              (map (λ r. weight_for weights r.severity) (sort_by (heavier weights) (t ∷ ts)))))
      else none

  unfoldable pub severity_for_score : F → Severity
  severity_for_score score =
      if f64.of_nat 75 ≤F score
      then critical
      else if f64.of_nat 45 ≤F score
      then high
      else if f64.of_nat 20 ≤F score
      then medium
      else low
