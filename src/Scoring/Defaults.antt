-- ===== src/Scoring/Defaults.antt =====
-- `ScoringWeights::default` of crates/scoring/src/lib.rs.
use stellartrace.Common.{low, medium, high, critical}
use stellartrace.Prelude.{◌^◌, ◌<◌, ◌≤◌, ℕ, ◌≡◌, true, arith}
use stellartrace.Platform.{Float, ◌<F◌, IsIeee}
use stellartrace.Common.{Severity}
use stellartrace.Scoring.{default_weights, weight_for}
use stellartrace.Scoring.Descending.{IsWeight}
use stellartrace.Scoring.Score.{IsProper, Separates}

module _ {F : Type 0} ⦃f64 : Float F⦄ where
  default_weights-IsWeight :
      IsIeee F → (s : Severity) → IsWeight (weight_for (default_weights {F = F}) s)
  default_weights-IsWeight laws low = laws.of_nat_mono 0 1 (omega arith)
  default_weights-IsWeight laws medium = laws.of_nat_mono 0 3 (omega arith)
  default_weights-IsWeight laws high = laws.of_nat_mono 0 6 (omega arith)
  default_weights-IsWeight laws critical = laws.of_nat_mono 0 12 (omega arith)

  of_nat_pos : IsIeee F → (n : ℕ) → 0 < n → n ≤ 2 ^ 53 → (f64.of_nat 0 <F f64.of_nat n) ≡ true
  of_nat_pos laws n h k = ground (
    arith,
    laws.lt-eq-not-le (f64.of_nat 0) (f64.of_nat n) (laws.of_nat_mono 0 0 (omega arith))
        (laws.of_nat_mono n n (omega arith)),
    laws.of_nat_strict 0 n h k,
  )

  default_weights-Separates : IsIeee F → Separates (default_weights {F = F})
  default_weights-Separates laws s t h k = ground (
    arith,
    laws.of_nat_strict 1 3 (omega arith) (omega arith),
    laws.of_nat_strict 1 6 (omega arith) (omega arith),
    laws.of_nat_strict 1 12 (omega arith) (omega arith),
    laws.of_nat_strict 3 6 (omega arith) (omega arith),
    laws.of_nat_strict 3 12 (omega arith) (omega arith),
    laws.of_nat_strict 6 12 (omega arith) (omega arith),
  )

  -- The default weights are proper and tell the severities apart.
  pub default_weights-IsProper :
      IsIeee F → IsProper {F = F} default_weights × Separates {F = F} default_weights
  default_weights-IsProper laws = (
    record {
      weighs = default_weights-IsWeight laws;
      saturates =
          rw (laws.of_nat_mul 12 3 (omega arith)) (of_nat_pos laws 36 (omega arith) (omega arith));
      finite = rw (laws.of_nat_mul 12 3 (omega arith)) (laws.of_nat_finite 36 (omega arith));
    },
    default_weights-Separates laws,
  )
