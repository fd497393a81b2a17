-- ===== src/Tests/Scoring.antt =====
-- The theorems on the score at concrete inputs.
use mathlib.Core.List.Perm
use stellartrace.Prelude.{ℕ, ◌≡◌, ◌≤◌, true, some, [], ◌∷◌}
use stellartrace.Platform.{◌≤F◌}
use stellartrace.Platform.Samples.{lower_cases, fixed_point, fixed_point-IsIeee}
use stellartrace.Common.{TriggeredRule, low}
use stellartrace.Scoring.{compute_score, default_weights, severity_for_score}
use stellartrace.Scoring.Score.{compute_score-range, compute_score_mono, rank}
use stellartrace.Scoring.Unordered.{compute_score-perm}
use stellartrace.Scoring.Defaults.{default_weights-IsProper}
use stellartrace.Tests.Samples.{a_trigger}

abbrev minor : TriggeredRule
minor = record a_trigger { severity = low }

compute_score-range_example :
    (score : ℕ) × (compute_score (a_trigger ∷ minor ∷ []) default_weights ≡ some score)
    × ((fixed_point.of_nat 0 ≤F score) ≡ true)
    × ((score ≤F fixed_point.of_nat 100) ≡ true)
compute_score-range_example =
    compute_score-range fixed_point-IsIeee default_weights
      (default_weights-IsProper fixed_point-IsIeee).0 (a_trigger ∷ minor ∷ [])

compute_score_mono_example :
    (a : ℕ) × (b : ℕ) × (compute_score (a_trigger ∷ []) default_weights ≡ some a)
    × (compute_score (minor ∷ a_trigger ∷ []) default_weights ≡ some b)
    × ((a ≤F b) ≡ true)
    × (rank (severity_for_score a) ≤ rank (severity_for_score b))
compute_score_mono_example =
    compute_score_mono fixed_point-IsIeee default_weights
      (default_weights-IsProper fixed_point-IsIeee).0 minor (a_trigger ∷ [])

compute_score-perm_example :
    compute_score {F = ℕ} (a_trigger ∷ minor ∷ []) default_weights
    ≡ compute_score {F = ℕ} (minor ∷ a_trigger ∷ []) default_weights
compute_score-perm_example =
    compute_score-perm fixed_point-IsIeee default_weights
      (default_weights-IsProper fixed_point-IsIeee).0
      (default_weights-IsProper fixed_point-IsIeee).1 (a_trigger ∷ minor ∷ [])
      (minor ∷ a_trigger ∷ []) (Perm.swap minor a_trigger [])
