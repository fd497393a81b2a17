-- ===== src/Scoring/Score.antt =====
-- `compute_score` of crates/scoring/src/lib.rs on weights that are proper.
use stellartrace.Common.{low, medium, high, critical}
use stellartrace.Prelude.{◌≤◌, suc, ℕ, ◌≡◌, refl, ap, true, some, List, [], ◌∷◌, map, arith}
use stellartrace.Prelude.Sort.{sort_by}
use stellartrace.Platform.{Float, ◌≤F◌, ◌<F◌, IsIeee}
use stellartrace.Common.{Severity, TriggeredRule}
use stellartrace.Scoring.{
  severity_for_score, ScoringWeights, weight_for, all_numbers, comparable, raw_from, normalize,
  compute_score,
}
use stellartrace.Scoring.Descending.{
  sort_by-IsDescending, insert_by-Dominates, sort_by-AllWeights, Dominates, IsWeight, AllWeights,
  before_lighter, map-sort_by,
}

-- the derived `Ord` of `Severity`
abbrev pub rank : Severity → ℕ
rank low = 0
rank medium = 1
rank high = 2
rank critical = 3

module _ {F : Type 0} ⦃f64 : Float F⦄ where
  -- Weights that are numbers, not negative, with a saturation point that can divide.
  pub record IsProper (w : ScoringWeights F) : Type 0 where
    pub weighs : (s : Severity) → IsWeight (weight_for w s)
    pub saturates : (f64.of_nat 0 <F f64.mul w.critical (f64.of_nat 3)) ≡ true
    pub finite : f64.is_finite (f64.mul w.critical (f64.of_nat 3)) ≡ true

  -- Severities of one weight are one severity.
  abbrev pub Separates : ScoringWeights F → Type 0
  Separates w =
      (s t : Severity)
      → (weight_for w s ≤F weight_for w t) ≡ true
      → (weight_for w t ≤F weight_for w s) ≡ true
      → s ≡ t

  abbrev pub weights_of : ScoringWeights F → List TriggeredRule → List F
  weights_of w = map (λ r. weight_for w r.severity)

  -- what `compute_score` returns on a list that is not empty
  abbrev pub score_of : ScoringWeights F → List F → F
  score_of w ws = normalize w (raw_from 0 (f64.of_nat 0) (sort_by before_lighter ws))

  module _ (laws : IsIeee F) (w : ScoringWeights F) (proper : IsProper w) where
    pub self_le : (x : F) → IsWeight x → (x ≤F x) ≡ true
    self_le x h = (laws.refl_of_le (f64.of_nat 0) x h).1

    zero-IsWeight : IsWeight (f64.of_nat 0)
    zero-IsWeight = laws.of_nat_mono 0 0 (omega arith)

    all_numbers-true : (ts : List TriggeredRule) → all_numbers w ts ≡ true
    all_numbers-true [] = refl
    all_numbers-true (t ∷ ts) =
        ground
          (arith, self_le (weight_for w t.severity) (proper.weighs t.severity), all_numbers-true ts)

    comparable-true : (ts : List TriggeredRule) → comparable w ts ≡ true
    comparable-true ts = ground (arith, all_numbers-true ts)

    AllWeights-weights_of : (ts : List TriggeredRule) → AllWeights (weights_of w ts)
    AllWeights-weights_of [] = tt
    AllWeights-weights_of (t ∷ ts) = (proper.weighs t.severity, AllWeights-weights_of ts)

    pub compute_score-cons :
        (t : TriggeredRule) (ts : List TriggeredRule)
        → compute_score (t ∷ ts) w ≡ some (score_of w (weights_of w (t ∷ ts)))
    unfolding compute_score
    compute_score-cons t ts = rw (comparable-true (t ∷ ts)) (
        ap (λ (ws : List F). some (normalize w (raw_from 0 (f64.of_nat 0) ws)))
          (map-sort_by (λ (r : TriggeredRule). weight_for w r.severity) before_lighter (t ∷ ts)))

    abbrev scale : ℕ → F
    scale i = f64.sqrt (f64.add (f64.of_nat i) (f64.of_nat 1))

    term_mono :
        (i : ℕ) (x y : F)
        → IsWeight x
        → (x ≤F y) ≡ true
        → (f64.div x (scale i) ≤F f64.div y (scale i)) ≡ true
    term_mono i x y wx h =
        let (positive, finite) = laws.sqrt_scale i in
        laws.div_mono x y (scale i) wx h positive finite

    term-IsWeight : (i : ℕ) (x : F) → IsWeight x → IsWeight (f64.div x (scale i))
    term-IsWeight i x wx =
        let (positive, finite) = laws.sqrt_scale i in
        laws.le_trans (f64.of_nat 0) (f64.div (f64.of_nat 0) (scale i)) (f64.div x (scale i))
          (laws.zero_div (scale i) positive finite) (term_mono i (f64.of_nat 0) x zero-IsWeight wx)

    add_grows : (a b c : F) → IsWeight a → (a ≤F b) ≡ true → IsWeight c → (a ≤F f64.add b c) ≡ true
    add_grows a b c wa h wc =
        laws.le_trans a (f64.add a (f64.of_nat 0)) (f64.add b c) (laws.add_zero a wa)
          (laws.add_mono a b (f64.of_nat 0) c wa h zero-IsWeight wc)

    grown-IsWeight : (a b : F) → IsWeight a → (a ≤F b) ≡ true → IsWeight b
    grown-IsWeight a b wa h = laws.le_trans (f64.of_nat 0) a b wa h

    -- Heavier weights, and more of them, sum up to no less.
    raw_from_mono :
        (i : ℕ) (a b : F) (xs ys : List F)
        → IsWeight a
        → (a ≤F b) ≡ true
        → AllWeights xs
        → AllWeights ys
        → Dominates xs ys
        → (raw_from i a xs ≤F raw_from i b ys) ≡ true
    unfolding raw_from
    raw_from_mono i a b [] [] wa h wx wy d = h
    raw_from_mono i a b [] (y ∷ ys) wa h wx wy d =
        raw_from_mono (suc i) a (f64.add b (f64.div y (scale i))) [] ys wa
          (add_grows a b (f64.div y (scale i)) wa h (term-IsWeight i y wy.0)) tt wy.1 tt
    raw_from_mono i a b (x ∷ xs) [] wa h wx wy d = absurd d
    raw_from_mono i a b (x ∷ xs) (y ∷ ys) wa h wx wy d =
        let wt = term-IsWeight i x wx.0 in
        raw_from_mono (suc i) (f64.add a (f64.div x (scale i))) (f64.add b (f64.div y (scale i))) xs
          ys
          (grown-IsWeight a (f64.add a (f64.div x (scale i))) wa
            (add_grows a a (f64.div x (scale i)) wa (self_le a wa) wt))
          (laws.add_mono a b (f64.div x (scale i)) (f64.div y (scale i)) wa h wt
            (term_mono i x y wx.0 d.0))
          wx.1 wy.1 d.1

    raw_from-IsWeight :
        (i : ℕ) (xs : List F) → AllWeights xs → IsWeight (raw_from i (f64.of_nat 0) xs)
    unfolding raw_from
    raw_from-IsWeight i xs wx =
        raw_from_mono i (f64.of_nat 0) (f64.of_nat 0) [] xs zero-IsWeight zero-IsWeight tt wx tt

    scaled_mono :
        (a b : F)
        → IsWeight a
        → (a ≤F b) ≡ true
        → (f64.mul (f64.div a (f64.mul w.critical (f64.of_nat 3))) (f64.of_nat 100)
            ≤F f64.mul (f64.div b (f64.mul w.critical (f64.of_nat 3))) (f64.of_nat 100))
          ≡ true
    scaled_mono a b wa h =
        let c = f64.mul w.critical (f64.of_nat 3) in
        laws.mul_mono (f64.div a c) (f64.div b c) 99
          (laws.le_trans (f64.of_nat 0) (f64.div (f64.of_nat 0) c) (f64.div a c)
            (laws.zero_div c proper.saturates proper.finite)
            (laws.div_mono (f64.of_nat 0) a c zero-IsWeight wa proper.saturates proper.finite))
          (laws.div_mono a b c wa h proper.saturates proper.finite)

    hundred : (f64.of_nat 100 ≤F f64.of_nat 100) ≡ true
    hundred = laws.of_nat_mono 100 100 (omega arith)

    normalize_mono :
        (a b : F) → IsWeight a → (a ≤F b) ≡ true → (normalize w a ≤F normalize w b) ≡ true
    unfolding normalize
    normalize_mono a b wa h = laws.min_mono _ _ (f64.of_nat 100) (scaled_mono a b wa h) hundred

    normalize-range :
        (a : F) → IsWeight a → IsWeight (normalize w a) × ((normalize w a ≤F f64.of_nat 100) ≡ true)
    unfolding normalize
    normalize-range a wa =
        let c = f64.mul w.critical (f64.of_nat 3) in
        let scaled = f64.mul (f64.div a c) (f64.of_nat 100) in
        (
          laws.le_min (f64.of_nat 0) scaled (f64.of_nat 100)
              (laws.le_trans (f64.of_nat 0) (f64.mul (f64.div (f64.of_nat 0) c) (f64.of_nat 100))
                scaled
                (laws.le_trans (f64.of_nat 0) (f64.mul (f64.of_nat 0) (f64.of_nat 100)) _
                  (laws.zero_mul 99)
                  (laws.mul_mono (f64.of_nat 0) (f64.div (f64.of_nat 0) c) 99 zero-IsWeight
                    (laws.zero_div c proper.saturates proper.finite)))
                (scaled_mono (f64.of_nat 0) a zero-IsWeight wa))
              (laws.of_nat_mono 0 100 (omega arith)),
          laws.min_le_right scaled (f64.of_nat 100) hundred,
        )

    sorted : List TriggeredRule → List F
    sorted ts = sort_by before_lighter (weights_of w ts)

    sorted-AllWeights : (ts : List TriggeredRule) → AllWeights (sorted ts)
    unfolding sorted
    sorted-AllWeights ts = sort_by-AllWeights (weights_of w ts) (AllWeights-weights_of ts)

    sorted-cons-Dominates :
        (t : TriggeredRule) (ts : List TriggeredRule) → Dominates (sorted ts) (sorted (t ∷ ts))
    unfolding sorted sort_by
    sorted-cons-Dominates t ts =
        insert_by-Dominates laws (weight_for w t.severity) (sorted ts) (sorted-AllWeights ts)
          (sort_by-IsDescending laws (weights_of w ts) (AllWeights-weights_of ts))

    -- With proper weights the score is computed without a panic, and lies between 0 and 100.
    pub compute_score-range :
        (ts : List TriggeredRule)
        → (score : F) × (compute_score ts w ≡ some score)
          × ((f64.of_nat 0 ≤F score) ≡ true)
          × ((score ≤F f64.of_nat 100) ≡ true)
    unfolding sorted
    compute_score-range [] = (
      f64.of_nat 0,
      unfold compute_score in refl,
      zero-IsWeight,
      laws.of_nat_mono 0 100 (omega arith),
    )
    compute_score-range (t ∷ ts) =
        let (low_end, high_end) =
          normalize-range (raw_from 0 (f64.of_nat 0) (sorted (t ∷ ts)))
            (raw_from-IsWeight 0 (sorted (t ∷ ts)) (sorted-AllWeights (t ∷ ts))) in
        (score_of w (weights_of w (t ∷ ts)), compute_score-cons t ts, low_end, high_end)

    -- the score before and after one more trigger
    score-cons :
        (t : TriggeredRule) (ts : List TriggeredRule)
        → (a : F) × (compute_score ts w ≡ some a)
          × ((a ≤F score_of w (weights_of w (t ∷ ts))) ≡ true)
    unfolding sorted
    score-cons t [] =
        let (score, e, low_end, high_end) = compute_score-range (t ∷ []) in
        (
          f64.of_nat 0,
          unfold compute_score in refl,
          (normalize-range (raw_from 0 (f64.of_nat 0) (sorted (t ∷ [])))
              (raw_from-IsWeight 0 (sorted (t ∷ [])) (sorted-AllWeights (t ∷ [])))).0,
        )
    score-cons t (u ∷ ts) = (
      score_of w (weights_of w (u ∷ ts)),
      compute_score-cons u ts,
      normalize_mono (raw_from 0 (f64.of_nat 0) (sorted (u ∷ ts)))
          (raw_from 0 (f64.of_nat 0) (sorted (t ∷ u ∷ ts)))
          (raw_from-IsWeight 0 (sorted (u ∷ ts)) (sorted-AllWeights (u ∷ ts)))
          (raw_from_mono 0 (f64.of_nat 0) (f64.of_nat 0) (sorted (u ∷ ts)) (sorted (t ∷ u ∷ ts))
            zero-IsWeight zero-IsWeight (sorted-AllWeights (u ∷ ts))
            (sorted-AllWeights (t ∷ u ∷ ts)) (sorted-cons-Dominates t (u ∷ ts))),
    )

    severity_mono :
        (a b : F) → (a ≤F b) ≡ true → rank (severity_for_score a) ≤ rank (severity_for_score b)
    unfolding severity_for_score
    severity_mono a b h = ground (
      arith,
      laws.le_trans (f64.of_nat 75) a b,
      laws.le_trans (f64.of_nat 45) a b,
      laws.le_trans (f64.of_nat 20) a b,
    )

    -- One more trigger, of any severity, never lowers the score, nor the severity band.
    pub compute_score_mono :
        (t : TriggeredRule) (ts : List TriggeredRule)
        → (a : F) × (b : F) × (compute_score ts w ≡ some a)
          × (compute_score (t ∷ ts) w ≡ some b)
          × ((a ≤F b) ≡ true)
          × (rank (severity_for_score a) ≤ rank (severity_for_score b))
    compute_score_mono t ts =
        let (a, before, grows) = score-cons t ts in
        let b = score_of w (weights_of w (t ∷ ts)) in
        (a, b, before, compute_score-cons t ts, grows, severity_mono a b grows)
