-- ===== src/Scoring/Unordered.antt =====
-- `compute_score` of crates/scoring/src/lib.rs on triggers in different orders.
use mathlib.Core.List.{Perm}
use mathlib.Core.List.Perm
use stellartrace.Prelude.Order.{Order}
use stellartrace.Prelude.{◌∙◌, sym, ◌≡◌, refl, ap, some, List, [], ◌∷◌, map}
use stellartrace.Prelude.Sort.{sort-eq_of_perm, sort, sort_by}
use stellartrace.Platform.{Float, ◌≤F◌, IsIeee}
use stellartrace.Common.{Severity, TriggeredRule}
use stellartrace.Scoring.{ScoringWeights, weight_for, raw_from, normalize, compute_score}
use stellartrace.Scoring.Descending.{before_lighter, map-sort_by}
use stellartrace.Scoring.Score.{IsProper, Separates, weights_of, self_le, compute_score-cons}

module _ {F : Type 0} ⦃f64 : Float F⦄ where
  module _ (laws : IsIeee F) (w : ScoringWeights F) (proper : IsProper w) where
    heavier_order : Order Severity
    heavier_order = record {
      le = λ s t. weight_for w t ≤F weight_for w s;
      le_total = λ s t.
          laws.le_total (weight_for w t) (weight_for w s)
            (self_le laws w proper _ (proper.weighs t)) (self_le laws w proper _ (proper.weighs s));
      le_trans = λ s t u h k. laws.le_trans (weight_for w u) (weight_for w t) (weight_for w s) k h;
    }

    abbrev severities : List TriggeredRule → List Severity
    severities = map (λ r. r.severity)

    weights_of-severities :
        (ts : List TriggeredRule) → weights_of w ts ≡ map (weight_for w) (severities ts)
    weights_of-severities [] = refl
    weights_of-severities (t ∷ ts) = ap (◌∷◌ (weight_for w t.severity)) (weights_of-severities ts)

    sorted-severities :
        (ts : List TriggeredRule)
        → sort_by before_lighter (weights_of w ts)
          ≡ map (weight_for w) (sort ⦃o = heavier_order⦄ (severities ts))
    unfolding heavier_order
    sorted-severities ts =
        rw (weights_of-severities ts)
          (sym (map-sort_by (weight_for w) before_lighter (severities ts)))

    sort-severities :
        {ts us : List TriggeredRule}
        → Separates w
        → Perm ts us
        → sort ⦃o = heavier_order⦄ (severities ts) ≡ sort ⦃o = heavier_order⦄ (severities us)
    unfolding heavier_order
    sort-severities separates p =
        sort-eq_of_perm ⦃o = heavier_order⦄ (λ x y mx my h k. separates x y k h)
          (Perm.map (λ (r : TriggeredRule). r.severity) p)

    -- The score forgets the order of the triggers, if no two severities weigh the same.
    pub compute_score-perm :
        Separates w
        → (ts us : List TriggeredRule) → Perm ts us
        → compute_score ts w ≡ compute_score us w
    compute_score-perm separates [] us p = ap (λ l. compute_score l w) (Perm.nil-eq p)
    compute_score-perm separates (t ∷ ts) [] p = ap (λ l. compute_score l w) (Perm.eq-nil p)
    compute_score-perm separates (t ∷ ts) (u ∷ us) p =
        compute_score-cons laws w proper t ts
        ∙ ap (λ ws. some (normalize w (raw_from 0 (f64.of_nat 0) ws)))
            (sorted-severities (t ∷ ts)
              ∙ ap (map (weight_for w)) (sort-severities separates p)
              ∙ sym (sorted-severities (u ∷ us)))
        ∙ sym (compute_score-cons laws w proper u us)
