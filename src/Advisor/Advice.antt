-- ===== src/Advisor/Advice.antt =====
-- What `AdvisorService` of crates/ai_advisor/src/lib.rs makes of an answer.
use stellartrace.Prelude.{
  false, ◌∙◌, ℕ, zero, suc, ◌≡◌, refl, true, not, String, List, [], ◌∷◌, All, take, arith,
  if◌then◌else◌, Bool-cases, inl, inr,
}
use stellartrace.Prelude.Outcome.{
  done, panicked, unfinished, Run, Returns, Returns-bind, Returns-mono, run_all,
}
use stellartrace.Prelude.Substring.{IsAscii}
use stellartrace.Platform.{Float, Unicode, IsIeee, IsUnicode, ◌≤F◌}
use stellartrace.Common.{AiRecommendation, ai_advisory_label}
use stellartrace.Advisor.Sanitize.{clean_field, sanitize_recommendation, clamp_unit, max_list_items}
use stellartrace.Advisor.Clean.{IsClean, clean_field-IsClean}

-- The items at each position of two lists of one length are related.
abbrev pub All₂ : {A B : Type 0} → (A → B → Type 0) → List A → List B → Type 0
All₂ R [] [] = Unit {0}
All₂ R [] (y ∷ ys) = ⊥
All₂ R (x ∷ xs) [] = ⊥
All₂ R (x ∷ xs) (y ∷ ys) = R x y × All₂ R xs ys

module _ {F : Type 0} ⦃f64 : Float F⦄ where
  -- a number from 0 to 1
  abbrev pub IsUnit : F → Type 0
  IsUnit x = ((f64.of_nat 0 ≤F x) ≡ true) × ((x ≤F f64.of_nat 1) ≡ true)

  pub clamp_unit-IsUnit : IsIeee F → (x : F) → (x ≤F x) ≡ true → IsUnit (clamp_unit x)
  clamp_unit-IsUnit laws x number =
      let zero_le_one = laws.of_nat_mono 0 1 (omega arith) in
      let zero_le_zero = laws.of_nat_mono 0 0 (omega arith) in
      let one_le_one = laws.of_nat_mono 1 1 (omega arith) in
      ground (
        arith,
        laws.lt-eq-not-le x (f64.of_nat 0) number zero_le_zero,
        laws.lt-eq-not-le (f64.of_nat 1) x one_le_one number,
        laws.lt-eq-not-le (f64.of_nat 1) (f64.of_nat 0) one_le_one zero_le_zero,
      )

  -- What becomes of a confidence: a number from 0 to 1 stays, one outside goes to the nearer end, and
  -- what is no finite number goes to 0.
  pub record IsClampOf (x y : F) : Type 0 where
    pub unit : IsUnit y
    pub inside : f64.is_finite x ≡ true → IsUnit x → y ≡ x
    pub below : f64.is_finite x ≡ true → (f64.of_nat 0 ≤F x) ≡ false → y ≡ f64.of_nat 0
    pub above : f64.is_finite x ≡ true → (x ≤F f64.of_nat 1) ≡ false → y ≡ f64.of_nat 1
    pub no_number : f64.is_finite x ≡ false → y ≡ f64.of_nat 0

  -- the confidence that is clamped
  pub finite_or_zero :
      IsIeee F
      → (x : F) → (let y = if not (f64.is_finite x) then f64.of_nat 0 else x in (y ≤F y) ≡ true)
  finite_or_zero laws x = elim (Bool-cases (f64.is_finite x)) [
    | inl e ↦ rw e (laws.finite_refl x e)
    | inr e ↦ rw e (laws.of_nat_mono 0 0 (omega arith))
  ]

module _ {F : Type 0} ⦃f64 : Float F⦄ where
  -- the confidence that `sanitize_recommendation` writes
  abbrev pub clamped : F → F
  clamped x = clamp_unit (if not (f64.is_finite x) then f64.of_nat 0 else x)

  clamped-finite : (x : F) → f64.is_finite x ≡ true → clamped x ≡ clamp_unit x
  clamped-finite x e = rw e refl

  clamp_unit-zero : IsIeee F → clamp_unit (f64.of_nat 0) ≡ f64.of_nat 0
  clamp_unit-zero laws =
      let zero_le_zero = laws.of_nat_mono 0 0 (omega arith) in
      let one_le_one = laws.of_nat_mono 1 1 (omega arith) in
      ground (
        arith,
        laws.of_nat_mono 0 1 (omega arith),
        laws.lt-eq-not-le (f64.of_nat 0) (f64.of_nat 0) zero_le_zero zero_le_zero,
        laws.lt-eq-not-le (f64.of_nat 1) (f64.of_nat 0) one_le_one zero_le_zero,
      )

  clamp_unit-cases :
      IsIeee F
      → (x : F) → (x ≤F x) ≡ true
      → (IsUnit x → clamp_unit x ≡ x)
        × (((f64.of_nat 0 ≤F x) ≡ false → clamp_unit x ≡ f64.of_nat 0)
            × ((x ≤F f64.of_nat 1) ≡ false → clamp_unit x ≡ f64.of_nat 1))
  clamp_unit-cases laws x number =
      let zero_le_one = laws.of_nat_mono 0 1 (omega arith) in
      let zero_le_zero = laws.of_nat_mono 0 0 (omega arith) in
      let one_le_one = laws.of_nat_mono 1 1 (omega arith) in
      let below_zero = laws.lt-eq-not-le x (f64.of_nat 0) number zero_le_zero in
      let above_one = laws.lt-eq-not-le (f64.of_nat 1) x one_le_one number in
      let one_zero = laws.lt-eq-not-le (f64.of_nat 1) (f64.of_nat 0) one_le_one zero_le_zero in
      (
        λ (unit : IsUnit x). ground (arith, below_zero, above_one),
        (
          λ low. ground (arith, below_zero, one_zero, zero_le_one),
          λ high. ground (
            arith,
            below_zero,
            above_one,
            laws.le_total x (f64.of_nat 1) number one_le_one,
            laws.le_trans (f64.of_nat 0) (f64.of_nat 1) x zero_le_one,
          ),
        ),
      )

  clamped-IsClampOf : IsIeee F → (x : F) → IsClampOf x (clamped x)
  clamped-IsClampOf laws x = record {
    unit = clamp_unit-IsUnit laws _ (finite_or_zero laws x);
    inside = λ e unit. clamped-finite x e ∙ (clamp_unit-cases laws x (laws.finite_refl x e)).0 unit;
    below = λ e low. clamped-finite x e ∙ (clamp_unit-cases laws x (laws.finite_refl x e)).1.0 low;
    above =
        λ e high. clamped-finite x e ∙ (clamp_unit-cases laws x (laws.finite_refl x e)).1.1 high;
    no_number = λ e. rw e (clamp_unit-zero laws);
  }

-- The text is clean, and it is what cleaning makes of the given one.
abbrev pub IsCleanOf : ⦃unicode : Unicode⦄ → String → String → Type 0
IsCleanOf s out = IsClean out × (clean_field s ≡ done out)

-- The first 20 texts of the given list, or all if there are fewer, each cleaned, in their order.
abbrev pub IsCleanListOf : ⦃unicode : Unicode⦄ → List String → List String → Type 0
IsCleanListOf xs out = All₂ IsCleanOf (take max_list_items xs) out

module _ {F T : Type 0} ⦃f64 : Float F⦄ where
  -- Every text of the recommendation is ASCII.
  pub record IsAsciiAdvice (rec : AiRecommendation F T) : Type 0 where
    pub summary : IsAscii rec.summary
    pub relevant_history_context : IsAscii rec.relevant_history_context
    pub risk_assessment : IsAscii rec.risk_assessment
    pub explanation : IsAscii rec.explanation
    pub suspicious_signals : All IsAscii rec.suspicious_signals
    pub recommended_next_steps : All IsAscii rec.recommended_next_steps

  -- `out` is `rec` for the same alert, labelled, with each text and list cleaned from its own.
  pub record IsSanitized ⦃unicode : Unicode⦄ (rec out : AiRecommendation F T) : Type 0 where
    pub alert : out.alert_id ≡ rec.alert_id
    pub available : out.model_available ≡ rec.model_available
    pub generated : out.generated_at ≡ rec.generated_at
    pub summary : IsCleanOf rec.summary out.summary
    pub relevant_history_context :
        IsCleanOf rec.relevant_history_context out.relevant_history_context
    pub risk_assessment : IsCleanOf rec.risk_assessment out.risk_assessment
    pub explanation : IsCleanOf rec.explanation out.explanation
    pub suspicious_signals : IsCleanListOf rec.suspicious_signals out.suspicious_signals
    pub recommended_next_steps : IsCleanListOf rec.recommended_next_steps out.recommended_next_steps
    pub label : out.label ≡ ai_advisory_label
    pub confidence : IsClampOf rec.confidence out.confidence

module _ {A B : Type 0} (P : A → Type 0) (R : A → B → Type 0) (f : A → Run B) where
  run_all-Returns :
      ((a : A) → P a → Returns (R a) (f a))
      → (xs : List A) → All P xs
      → Returns (All₂ R xs) (run_all f xs)
  unfolding run_all
  run_all-Returns each [] h = tt
  run_all-Returns each (x ∷ xs) (here, h) =
      Returns-bind (R x) (All₂ R (x ∷ xs)) (f x) _ (each x here) (λ y r.
        Returns-bind (All₂ R xs) (All₂ R (x ∷ xs)) (run_all f xs) _ (run_all-Returns each xs h)
          (λ ys rs. (r, rs)))

-- What a run returns, with the run that returns it.
Returns-self :
    {A : Type 0} (P : A → Type 0) (r : Run A) → Returns P r → Returns (λ a. P a × (r ≡ done a)) r
Returns-self P (done a) h = (h, refl)
Returns-self P panicked h = h
Returns-self P unfinished h = h

All-take : (P : String → Type 0) (n : ℕ) (xs : List String) → All P xs → All P (take n xs)
All-take P zero xs h = tt
All-take P (suc n) [] h = tt
All-take P (suc n) (x ∷ xs) (here, h) = (here, All-take P n xs h)

module _ ⦃unicode : Unicode⦄ (unicode_laws : IsUnicode) where
  cleaned : (s : String) → IsAscii s → Returns (IsCleanOf s) (clean_field s)
  cleaned s ascii = Returns-self IsClean (clean_field s) (
      Returns-mono _ IsClean (clean_field s) (λ out h. h.0)
        (clean_field-IsClean unicode_laws s ascii))

  cleaned_list :
      (xs : List String)
      → All IsAscii xs
      → Returns (IsCleanListOf xs) (run_all clean_field (take max_list_items xs))
  cleaned_list xs ascii =
      run_all-Returns IsAscii IsCleanOf clean_field cleaned (take max_list_items xs)
        (All-take IsAscii max_list_items xs ascii)

  module _ {F T : Type 0} ⦃f64 : Float F⦄ (laws : IsIeee F) where
    -- A recommendation whose texts are ASCII is sanitized without a panic.
    pub sanitize_recommendation-IsSanitized :
        (rec : AiRecommendation F T)
        → IsAsciiAdvice rec
        → Returns (IsSanitized rec) (sanitize_recommendation rec)
    unfolding sanitize_recommendation
    sanitize_recommendation-IsSanitized rec ascii =
        Returns-bind (IsCleanOf rec.summary) _ (clean_field rec.summary) _
          (cleaned rec.summary ascii.summary)
          (λ summary h1.
            Returns-bind (IsCleanOf rec.relevant_history_context) _
              (clean_field rec.relevant_history_context) _
              (cleaned _ ascii.relevant_history_context)
              (λ history h2.
                Returns-bind (IsCleanOf rec.risk_assessment) _ (clean_field rec.risk_assessment) _
                  (cleaned _ ascii.risk_assessment)
                  (λ risk h3.
                    Returns-bind (IsCleanOf rec.explanation) _ (clean_field rec.explanation) _
                      (cleaned _ ascii.explanation)
                      (λ explanation h4.
                        Returns-bind (IsCleanListOf rec.suspicious_signals) _
                          (run_all clean_field (take max_list_items rec.suspicious_signals)) _
                          (cleaned_list _ ascii.suspicious_signals)
                          (λ signals h5.
                            Returns-bind (IsCleanListOf rec.recommended_next_steps) _
                              (run_all clean_field (take max_list_items rec.recommended_next_steps))
                              _ (cleaned_list _ ascii.recommended_next_steps)
                              (λ steps h6. record {
                                alert = refl;
                                available = refl;
                                generated = refl;
                                summary = h1;
                                relevant_history_context = h2;
                                risk_assessment = h3;
                                explanation = h4;
                                suspicious_signals = h5;
                                recommended_next_steps = h6;
                                label = refl;
                                confidence = clamped-IsClampOf laws rec.confidence;
                              }))))))
