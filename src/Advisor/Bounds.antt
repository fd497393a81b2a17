-- ===== src/Advisor/Bounds.antt =====
-- What holds of every recommendation of `AdvisorService`, whatever the model has answered.
use stellartrace.Prelude.{
  ℕ, zero, suc, All, length, false, ◌⊎◌, inl, inr, ◌≤◌, ◌≡◌, refl, String, List, [], ◌∷◌, arith,
  take,
}
use stellartrace.Prelude.Outcome.{
  Result, ok, fail, done, Ensures, Run, Ensures-bind, Ensures-mono, Ensures-trivial, Ends,
  Ends-bind, run_all,
}
use stellartrace.Prelude.Substring.{char_count, take_chars}
use stellartrace.Prelude.Substring.Append.{char_count-take_chars-le}
use stellartrace.Platform.{Float, Unicode, IsIeee}
use stellartrace.Common.{AiRecommendation, ai_advisory_label}
use stellartrace.Advisor.Context.{AiContext}
use stellartrace.Advisor.Sanitize.{
  clean_field, neutralize_action_language, strip_markup, sanitize_recommendation, max_field_len,
  max_list_items,
}
use stellartrace.Advisor.Ends.{clean_field-Ends}
use stellartrace.Advisor.Service.{
  AiAdvisor, AiAdvisorError, fallback_recommendation, answered, investigate,
}
use stellartrace.Advisor.Advice.{IsUnit, clamp_unit-IsUnit, finite_or_zero}

abbrev pub IsShort : String → Type 0
IsShort s = char_count s ≤ max_field_len

abbrev pub IsShortList : List String → Type 0
IsShortList xs = All IsShort xs × (length xs ≤ max_list_items)

module _ {A B : Type 0} (Q : B → Type 0) (f : A → Run B) where
  run_all-Ensures :
      ((a : A) → Ensures Q (f a))
      → (xs : List A) → Ensures (λ ys. All Q ys × (length ys ≡ length xs)) (run_all f xs)
  unfolding run_all
  run_all-Ensures each [] = (tt, refl)
  run_all-Ensures each (x ∷ xs) = Ensures-bind Q _ (f x) _ (each x) (λ y q.
      Ensures-bind (λ ys. All Q ys × (length ys ≡ length xs)) _ (run_all f xs) _
        (run_all-Ensures each xs) (λ ys (qs, n). ((q, qs), omega arith)))

length-take-le : (n : ℕ) (xs : List String) → length (take n xs) ≤ n
length-take-le zero xs = omega arith
length-take-le (suc n) [] = omega arith
length-take-le (suc n) (x ∷ xs) = omega (arith, length-take-le n xs)

module _ {F T : Type 0} ⦃f64 : Float F⦄ where
  -- A recommendation that carries the label, a confidence from 0 to 1 and short texts, with at most 20
  -- short steps and signals. Only a fallback, which says that no model was available, may have longer
  -- and more signals.
  pub record IsAdvisory (rec : AiRecommendation F T) : Type 0 where
    pub label : rec.label ≡ ai_advisory_label
    pub confidence : IsUnit rec.confidence
    pub summary : IsShort rec.summary
    pub relevant_history_context : IsShort rec.relevant_history_context
    pub risk_assessment : IsShort rec.risk_assessment
    pub explanation : IsShort rec.explanation
    pub steps : IsShortList rec.recommended_next_steps
    pub signals : IsShortList rec.suspicious_signals ⊎ (rec.model_available ≡ false)

module _ ⦃unicode : Unicode⦄ where
  clean_field-IsShort : (s : String) → Ensures IsShort (clean_field s)
  unfolding clean_field
  clean_field-IsShort s =
      Ensures-bind (λ t. Unit {0}) IsShort (neutralize_action_language (strip_markup s))
        (λ t. done (take_chars max_field_len t))
        (Ensures-trivial _ (neutralize_action_language (strip_markup s)) (λ t. tt))
        (λ t _. char_count-take_chars-le max_field_len t)

  run_all-Ends : (xs : List String) → Ends (run_all clean_field xs)
  unfolding run_all
  run_all-Ends [] = tt
  run_all-Ends (x ∷ xs) =
      Ends-bind (clean_field x) _ (clean_field-Ends x)
        (λ y. Ends-bind (run_all clean_field xs) _ (run_all-Ends xs) (λ ys. tt))

  clean_list-IsShort :
      (xs : List String) → Ensures IsShortList (run_all clean_field (take max_list_items xs))
  clean_list-IsShort xs =
      Ensures-mono _ IsShortList (run_all clean_field (take max_list_items xs))
        (run_all-Ensures IsShort clean_field clean_field-IsShort (take max_list_items xs))
        (λ ys (short, n). (short, omega (arith, length-take-le max_list_items xs)))

  module _ {F T : Type 0} ⦃f64 : Float F⦄ where
    sanitize_recommendation-IsAdvisory :
        IsIeee F → (rec : AiRecommendation F T) → Ensures IsAdvisory (sanitize_recommendation rec)
    unfolding sanitize_recommendation
    sanitize_recommendation-IsAdvisory laws rec =
        Ensures-bind IsShort _ (clean_field rec.summary) _ (clean_field-IsShort rec.summary)
          (λ summary h1.
            Ensures-bind IsShort _ (clean_field rec.relevant_history_context) _
              (clean_field-IsShort rec.relevant_history_context)
              (λ history h2.
                Ensures-bind IsShort _ (clean_field rec.risk_assessment) _
                  (clean_field-IsShort rec.risk_assessment)
                  (λ risk h3.
                    Ensures-bind IsShort _ (clean_field rec.explanation) _
                      (clean_field-IsShort rec.explanation)
                      (λ explanation h4.
                        let signals =
                          run_all clean_field (take max_list_items rec.suspicious_signals) in
                        let steps =
                          run_all clean_field (take max_list_items rec.recommended_next_steps) in
                        Ensures-bind IsShortList _ signals _
                          (clean_list-IsShort rec.suspicious_signals)
                          (λ ys h5.
                            Ensures-bind IsShortList _ steps _
                              (clean_list-IsShort rec.recommended_next_steps)
                              (λ zs h6. record {
                                label = refl;
                                confidence =
                                    clamp_unit-IsUnit laws _ (finite_or_zero laws rec.confidence);
                                summary = h1;
                                relevant_history_context = h2;
                                risk_assessment = h3;
                                explanation = h4;
                                steps = h6;
                                signals = inl h5;
                              }))))))

    fallback-IsAdvisory :
        IsIeee F
        → (now : T) (context : AiContext F T) → IsAdvisory (fallback_recommendation now context)
    unfolding fallback_recommendation char_count
    fallback-IsAdvisory laws now context = record {
      label = refl;
      confidence = (laws.of_nat_mono 0 0 (omega arith), laws.of_nat_mono 0 1 (omega arith));
      summary = omega arith;
      relevant_history_context = omega arith;
      risk_assessment = omega arith;
      explanation = omega arith;
      steps = ((omega arith, (omega arith, tt)), omega arith);
      signals = inr refl;
    }

    answered-IsAdvisory :
        IsIeee F
        → (now : T) (context : AiContext F T)
          (answer : Result (AiRecommendation F T) AiAdvisorError)
        → Ensures IsAdvisory (answered now context answer)
    answered-IsAdvisory laws now context (ok rec) = sanitize_recommendation-IsAdvisory laws rec
    answered-IsAdvisory laws now context (fail e) = fallback-IsAdvisory laws now context

    pub investigate-IsAdvisory :
        IsIeee F
        → (primary : AiAdvisor F T) (now : T) (context : AiContext F T)
        → Ensures IsAdvisory (investigate primary now context)
    unfolding investigate
    investigate-IsAdvisory laws primary now context =
        Ensures-bind (λ answer. Unit {0}) IsAdvisory (primary context) (answered now context)
          (Ensures-trivial _ (primary context) (λ answer. tt))
          (λ answer _. answered-IsAdvisory laws now context answer)

    sanitize_recommendation-Ends : (rec : AiRecommendation F T) → Ends (sanitize_recommendation rec)
    unfolding sanitize_recommendation
    sanitize_recommendation-Ends rec =
        Ends-bind (clean_field rec.summary) _ (clean_field-Ends rec.summary) (λ summary.
          Ends-bind (clean_field rec.relevant_history_context) _
            (clean_field-Ends rec.relevant_history_context)
            (λ history.
              Ends-bind (clean_field rec.risk_assessment) _ (clean_field-Ends rec.risk_assessment)
                (λ risk.
                  Ends-bind (clean_field rec.explanation) _ (clean_field-Ends rec.explanation)
                    (λ explanation.
                      Ends-bind (run_all clean_field (take max_list_items rec.suspicious_signals)) _
                        (run_all-Ends (take max_list_items rec.suspicious_signals))
                        (λ signals.
                          Ends-bind
                            (run_all clean_field (take max_list_items rec.recommended_next_steps)) _
                            (run_all-Ends (take max_list_items rec.recommended_next_steps))
                            (λ steps. tt))))))

    answered-Ends :
        (now : T) (context : AiContext F T) (answer : Result (AiRecommendation F T) AiAdvisorError)
        → Ends (answered now context answer)
    answered-Ends now context (ok rec) = sanitize_recommendation-Ends rec
    answered-Ends now context (fail e) = tt

    -- If the primary advisor ends, so does the service, in a recommendation or a panic, whatever the
    -- answer and whatever lower case is: the fuel of the sanitizer's loops is enough.
    pub investigate-Ends :
        (primary : AiAdvisor F T) (now : T) (context : AiContext F T)
        → Ends (primary context)
        → Ends (investigate primary now context)
    unfolding investigate
    investigate-Ends primary now context ends =
        Ends-bind (primary context) (answered now context) ends (answered-Ends now context)
