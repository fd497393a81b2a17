-- ===== src/Rules/Windows.antt =====
-- How the counting rules read the history: more history never silences them, and who sent the
-- counted transactions plays no part.
use text.Mathlib.TextLemmas.{append_cancel_left, append_cancel_right}
use stellartrace.Prelude.Text.{format}
use stellartrace.Prelude.{
  ap, ◌||◌, ◌+◌, ◌≤◌, ◌≡◌, ◌≢◌, ◌↔◌, refl, Bool, true, false, none, String, List, [], ◌∷◌, ◌++◌,
  All, filter, length, count, filter-append, count-append, option_beq, string_eq, arith,
}
use stellartrace.Prelude.HashMap.{HashMap}
use stellartrace.Platform.{Float, Chrono, ◌<F◌}
use stellartrace.Common.{NormalizedTransaction, TriggeredRule, amount_f64}
use stellartrace.Rules.Config.{RulesConfig}
use stellartrace.Rules.Context.{RuleContext, in_window}
use stellartrace.Rules.Amounts.{first_exceeded, configurable_threshold, threshold_trigger}
use stellartrace.Rules.Activity.{repeated_transaction, abnormal_frequency}
use stellartrace.Rules.Accounts.{sent_before, new_account_high_value_outflow}

-- The context with further transactions in the middle of its history.
abbrev pub with_more :
    {T : Type 0} → List String → (newer more older : List (NormalizedTransaction T)) → RuleContext T
with_more flagged newer more older = record {
  account_history = newer ++ (more ++ older);
  flagged_accounts = flagged;
}

count_more :
    {A : Type 0} (p : A → Bool) (xs ys zs : List A)
    → count p (xs ++ (ys ++ zs)) ≡ count p xs + count p ys + count p zs
count_more p xs ys zs = omega (arith, count-append {0} p xs (ys ++ zs), count-append {0} p ys zs)

filter-count_more :
    {A : Type 0} (q w : A → Bool) (xs ys zs : List A)
    → count q (filter w (xs ++ (ys ++ zs)))
      ≡ count q (filter w xs) + count q (filter w ys) + count q (filter w zs)
filter-count_more q w xs ys zs =
    rw (filter-append w xs (ys ++ zs), filter-append w ys zs)
      (count_more q (filter w xs) (filter w ys) (filter w zs))

module _ {F T : Type 0} ⦃f64 : Float F⦄ ⦃chrono : Chrono T⦄ (tx : NormalizedTransaction T)
    (config : RulesConfig F) (flagged : List String)
    (newer more older : List (NormalizedTransaction T)) where
  -- A frequency or repetition trigger stays when further transactions enter the history, whatever
  -- they are. The rule for new accounts goes the other way: a trigger stays when some leave it.
  pub triggers-monotone :
      (abnormal_frequency tx (with_more flagged newer [] older) config ≢ none
        → abnormal_frequency tx (with_more flagged newer more older) config ≢ none)
      × (repeated_transaction tx (with_more flagged newer [] older) config ≢ none
          → repeated_transaction tx (with_more flagged newer more older) config ≢ none)
      × (new_account_high_value_outflow tx (with_more flagged newer more older) config ≢ none
          → new_account_high_value_outflow tx (with_more flagged newer [] older) config ≢ none)
  unfolding abnormal_frequency repeated_transaction new_account_high_value_outflow
  triggers-monotone = (
    λ fired. ground (
      arith,
      count_more (in_window tx.timestamp config.frequency_window_secs) newer more older,
      count_more (in_window tx.timestamp config.frequency_window_secs) newer [] older,
    ),
    λ fired. ground (
      arith,
      filter-count_more (λ h. option_beq h.destination_account tx.destination_account)
          (in_window tx.timestamp config.repeated_tx_window_secs) newer more older,
      filter-count_more (λ h. option_beq h.destination_account tx.destination_account)
          (in_window tx.timestamp config.repeated_tx_window_secs) newer [] older,
    ),
    λ fired. ground (
      arith,
      count_more (sent_before tx) newer more older,
      count_more (sent_before tx) newer [] older,
    ),
  )

module _ {F T : Type 0} ⦃chrono : Chrono T⦄ (tx : NormalizedTransaction T)
    (config : RulesConfig F) where
  length-filter-All :
      (w : NormalizedTransaction T → Bool) (l : List (NormalizedTransaction T))
      → All (λ h. w h ≡ true) l
      → length (filter w l) ≡ length l
  length-filter-All w [] h = refl
  length-filter-All w (x ∷ l) h = ground (arith, length-filter-All w l h.1)

  -- An account that has sent nothing is reported as transacting too often, as soon as it has
  -- received enough: every transaction of the window counts, whoever sent it.
  pub abnormal_frequency-counts_received :
      (ctx : RuleContext T)
      → All
          (λ h.
            (h.source_account ≢ tx.source_account)
            × (in_window tx.timestamp config.frequency_window_secs h ≡ true))
          ctx.account_history
      → config.frequency_count_threshold ≤ length ctx.account_history + 1
      → abnormal_frequency tx ctx config ≢ none
  unfolding abnormal_frequency
  abnormal_frequency-counts_received ctx received enough = ground (
    arith,
    length-filter-All (in_window tx.timestamp config.frequency_window_secs) ctx.account_history
        (second ctx.account_history received),
  )
    where
      second :
          (l : List (NormalizedTransaction T))
          → All
              (λ h.
                (h.source_account ≢ tx.source_account)
                × (in_window tx.timestamp config.frequency_window_secs h ≡ true))
              l
          → All (λ h. in_window tx.timestamp config.frequency_window_secs h ≡ true) l
      second [] h = tt
      second (x ∷ l) (here, rest) = (here.1, second l rest)

label_injective :
    (s t : String)
    → format ("Configurable Threshold: " ∷ s ∷ []) ≡ format ("Configurable Threshold: " ∷ t ∷ [])
    → s ≡ t
unfolding format
label_injective s t h =
    append_cancel_right s t "" (append_cancel_left "Configurable Threshold: " _ _ h)

module _ {F T : Type 0} ⦃f64 : Float F⦄ (tx : NormalizedTransaction T) (ctx : RuleContext T) where
  -- some named threshold is below the amount
  abbrev pub exceeds_some : HashMap String F → Bool
  exceeds_some [] = false
  exceeds_some ((name, threshold) ∷ rest) =
      (threshold <F amount_f64 {F = F} tx) || exceeds_some rest

  first_exceeded-fires :
      (m : HashMap String F) → (first_exceeded tx m ≢ none) ↔ (exceeds_some m ≡ true)
  unfolding first_exceeded
  first_exceeded-fires [] = (λ h. absurd (h refl), λ h. cc)
  first_exceeded-fires ((name, threshold) ∷ m) = (
    λ h. ground (arith, (first_exceeded-fires m).0),
    λ h. ground (arith, (first_exceeded-fires m).1),
  )

  -- The configurable rule fires exactly when the amount exceeds some threshold of the map.
  pub configurable_threshold-fires :
      (config : RulesConfig F)
      → (configurable_threshold tx ctx config ≢ none)
        ↔ (exceeds_some config.custom_thresholds ≡ true)
  unfolding configurable_threshold
  configurable_threshold-fires config = first_exceeded-fires config.custom_thresholds

  -- Where the amount exceeds two thresholds of different names, the two orders in which the map
  -- may iterate give two different triggers.
  pub configurable_threshold-order_matters :
      (config : RulesConfig F) (name other : String) (threshold limit : F)
      → name ≢ other
      → (threshold <F amount_f64 {F = F} tx) ≡ true
      → (limit <F amount_f64 {F = F} tx) ≡ true
      → configurable_threshold tx ctx
          (record config { custom_thresholds = (name, threshold) ∷ (other, limit) ∷ [] })
        ≢ configurable_threshold tx ctx
            (record config { custom_thresholds = (other, limit) ∷ (name, threshold) ∷ [] })
  unfolding configurable_threshold
  configurable_threshold-order_matters config name other threshold limit differ over above e =
      let one : threshold_trigger tx name threshold ≡ threshold_trigger tx other limit =
        ground arith in
      differ (label_injective name other (ap (λ (t : TriggeredRule). t.rule_name) one))
