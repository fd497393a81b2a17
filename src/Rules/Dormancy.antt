-- ===== src/Rules/Dormancy.antt =====
-- When the dormancy rule fires: the latest transfer of the account before this one is long ago.
use mathlib.Core.List.{not-mem-nil, Mem, mem-cons, mem-cons_self, mem-cons_of_mem}
use mathlib.Core.Logic.Or
use stellartrace.Prelude.{
  ◌≡◌, ◌≢◌, refl, true, false, none, some, List, [], ◌∷◌, All, All-mem, filter, filter-mem,
  mem-filter_of, string_eq, Option-cases, Bool-cases, inl, inr, ◌⊎◌, arith, if◌then◌else◌,
}
use stellartrace.Prelude.Int.{leb_ℤ, leb_ℤ-trans}
use stellartrace.Platform.{Float, Chrono, IsTimeline, ◌<F◌}
use stellartrace.Common.{NormalizedTransaction, TriggeredRule, amount_f64}
use stellartrace.Rules.Config.{RulesConfig}
use stellartrace.Rules.Context.{RuleContext}
use stellartrace.Rules.Accounts.{sent_before, latest_from, latest, dormant_account_reactivation}

module _ {T : Type 0} ⦃chrono : Chrono T⦄ (laws : IsTimeline T) where
  at_most_refl : (a : T) → chrono.at_most a a ≡ true
  at_most_refl a = ground (arith, laws.at_most_total a a)

  at_most_of_before : (a b : T) → chrono.before a b ≡ true → chrono.at_most a b ≡ true
  at_most_of_before a b h = ground (arith, laws.before-eq-not-at_most a b, laws.at_most_total a b)

  at_most_of_not-before : (a b : T) → chrono.before a b ≡ false → chrono.at_most b a ≡ true
  at_most_of_not-before a b h = ground (arith, laws.before-eq-not-at_most a b)

  sent_before-at_most :
      (tx h : NormalizedTransaction T)
      → sent_before tx h ≡ true
      → chrono.at_most h.timestamp tx.timestamp ≡ true
  unfolding sent_before
  sent_before-at_most tx h e = at_most_of_before h.timestamp tx.timestamp (ground arith)

  abbrev later_of : NormalizedTransaction T → NormalizedTransaction T → NormalizedTransaction T
  later_of best h = if chrono.before h.timestamp best.timestamp then best else h

  later_of-greatest :
      (best h : NormalizedTransaction T)
      → (chrono.at_most best.timestamp (later_of best h).timestamp ≡ true)
        × (chrono.at_most h.timestamp (later_of best h).timestamp ≡ true)
  later_of-greatest best h = ground (
    arith,
    at_most_refl best.timestamp,
    at_most_refl h.timestamp,
    at_most_of_before h.timestamp best.timestamp,
    at_most_of_not-before h.timestamp best.timestamp,
  )

  -- Nothing in the list is later than what `max_by_key` returns.
  latest_from-greatest :
      (best : NormalizedTransaction T) (l : List (NormalizedTransaction T))
      → (chrono.at_most best.timestamp (latest_from best l).timestamp ≡ true)
        × All (λ h. chrono.at_most h.timestamp (latest_from best l).timestamp ≡ true) l
  unfolding latest_from
  latest_from-greatest best [] = (at_most_refl best.timestamp, tt)
  latest_from-greatest best (h ∷ l) =
      let (top, rest) = latest_from-greatest (later_of best h) l in
      let (first, second) = later_of-greatest best h in
      (
        laws.at_most_trans best.timestamp (later_of best h).timestamp _ first top,
        (laws.at_most_trans h.timestamp (later_of best h).timestamp _ second top, rest),
      )

  latest_from-mem :
      (best : NormalizedTransaction T) (l : List (NormalizedTransaction T))
      → Mem (latest_from best l) (best ∷ l)
  unfolding latest_from
  latest_from-mem best [] = mem-cons_self
  latest_from-mem best (h ∷ l) = elim (Bool-cases (chrono.before h.timestamp best.timestamp)) [
    | inl older ↦
        rw (older, latest_from)
          (Or.elim squash₁ (mem-cons.0 (latest_from-mem best l)) (λ e. rw e mem-cons_self)
            (λ m. mem-cons_of_mem best (mem-cons_of_mem h m)))
    | inr newer ↦ rw (newer, latest_from) (mem-cons_of_mem best (latest_from-mem h l))
  ]

  latest-cases :
      (l : List (NormalizedTransaction T))
      → (latest l ≡ none)
        ⊎ ((last : NormalizedTransaction T) × (latest l ≡ some last)
            × Mem last l
            × ((h : NormalizedTransaction T)
                → Mem h l
                → chrono.at_most h.timestamp last.timestamp ≡ true))
  latest-cases [] = inl refl
  latest-cases (b ∷ l) = inr (
    latest_from b l,
    refl,
    latest_from-mem b l,
    λ h m.
        All-mem (λ k. chrono.at_most k.timestamp (latest_from b l).timestamp ≡ true) (λ k. hlevel)
          (b ∷ l) (latest_from-greatest b l) m,
  )

latest-some :
    {T : Type 0} ⦃chrono : Chrono T⦄ (l : List (NormalizedTransaction T))
    {h : NormalizedTransaction T}
    → Mem h l
    → latest l ≢ none
latest-some [] m e = not-mem-nil m
latest-some (b ∷ l) m e = cc

module _ {F T : Type 0} ⦃f64 : Float F⦄ ⦃chrono : Chrono T⦄ (tx : NormalizedTransaction T)
    (ctx : RuleContext T) (config : RulesConfig F) where
  -- The amount reaches the minimum. Some transfer of the same account is on record before this one, and
  -- every such transfer is at least the configured gap older.
  pub record IsDormant : Type 0 where
    pub reaches : (amount_f64 {F = F} tx <F config.dormant_reactivation_min_amount) ≡ false
    pub last_prior : NormalizedTransaction T
    pub recorded : Mem last_prior ctx.account_history
    pub sent : sent_before tx last_prior ≡ true
    pub gap :
        (h : NormalizedTransaction T)
        → Mem h ctx.account_history
        → sent_before tx h ≡ true
        → leb_ℤ config.dormant_reactivation_gap_secs (chrono.num_seconds tx.timestamp h.timestamp)
          ≡ true

  dormant_sound :
      IsTimeline T
      → (t : TriggeredRule) → dormant_account_reactivation tx ctx config ≡ some t
      → IsDormant
  unfolding dormant_account_reactivation
  dormant_sound laws t fired =
      elim (latest-cases laws (filter (sent_before tx) ctx.account_history)) [
        | inl nothing ↦ absurd (ground arith)
        | inr (last_prior, found, inside, greatest) ↦
            let (recorded, sent) = filter-mem (sent_before tx) ctx.account_history inside in
            let gap : leb_ℤ config.dormant_reactivation_gap_secs
                  (chrono.num_seconds tx.timestamp last_prior.timestamp)
                ≡ true =
              ground arith in
            record {
              reaches = ground arith;
              last_prior = last_prior;
              recorded = recorded;
              sent = sent;
              gap = λ h m before.
                  leb_ℤ-trans config.dormant_reactivation_gap_secs
                    (chrono.num_seconds tx.timestamp last_prior.timestamp)
                    (chrono.num_seconds tx.timestamp h.timestamp) gap
                    (laws.num_seconds_mono tx.timestamp h.timestamp last_prior.timestamp
                      (greatest h (mem-filter_of (sent_before tx) ctx.account_history m before))
                      (sent_before-at_most laws tx last_prior sent));
            }
      ]

  dormant_complete : IsTimeline T → IsDormant → dormant_account_reactivation tx ctx config ≢ none
  unfolding dormant_account_reactivation
  dormant_complete laws d =
      let inside : Mem d.last_prior (filter (sent_before tx) ctx.account_history) =
        mem-filter_of (sent_before tx) ctx.account_history d.recorded d.sent in
      elim (latest-cases laws (filter (sent_before tx) ctx.account_history)) [
        | inl nothing ↦ absurd (latest-some _ inside nothing)
        | inr (last, found, among, greatest) ↦
            let (recorded, sent) = filter-mem (sent_before tx) ctx.account_history among in
            let reaches = d.reaches in let gap = d.gap last recorded sent in ground arith
      ]

  pub dormant_iff :
      IsTimeline T
      → (dormant_account_reactivation tx ctx config ≢ none → IsDormant)
        × (IsDormant → dormant_account_reactivation tx ctx config ≢ none)
  dormant_iff laws = (
    λ fires. elim (Option-cases (dormant_account_reactivation tx ctx config)) [
      | inl silent ↦ absurd (fires silent)
      | inr (t, fired) ↦ dormant_sound laws t fired
    ],
    λ d. dormant_complete laws d,
  )
