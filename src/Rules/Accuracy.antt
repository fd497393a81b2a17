-- ===== src/Rules/Accuracy.antt =====
-- What a trigger of the round-trip rule proves about the history, and when it must come.
use mathlib.Core.List.{Mem}
use stellartrace.Prelude.{
  ◌≡◌, ◌≢◌, true, Option, none, some, String, List, find, filter-mem, find-mem, find-ne-none,
  mem-filter_of, option_beq_iff, string_eq, Option-cases, inl, inr, arith,
}
use stellartrace.Platform.{Float, Chrono}
use stellartrace.Common.{NormalizedTransaction, TriggeredRule}
use stellartrace.Rules.Config.{RulesConfig}
use stellartrace.Rules.Context.{RuleContext, in_window, within_window}
use stellartrace.Rules.Accounts.{is_return_leg, round_trip_wash_trading}

module _ {F T : Type 0} ⦃f64 : Float F⦄ ⦃chrono : Chrono T⦄ (tx : NormalizedTransaction T)
    (ctx : RuleContext T) (config : RulesConfig F) where
  -- An earlier transfer from the present destination back to the present source.
  pub record IsReturnLeg (destination : String) (h : NormalizedTransaction T) : Type 0 where
    pub recorded : Mem h ctx.account_history
    pub from_destination : h.source_account ≡ destination
    pub to_source : h.destination_account ≡ some tx.source_account
    pub earlier : chrono.before h.timestamp tx.timestamp ≡ true
    pub recent : in_window tx.timestamp config.wash_trading_window_secs h ≡ true

  is_return_leg-parts :
      (destination : String) (h : NormalizedTransaction T)
      → is_return_leg tx destination h ≡ true
      → (h.source_account ≡ destination)
        × (h.destination_account ≡ some tx.source_account)
        × (chrono.before h.timestamp tx.timestamp ≡ true)
  unfolding is_return_leg
  is_return_leg-parts destination h e = ground (
    arith,
    string_eq.test_iff h.source_account destination,
    option_beq_iff h.destination_account (some tx.source_account),
  )

  is_return_leg_of :
      (destination : String) (h : NormalizedTransaction T)
      → IsReturnLeg destination h
      → is_return_leg tx destination h ≡ true
  unfolding is_return_leg
  is_return_leg_of destination h leg = ground (
    arith,
    leg.from_destination,
    leg.to_source,
    leg.earlier,
    string_eq.test_iff h.source_account destination,
    option_beq_iff h.destination_account (some tx.source_account),
  )

  abbrev recent_history : List (NormalizedTransaction T)
  unfolding within_window
  recent_history = within_window ctx tx.timestamp config.wash_trading_window_secs

  -- what the rule's `find` returns
  abbrev return_leg : String → Option (NormalizedTransaction T)
  unfolding within_window
  return_leg destination = find (is_return_leg tx destination) recent_history

  round_trip_sound :
      (t : TriggeredRule)
      → round_trip_wash_trading tx ctx config ≡ some t
      → (destination : String) × (h : NormalizedTransaction T) × (tx.destination_account
          ≡ some destination)
        × IsReturnLeg destination h
  unfolding round_trip_wash_trading
  round_trip_sound t fired = elim (Option-cases tx.destination_account) [
    | inl nowhere ↦ absurd (ground arith)
    | inr (destination, there) ↦ elim (Option-cases (return_leg destination)) [
      | inl missing ↦ absurd (ground arith)
      | inr (h, found) ↦
          let (inside, passes) = find-mem (is_return_leg tx destination) (recent_history) found in
          let (recorded, recent) =
            filter-mem (in_window tx.timestamp config.wash_trading_window_secs) ctx.account_history
              inside in
          let (from_destination, to_source, earlier) = is_return_leg-parts destination h passes in
          (
            destination,
            h,
            there,
            record {
              recorded = recorded;
              from_destination = from_destination;
              to_source = to_source;
              earlier = earlier;
              recent = recent;
            },
          )
    ]
  ]

  round_trip_complete :
      (destination : String) (h : NormalizedTransaction T)
      → tx.destination_account ≡ some destination
      → IsReturnLeg destination h
      → round_trip_wash_trading tx ctx config ≢ none
  unfolding round_trip_wash_trading
  round_trip_complete destination h there leg =
      let found =
        find-ne-none (is_return_leg tx destination) recent_history
          (mem-filter_of (in_window tx.timestamp config.wash_trading_window_secs)
            ctx.account_history leg.recorded leg.recent)
          (is_return_leg_of destination h leg) in
      elim (Option-cases (return_leg destination)) [
        | inl missing ↦ absurd (found missing)
        | inr (prior, e) ↦ ground arith
      ]

  -- The transaction has a destination, and the history a return leg from it.
  abbrev pub HasReturnLeg : Type 0
  HasReturnLeg =
      (destination : String) × (h : NormalizedTransaction T) × (tx.destination_account
        ≡ some destination)
      × IsReturnLeg destination h

  -- The round-trip rule fires just if the transaction has a destination and the history holds a
  -- return leg from it inside the window.
  pub round_trip_iff :
      (round_trip_wash_trading tx ctx config ≢ none → HasReturnLeg)
      × (HasReturnLeg → round_trip_wash_trading tx ctx config ≢ none)
  round_trip_iff = (
    λ fires. elim (Option-cases (round_trip_wash_trading tx ctx config)) [
      | inl silent ↦ absurd (fires silent)
      | inr (t, fired) ↦ round_trip_sound t fired
    ],
    λ (destination, h, there, leg). round_trip_complete destination h there leg,
  )
