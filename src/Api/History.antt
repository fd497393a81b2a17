-- ===== src/Api/History.antt =====
-- What `record_transaction` and `history_for` of crates/api/src/state.rs keep of the transactions.
use mathlib.Core.Option
use mathlib.Core.List.{append_assoc, append-nil}
use stellartrace.Prelude.{
  ◌≡◌, refl, sym, ap, ◌∙◌, ◌-◌, inl, inr, Bool, true, false, ◌||◌, ◌&&◌, not, ℕ, Option, none, some,
  String, List, [], ◌∷◌, ◌++◌, string_eq, ◌==◌, filter, length, ltb, drop, recent, recent-append,
  if◌then◌else◌, if-true, if-false, Bool-cases, arith,
}
use stellartrace.Prelude.HashMap.{HashMap, get-nil, get, get-insert}
use stellartrace.Common.{NormalizedTransaction}
use stellartrace.Api.Evaluation.{context_of}
use stellartrace.Api.State.{
  AppState, entry_of, bounded, push_bounded, push_destination, record_transaction, history_for,
  max_history_per_account,
}

abbrev pub receives : String → Option String → Bool
receives account none = false
receives account (some dest) = dest == account

-- `push_bounded` is called for the destination, and it is the account.
abbrev goes_to : String → String → Option String → Bool
goes_to source account none = false
goes_to source account (some dest) = if dest == source then false else dest == account

goes_to-eq :
    (source account : String) (dest : Option String)
    → goes_to source account dest ≡ (not (source == account) && receives account dest)
goes_to-eq source account none = ground arith
goes_to-eq source account (some dest) = ground (
  arith,
  string_eq.test_iff source account,
  string_eq.test_iff dest source,
  string_eq.test_iff dest account,
)

within : (n : ℕ) → ltb max_history_per_account n ≡ false → 0 ≡ n - max_history_per_account
within n h = ground arith

module _ {T : Type 0} where
  -- The account sends or receives.
  abbrev pub involves : String → NormalizedTransaction T → Bool
  involves account tx = tx.source_account == account || receives account tx.destination_account

  bounded-recent :
      (xs : List (NormalizedTransaction T)) → bounded xs ≡ recent max_history_per_account xs
  unfolding bounded
  bounded-recent xs = elim (Bool-cases (ltb max_history_per_account (length xs))) [
    | inl over ↦ if-true _ _ _ over
    | inr under ↦ if-false _ _ _ under ∙ ap (λ k. drop k xs) (within (length xs) under)
  ]

  entry-push :
      (h : HashMap String (List (NormalizedTransaction T))) (a : String)
      (tx : NormalizedTransaction T) (account : String)
      → entry_of (push_bounded h a tx) account ≡ (
          if a == account
          then recent max_history_per_account (entry_of h account ++ tx ∷ [])
          else entry_of h account)
  unfolding push_bounded
  entry-push h a tx account =
      ap (λ o. Option.get_or o []) (get-insert a account _ h)
      ∙ at_account (a == account) (λ same. (string_eq.test_iff a account).0 same)
    where
      at_account :
          (b : Bool)
          → (b ≡ true → a ≡ account)
          → Option.get_or (if b then some (bounded (entry_of h a ++ tx ∷ [])) else get account h) []
            ≡ (if b
                then recent max_history_per_account (entry_of h account ++ tx ∷ [])
                else entry_of h account)
      at_account true k =
          bounded-recent (entry_of h a ++ tx ∷ [])
          ∙ ap (λ c. recent max_history_per_account (entry_of h c ++ tx ∷ [])) (k refl)
      at_account false k = refl

  entry-destination :
      (h : HashMap String (List (NormalizedTransaction T))) (tx : NormalizedTransaction T)
      (dest : Option String) (account : String)
      → entry_of (push_destination h tx dest) account ≡ (
          if goes_to tx.source_account account dest
          then recent max_history_per_account (entry_of h account ++ tx ∷ [])
          else entry_of h account)
  entry-destination h tx none account = refl
  entry-destination h tx (some dest) account = elim (Bool-cases (dest == tx.source_account)) [
    | inl loop ↦ rw loop refl
    | inr other ↦ rw other (entry-push h dest tx account)
  ]

module _ {F T : Type 0} where
  -- One transaction goes into the history of an account just if it involves the account.
  history-record :
      (s : AppState F T) (tx : NormalizedTransaction T) (account : String)
      → history_for (record_transaction s tx) account ≡ (
          if involves account tx
          then recent max_history_per_account (history_for s account ++ tx ∷ [])
          else history_for s account)
  unfolding history_for record_transaction
  history-record s tx account =
      entry-destination (push_bounded s.tx_history tx.source_account tx) tx tx.destination_account
        account
      ∙ merge (tx.source_account == account) (receives account tx.destination_account) _ _
          (history_for s account) (goes_to-eq tx.source_account account tx.destination_account)
          (entry-push s.tx_history tx.source_account tx account)
    where
      merge :
          (b r g : Bool) (entry old : List (NormalizedTransaction T))
          → g ≡ (not b && r)
          → entry ≡ (if b then recent max_history_per_account (old ++ tx ∷ []) else old)
          → (if g then recent max_history_per_account (entry ++ tx ∷ []) else entry)
            ≡ (if b || r then recent max_history_per_account (old ++ tx ∷ []) else old)
      merge true r g entry old e k = if-false g _ _ e ∙ k
      merge false true g entry old e k =
          if-true g _ _ e ∙ ap (λ l. recent max_history_per_account (l ++ tx ∷ [])) k
      merge false false g entry old e k = if-false g _ _ e ∙ k

  -- the transactions recorded one after another
  abbrev pub record_all : AppState F T → List (NormalizedTransaction T) → AppState F T
  record_all s [] = s
  record_all s (tx ∷ txs) = record_all (record_transaction s tx) txs

  history-from :
      (s : AppState F T) (past txs : List (NormalizedTransaction T)) (account : String)
      → history_for s account ≡ recent max_history_per_account past
      → history_for (record_all s txs) account
        ≡ recent max_history_per_account (past ++ filter (involves account) txs)
  history-from s past [] account h = h ∙ ap (recent max_history_per_account) (sym (append-nil past))
  history-from s past (tx ∷ txs) account h = elim (Bool-cases (involves account tx)) [
    | inl e ↦
        history-from (record_transaction s tx) (past ++ tx ∷ []) txs account (
          history-record s tx account
          ∙ if-true _ _ _ e
          ∙ ap (λ l. recent max_history_per_account (l ++ tx ∷ [])) h
          ∙ recent-append max_history_per_account past tx)
        ∙ ap (recent max_history_per_account) (
            append_assoc past (tx ∷ []) (filter (involves account) txs)
            ∙ ap (λ l. past ++ l) (sym (if-true _ _ _ e)))
    | inr e ↦
        history-from (record_transaction s tx) past txs account
          (history-record s tx account ∙ if-false _ _ _ e ∙ h)
        ∙ ap (λ l. recent max_history_per_account (past ++ l)) (sym (if-false _ _ _ e))
  ]

  -- After any sequence of transactions recorded in a state with no history, an account's history is the
  -- last 500 of those in which it sends or receives, oldest first, each once. The rules see that of
  -- the source account in this order, the transaction itself left out, though context.rs documents
  -- the list as most recent first.
  pub history_for-recent :
      (s : AppState F T) (txs : List (NormalizedTransaction T)) (account : String)
      (tx : NormalizedTransaction T)
      → s.tx_history ≡ []
      → (history_for (record_all s txs) account
          ≡ recent max_history_per_account (filter (involves account) txs))
        × ((context_of (record_all s txs) tx).account_history
            ≡ filter
                (λ h. not (h.tx_hash == tx.tx_hash))
                (recent max_history_per_account (filter (involves tx.source_account) txs)))
  unfolding history_for
  history_for-recent s txs account tx empty = (
    recorded account,
    ap (filter (λ h. not (h.tx_hash == tx.tx_hash))) (recorded tx.source_account),
  )
    where
      recorded :
          (account : String)
          → history_for (record_all s txs) account
            ≡ recent max_history_per_account (filter (involves account) txs)
      recorded account =
          history-from s [] txs account
            (ap (λ h. entry_of h account) empty ∙ ap (λ o. Option.get_or o []) (get-nil account))
