-- ===== src/Ingestion/Retry.antt =====
-- What `fetch_with_retry` of crates/ingestion/src/pipeline.rs returns.
use mathlib.Core.Option
use stellartrace.Prelude.{
  ℕ, zero, suc, ◌+◌, ◌-◌, ◌*◌, ◌≤◌, ◌<◌, ◌≡◌, refl, sym, ap, ◌∙◌, subst, Option, some, List, [],
  length, All, leb, if-true, if-false, Bool-cases, inl, inr, arith,
}
use stellartrace.Prelude.Outcome.{Result, ok, fail}
use stellartrace.Common.{NormalizedTransaction}
use stellartrace.Ingestion.Pipeline.{
  TransactionSource, RetryConfig, IngestionPipeline, IngestionError, Fetched, fetch_loop,
  fetch_with_retry, after_poll, shorter, slept_first,
}

module _ {A E : Type 0} where
  abbrev pub or_else : Result A E → Result A E → Result A E
  or_else (ok a) later = ok a
  or_else (fail e) later = later

module _ {S T : Type 0} ⦃src : TransactionSource S T⦄ where
  -- the first success of `n + 1` polls, or else the last error
  abbrev pub first_success : ℕ → S → Result (List (NormalizedTransaction T)) IngestionError
  first_success zero s = (src.poll_next_batch s).1
  first_success (suc n) s =
      or_else (src.poll_next_batch s).1 (first_success n (src.poll_next_batch s).0)

  -- The fetch ends, as the best of `n + 1` polls, with at most `n` delays, none above the bound.
  pub record IsFetched (n bound : ℕ) (s : S) (o : Option (Fetched S T)) : Type 0 where
    pub result : Fetched S T
    pub returns : o ≡ some result
    pub outcome : result.outcome ≡ first_success n s
    pub retries : length result.slept ≤ n
    pub delays : All (λ d. d ≤ bound) result.slept

  fetch_loop-IsFetched :
      (fuel n attempt delay bound : ℕ) (retry : RetryConfig) (s : S)
      → n < fuel
      → n ≡ retry.max_attempts - (attempt + 1)
      → delay ≤ bound
      → retry.max_delay ≤ bound
      → IsFetched n bound s (fetch_loop fuel retry attempt delay s)
  unfolding fetch_loop
  fetch_loop-IsFetched zero n attempt delay bound retry s enough left short long =
      absurd (omega arith)
  fetch_loop-IsFetched (suc fuel) n attempt delay bound retry s enough left short long =
      polled (src.poll_next_batch s).1 refl (λ m below left.
        fetch_loop-IsFetched fuel m (attempt + 1) (shorter (delay * 2) retry.max_delay) bound retry
          (src.poll_next_batch s).0 below left (ground arith) long)
    where
      rest : Option (Fetched S T)
      rest =
          fetch_loop fuel retry (attempt + 1) (shorter (delay * 2) retry.max_delay)
            (src.poll_next_batch s).0

      IsRest : Type 0
      IsRest =
          (m : ℕ)
          → m < fuel
          → m ≡ retry.max_attempts - (attempt + 1 + 1)
          → IsFetched m bound (src.poll_next_batch s).0 rest

      at_once :
          (m : ℕ) (batch : List (NormalizedTransaction T))
          → (src.poll_next_batch s).1 ≡ ok batch
          → ok batch ≡ first_success m s
      at_once zero batch e = sym e
      at_once (suc m) batch e =
          sym (ap (λ r. or_else r (first_success m (src.poll_next_batch s).0)) e)

      exhausted :
          (m : ℕ) (e : IngestionError)
          → m ≡ n
          → retry.max_attempts ≤ attempt + 1
          → (src.poll_next_batch s).1 ≡ fail e
          → fail e ≡ first_success m s
      exhausted zero e is none_left failed = sym failed
      exhausted (suc m) e is none_left failed = absurd (omega arith)

      retried :
          (m : ℕ) (e : IngestionError)
          → m ≡ n
          → attempt + 1 < retry.max_attempts
          → (src.poll_next_batch s).1 ≡ fail e
          → IsRest
          → IsFetched m bound s (Option.map (slept_first delay) rest)
      retried zero e is more failed ih = absurd (omega arith)
      retried (suc m) e is more failed ih =
          let f = ih m (omega arith) (omega arith) in
          record {
            result = slept_first delay f.result;
            returns = ap (Option.map (slept_first delay)) f.returns;
            outcome =
                f.outcome
                ∙ sym (ap (λ r. or_else r (first_success m (src.poll_next_batch s).0)) failed);
            retries = omega (arith, f.retries);
            delays = (short, f.delays);
          }

      polled :
          (r : Result (List (NormalizedTransaction T)) IngestionError)
          → (src.poll_next_batch s).1 ≡ r
          → IsRest
          → IsFetched n bound s
              (after_poll retry (attempt + 1) delay (src.poll_next_batch s).0 rest r)
      polled (ok batch) e ih = record {
        result = record { source = (src.poll_next_batch s).0; outcome = ok batch; slept = [] };
        returns = refl;
        outcome = at_once n batch e;
        retries = omega arith;
        delays = tt;
      }
      polled (fail x) e ih = elim (Bool-cases (leb retry.max_attempts (attempt + 1))) [
        | inl over ↦ record {
          result = record { source = (src.poll_next_batch s).0; outcome = fail x; slept = [] };
          returns = if-true _ _ _ over;
          outcome = exhausted n x refl (ground arith) e;
          retries = omega arith;
          delays = tt;
        }
        | inr under ↦
            subst (IsFetched n bound s) (sym (if-false _ _ _ under))
              (retried n x refl (ground arith) e ih)
      ]

  -- A fetch always ends: after at most `max_attempts` polls, or one if that is zero, with the first
  -- success among them or else the last error, having slept between them for at most the longer of the
  -- two configured delays each time.
  pub fetch_with_retry-IsFetched :
      (p : IngestionPipeline S T)
      → IsFetched
          (p.retry.max_attempts - 1)
          (p.retry.base_delay + (p.retry.max_delay - p.retry.base_delay))
          p.source
          (fetch_with_retry p)
  unfolding fetch_with_retry
  fetch_with_retry-IsFetched p =
      fetch_loop-IsFetched (p.retry.max_attempts + 1) (p.retry.max_attempts - 1) 0
        p.retry.base_delay _ p.retry p.source (omega arith) (omega arith) (omega arith)
        (omega arith)
