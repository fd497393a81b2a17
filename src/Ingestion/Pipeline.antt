-- ===== src/Ingestion/Pipeline.antt =====
-- crates/ingestion/src/pipeline.rs. A source is a state with its `poll_next_batch`; a delay is a number
-- of milliseconds. The loop of `fetch_with_retry` runs on fuel, of which `max_attempts + 1` is enough.
-- The channel is told by the number of sends that still succeed before its receiver is dropped.
use mathlib.Core.Option
use stellartrace.Prelude.{
  ℕ, zero, suc, ◌+◌, ◌*◌, Bool, true, false, Option, none, some, String, List, [], ◌∷◌, ◌++◌, leb,
  if◌then◌else◌,
}
use stellartrace.Prelude.Outcome.{Result, ok, fail}
use stellartrace.Common.{NormalizedTransaction}

pub data IngestionError : Type 0 where
  source_failed : String → IngestionError
  channel_closed : IngestionError

-- `trait TransactionSource`
pub record TransactionSource (S T : Type 0) : Type 0 where
  pub poll_next_batch : S → S × Result (List (NormalizedTransaction T)) IngestionError

pub record RetryConfig : Type 0 where
  pub max_attempts : ℕ
  pub base_delay : ℕ
  pub max_delay : ℕ

-- `RetryConfig::default`
abbrev pub default_retry : RetryConfig
default_retry = record { max_attempts = 5; base_delay = 200; max_delay = 10_000 }

pub record IngestionPipeline (S T : Type 0) : Type 0 where
  pub source : S
  pub retry : RetryConfig
  pub dead_letters : List (List (NormalizedTransaction T))

-- How a fetch ends: the source after it, its outcome, and the delays slept.
pub record Fetched (S T : Type 0) : Type 0 where
  pub source : S
  pub outcome : Result (List (NormalizedTransaction T)) IngestionError
  pub slept : List ℕ

abbrev pub shorter : ℕ → ℕ → ℕ
shorter a b = if leb a b then a else b

module _ {S T : Type 0} where
  -- `IngestionPipeline::new`
  abbrev pub new_pipeline : S → IngestionPipeline S T
  new_pipeline source = record { source = source; retry = default_retry; dead_letters = [] }

  -- `drain_dead_letters`
  abbrev pub drain_dead_letters :
      IngestionPipeline S T → IngestionPipeline S T × List (List (NormalizedTransaction T))
  drain_dead_letters p =
      (record { source = p.source; retry = p.retry; dead_letters = [] }, p.dead_letters)

  abbrev pub slept_first : ℕ → Fetched S T → Fetched S T
  slept_first delay f = record { source = f.source; outcome = f.outcome; slept = delay ∷ f.slept }

  -- the arms of the match on the polled result; `later` is the rest of the loop
  abbrev pub after_poll :
      RetryConfig
      → ℕ
      → ℕ
      → S
      → Option (Fetched S T)
      → Result (List (NormalizedTransaction T)) IngestionError
      → Option (Fetched S T)
  after_poll retry attempt delay source later (ok batch) =
      some (record { source = source; outcome = ok batch; slept = [] })
  after_poll retry attempt delay source later (fail e) =
      if leb retry.max_attempts attempt
      then some (record { source = source; outcome = fail e; slept = [] })
      else Option.map (slept_first delay) later

module _ {S T : Type 0} ⦃src : TransactionSource S T⦄ where
  unfoldable pub fetch_loop : ℕ → RetryConfig → ℕ → ℕ → S → Option (Fetched S T)
  fetch_loop zero retry attempt delay source = none
  fetch_loop (suc fuel) retry attempt delay source =
      let polled = src.poll_next_batch source in
      let later =
        fetch_loop fuel retry (attempt + 1) (shorter (delay * 2) retry.max_delay) polled.0 in
      after_poll retry (attempt + 1) delay polled.0 later polled.1

  unfoldable pub fetch_with_retry : IngestionPipeline S T → Option (Fetched S T)
  unfolding fetch_loop
  fetch_with_retry p = fetch_loop (p.retry.max_attempts + 1) p.retry 0 p.retry.base_delay p.source

-- Where `run` stands: the pipeline, the sends that still succeed, what was sent, and whether the
-- channel has been found closed.
pub record Running (S T : Type 0) : Type 0 where
  pub pipeline : IngestionPipeline S T
  pub open_sends : ℕ
  pub sent : List (NormalizedTransaction T)
  pub closed : Bool

module _ {S T : Type 0} where
  abbrev pub sent_first : NormalizedTransaction T → Running S T → Running S T
  sent_first tx r = record {
    pipeline = r.pipeline;
    open_sends = r.open_sends;
    sent = tx ∷ r.sent;
    closed = r.closed;
  }

  -- the loop over a batch: the first send that fails ends it
  unfoldable pub send_all : IngestionPipeline S T → ℕ → List (NormalizedTransaction T) → Running S T
  send_all p open_sends [] = record {
    pipeline = p;
    open_sends = open_sends;
    sent = [];
    closed = false;
  }
  send_all p zero (tx ∷ txs) = record { pipeline = p; open_sends = 0; sent = []; closed = true }
  send_all p (suc n) (tx ∷ txs) = sent_first tx (send_all p n txs)

  -- A fetch that has failed for good is passed over.
  abbrev pub deliver :
      IngestionPipeline S T
      → ℕ
      → Result (List (NormalizedTransaction T)) IngestionError
      → Running S T
  deliver p open_sends (ok batch) = send_all p open_sends batch
  deliver p open_sends (fail e) = record {
    pipeline = p;
    open_sends = open_sends;
    sent = [];
    closed = false;
  }

  abbrev pub with_source : IngestionPipeline S T → S → IngestionPipeline S T
  with_source p source = record { source = source; retry = p.retry; dead_letters = p.dead_letters }

  abbrev pub joined : Running S T → Running S T → Running S T
  joined r later = record {
    pipeline = later.pipeline;
    open_sends = later.open_sends;
    sent = r.sent ++ later.sent;
    closed = later.closed;
  }

  -- one turn of the loop of `run`
  abbrev pub turn : IngestionPipeline S T → ℕ → Fetched S T → Running S T
  turn p open_sends f = deliver (with_source p f.source) open_sends f.outcome

  -- a turn, with what follows it unless the channel is found closed
  abbrev pub turned :
      IngestionPipeline S T
      → ℕ
      → (Running S T → Option (Running S T))
      → Option (Fetched S T)
      → Option (Running S T)
  turned p open_sends next none = none
  turned p open_sends next (some f) =
      let r = turn p open_sends f in if r.closed then some r else Option.map (joined r) (next r)

module _ {S T : Type 0} ⦃src : TransactionSource S T⦄ where
  -- The first `n` turns of `run`, fewer if the channel is found closed. The loop itself has no end.
  unfoldable pub run_turns : ℕ → IngestionPipeline S T → ℕ → Option (Running S T)
  run_turns zero p open_sends =
      some (record { pipeline = p; open_sends = open_sends; sent = []; closed = false })
  run_turns (suc n) p open_sends =
      turned p open_sends (λ r. run_turns n r.pipeline r.open_sends) (fetch_with_retry p)
