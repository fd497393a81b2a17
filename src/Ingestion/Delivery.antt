-- ===== src/Ingestion/Delivery.antt =====
-- What `run` of crates/ingestion/src/pipeline.rs does, turn by turn.
use mathlib.Core.Option
use mathlib.Core.List.{append-nil}
use stellartrace.Prelude.{
  ◌-◌, ◌<◌, ◌↔◌, ◌++◌, take, false, sym, ap₂, subst, none, ℕ, zero, suc, ◌≡◌, refl, ap, ◌∙◌, true,
  Option, some, List, [], ◌∷◌, length, length-append, if-true, if-false, Bool-cases, inl, inr,
  arith,
}
use stellartrace.Prelude.Outcome.{Result, ok, fail}
use stellartrace.Common.{NormalizedTransaction}
use stellartrace.Ingestion.Pipeline.{
  TransactionSource, IngestionPipeline, IngestionError, Running, send_all, deliver, turn, joined,
  turned, run_turns, with_source, Fetched, fetch_with_retry,
}
use stellartrace.Ingestion.Retry.{fetch_with_retry-IsFetched}

take-nil : {A : Type 0} (n : ℕ) → take {A = A} n [] ≡ []
take-nil zero = refl
take-nil (suc n) = refl

take-append :
    {A : Type 0} (n : ℕ) (xs ys : List A) → take n (xs ++ ys) ≡ take n xs ++ take (n - length xs) ys
take-append n [] ys =
    let whole : n ≡ n - 0 = omega arith in ap₂ (λ l k. l ++ take k ys) (sym (take-nil n)) whole
take-append zero (x ∷ xs) ys =
    let nothing : 0 ≡ 0 - length (x ∷ xs) = omega arith in ap (λ k. take k ys) nothing
take-append (suc n) (x ∷ xs) ys =
    let same : n - length xs ≡ suc n - length (x ∷ xs) = omega arith in
    ap (λ l. x ∷ l) (take-append n xs ys ∙ ap (λ k. take n xs ++ take k ys) same)

-- What a fetch brings: the batch of a success, and nothing else.
abbrev pub batch_of :
    {T : Type 0}
    → Result (List (NormalizedTransaction T)) IngestionError
    → List (NormalizedTransaction T)
batch_of (ok batch) = batch
batch_of (fail e) = []

module _ {S T : Type 0} where
  abbrev pub arrived_by :
      IngestionPipeline S T
      → (IngestionPipeline S T → List (NormalizedTransaction T))
      → Option (Fetched S T)
      → List (NormalizedTransaction T)
  arrived_by p later none = []
  arrived_by p later (some f) = batch_of f.outcome ++ later (with_source p f.source)

  -- Exactly the first of the given transactions are sent, in their order, as many as the channel takes;
  -- the loop has ended just if there were more of them; and the dead letters are what they were.
  pub record IsDelivered (p : IngestionPipeline S T) (open_sends : ℕ)
      (txs : List (NormalizedTransaction T)) (r : Running S T) : Type 0 where
    pub sent : r.sent ≡ take open_sends txs
    pub left : r.open_sends ≡ open_sends - length txs
    pub closed : (r.closed ≡ true) ↔ (open_sends < length txs)
    pub dead_letters : r.pipeline.dead_letters ≡ p.dead_letters

  send_all-IsDelivered :
      (p : IngestionPipeline S T) (open_sends : ℕ) (batch : List (NormalizedTransaction T))
      → IsDelivered p open_sends batch (send_all p open_sends batch)
  unfolding send_all
  send_all-IsDelivered p n [] = record {
    sent = sym (take-nil n);
    left = omega arith;
    closed = ((λ h. absurd (ground arith)), (λ h. absurd (omega arith)));
    dead_letters = refl;
  }
  send_all-IsDelivered p zero (tx ∷ txs) = record {
    sent = refl;
    left = omega arith;
    closed = ((λ h. omega arith), (λ h. refl));
    dead_letters = refl;
  }
  send_all-IsDelivered p (suc n) (tx ∷ txs) =
      let rest = send_all-IsDelivered p n txs in
      record {
        sent = ap (λ l. tx ∷ l) rest.sent;
        left = rest.left ∙ omega arith;
        closed = ((λ h. omega (arith, rest.closed.0 h)), (λ h. rest.closed.1 (omega (arith, h))));
        dead_letters = rest.dead_letters;
      }

  send_all-pipeline :
      (p : IngestionPipeline S T) (open_sends : ℕ) (batch : List (NormalizedTransaction T))
      → (send_all p open_sends batch).pipeline ≡ p
  unfolding send_all
  send_all-pipeline p n [] = refl
  send_all-pipeline p zero (tx ∷ txs) = refl
  send_all-pipeline p (suc n) (tx ∷ txs) = send_all-pipeline p n txs

  deliver-pipeline :
      (p : IngestionPipeline S T) (open_sends : ℕ)
      (r : Result (List (NormalizedTransaction T)) IngestionError)
      → (deliver p open_sends r).pipeline ≡ p
  deliver-pipeline p n (ok batch) = send_all-pipeline p n batch
  deliver-pipeline p n (fail e) = refl

  deliver-IsDelivered :
      (p : IngestionPipeline S T) (open_sends : ℕ)
      (r : Result (List (NormalizedTransaction T)) IngestionError)
      → IsDelivered p open_sends (batch_of r) (deliver p open_sends r)
  deliver-IsDelivered p n (ok batch) = send_all-IsDelivered p n batch
  deliver-IsDelivered p n (fail e) = record {
    sent = sym (take-nil n);
    left = omega arith;
    closed = ((λ h. absurd (ground arith)), (λ h. absurd (omega arith)));
    dead_letters = refl;
  }

  moved-IsDelivered :
      {p q : IngestionPipeline S T} (n : ℕ) (txs : List (NormalizedTransaction T)) (r : Running S T)
      → q.dead_letters ≡ p.dead_letters
      → IsDelivered q n txs r
      → IsDelivered p n txs r
  moved-IsDelivered n txs r same d = record {
    sent = d.sent;
    left = d.left;
    closed = d.closed;
    dead_letters = d.dead_letters ∙ same;
  }

  -- A turn that finds the channel closed delivers what it can of all that would follow.
  stopped-IsDelivered :
      (p : IngestionPipeline S T) (open_sends : ℕ) (xs later : List (NormalizedTransaction T))
      (r : Running S T)
      → r.closed ≡ true
      → IsDelivered p open_sends xs r
      → IsDelivered p open_sends (xs ++ later) r
  stopped-IsDelivered p n xs later r closed d =
      let full = d.closed.0 closed in
      let none_left : n - length xs ≡ 0 = omega (arith, full) in
      record {
        sent =
            d.sent
            ∙ sym (
                take-append n xs later
                ∙ ap (λ k. take n xs ++ take k later) none_left
                ∙ append-nil (take n xs));
        left = d.left ∙ omega (arith, full, length-append xs later);
        closed = ((λ h. omega (arith, full, length-append xs later)), (λ h. closed));
        dead_letters = d.dead_letters;
      }

  -- A turn that finds it open delivers all, and the rest follows.
  joined-IsDelivered :
      (p q : IngestionPipeline S T) (open_sends : ℕ) (xs ys : List (NormalizedTransaction T))
      (r later : Running S T)
      → r.closed ≡ false
      → q.dead_letters ≡ p.dead_letters
      → IsDelivered p open_sends xs r
      → IsDelivered q r.open_sends ys later
      → IsDelivered p open_sends (xs ++ ys) (joined r later)
  joined-IsDelivered p q n xs ys r later still same first second = record {
    sent =
        ap₂ ◌++◌ first.sent (second.sent ∙ ap (λ k. take k ys) first.left)
        ∙ sym (take-append n xs ys);
    left = second.left ∙ omega (arith, first.left, length-append xs ys);
    closed = (
      (λ h. omega (arith, second.closed.0 h, first.left, length-append xs ys)),
      (λ h. second.closed.1 (ground (arith, enough, first.left, length-append xs ys, h))),
    );
    dead_letters = second.dead_letters ∙ same;
  }
    where
      enough : ¬ (n < length xs)
      enough h = absurd (ground (arith, first.closed.1 h, still))

module _ {S T : Type 0} ⦃src : TransactionSource S T⦄ where
  -- What arrives in `n` turns: the batches of the fetches that succeed, in their order.
  pub arrived : ℕ → IngestionPipeline S T → List (NormalizedTransaction T)
  arrived zero p = []
  arrived (suc n) p = arrived_by p (arrived n) (fetch_with_retry p)

  -- Any number of turns can be run, whatever the source answers. Of the transactions that the
  -- successful fetches bring, the channel is sent exactly the first ones, in their order and each once,
  -- as many as it takes; the loop ends early just if there are more than it takes; a fetch that has
  -- failed loses no send and stops nothing; and no turn adds to the dead letters.
  pub run_turns-IsDelivered :
      (n : ℕ) (p : IngestionPipeline S T) (open_sends : ℕ)
      → (r : Running S T) × (run_turns n p open_sends ≡ some r)
        × IsDelivered p open_sends (arrived n p) r
  unfolding run_turns arrived
  run_turns-IsDelivered zero p open_sends = (
    _,
    refl,
    record {
      sent = sym (take-nil open_sends);
      left = omega arith;
      closed = ((λ h. absurd (ground arith)), (λ h. absurd (omega arith)));
      dead_letters = refl;
    },
  )
  run_turns-IsDelivered (suc n) p open_sends =
      let fetch = fetch_with_retry-IsFetched p in
      let q = with_source p fetch.result.source in
      let r = turn p open_sends fetch.result in
      let first =
        moved-IsDelivered {p = p} {q = q} open_sends (batch_of fetch.result.outcome) r refl
          (deliver-IsDelivered q open_sends fetch.result.outcome) in
      let kept = deliver-pipeline q open_sends fetch.result.outcome in
      let (later, runs, second) = run_turns-IsDelivered n r.pipeline r.open_sends in
      let next : Running S T → Option (Running S T) = λ r. run_turns n r.pipeline r.open_sends in
      let came = ap (arrived_by p (arrived n)) fetch.returns in
      elim (Bool-cases r.closed) [
        | inl closed ↦ (
          r,
          ap (turned p open_sends next) fetch.returns ∙ if-true _ _ _ closed,
          subst (λ l. IsDelivered p open_sends l r) (sym came)
              (stopped-IsDelivered p open_sends (batch_of fetch.result.outcome) (arrived n q) r
                closed first),
        )
        | inr still ↦ (
          joined r later,
          ap (turned p open_sends next) fetch.returns
              ∙ if-false _ _ _ still
              ∙ ap (Option.map (joined r)) runs,
          subst (λ l. IsDelivered p open_sends l (joined r later)) (sym came)
              (joined-IsDelivered p q open_sends (batch_of fetch.result.outcome) (arrived n q) r
                later still refl first
                (subst (λ x. IsDelivered x r.open_sends (arrived n x) later) kept second)),
        )
      ]
