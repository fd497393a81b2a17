-- ===== src/Tests/Ingestion.antt =====
-- The theorems on ingestion at concrete inputs.
use Prim.Native.String.{◌++◌ as str_append}
use stellartrace.Ingestion.Pages.{IsFetch, fetch_operations-IsFetch}
use stellartrace.Ingestion.Cursor.{IsHorizon, fetch_operations-stalls}
use stellartrace.Prelude.{
  ◌∙◌, false, true, ap, subst, refl, ltb, All, All, arith, ◌+◌, Bool, ltb, if◌then◌else◌, String, ℕ,
  zero, suc, ◌≡◌, ◌↔◌, none, some, List, [], ◌∷◌,
}
use stellartrace.Prelude.Outcome.{Result, ok, fail}
use stellartrace.Prelude.Substring.{char_count}
use stellartrace.Prelude.Substring.Positions.{char_count-append}
use stellartrace.Prelude.Text.{format, show}
use stellartrace.Ingestion.{transaction_of, http, trim_end_matches, operations_url}
use stellartrace.Common.{NormalizedTransaction}
use stellartrace.Ingestion.{
  trim_end_matches, operations_url, page_loop, new_client, HttpHorizonClient, Reply,
  HorizonOperationsResponse, fetch_operations, TransactionSource, IngestionError, IngestionPipeline,
  new_pipeline, fetch_with_retry, source_failed, Running, run_turns, TimestampText,
  HorizonPaymentOperation, normalize_horizon_operation, bad_timestamp,
}
use stellartrace.Ingestion.Retry.{IsFetched, fetch_with_retry-IsFetched}
use stellartrace.Ingestion.Delivery.{IsDelivered, arrived, run_turns-IsDelivered}
use stellartrace.Ingestion.Refusal.{normalize_horizon_operation_iff}
use stellartrace.Tests.Samples.{payment}

abbrev answer : ℕ → ℕ × Result (List (NormalizedTransaction ℕ)) IngestionError
answer zero = (0, ok (payment ∷ []))
answer (suc n) = (n, fail (source_failed "timeout"))

-- A source that fails as often as its state says and then gives the payment.
instance abbrev flaky : TransactionSource ℕ ℕ
flaky = record { poll_next_batch = answer }

abbrev pipeline : IngestionPipeline ℕ ℕ
pipeline = new_pipeline 2

fetch_with_retry-IsFetched_example : IsFetched 4 10_000 2 (fetch_with_retry pipeline)
fetch_with_retry-IsFetched_example = fetch_with_retry-IsFetched pipeline

run_turns-IsDelivered_example :
    (r : Running ℕ ℕ) × (run_turns 3 pipeline 2 ≡ some r)
    × IsDelivered pipeline 2 (arrived 3 pipeline) r
run_turns-IsDelivered_example = run_turns-IsDelivered 3 pipeline 2

-- No timestamp is readable.
instance abbrev unreadable : TimestampText ℕ
unreadable = record { parse_timestamp = λ s. none }

abbrev operation : HorizonPaymentOperation
operation = record {
  transaction_hash = "h1";
  source_account = "GALICE";
  to = none;
  from = none;
  asset_type = "";
  asset_code = none;
  asset_issuer = none;
  amount = none;
  created_at = "yesterday";
  type_field_ledger = none;
  ledger_sequence = none;
  function_name = none;
  contract_id = none;
  op_type = "payment";
}

normalize_horizon_operation_iff_example :
    (normalize_horizon_operation {T = ℕ} operation ≡ fail (bad_timestamp "yesterday")) ↔ (
      (unreadable.parse_timestamp "yesterday" ≡ none)
      × (bad_timestamp "yesterday" ≡ bad_timestamp "yesterday"))
normalize_horizon_operation_iff_example =
    normalize_horizon_operation_iff operation (bad_timestamp "yesterday")

-- A Horizon whose pages hold one payment, and that refuses cursors that are too long.
abbrev hash : String
hash = "00112233445566778899aabbccddeeff00112233445566778899aabbccddeeff"

instance abbrev readable : TimestampText ℕ
readable = record { parse_timestamp = λ s. some 5 }

abbrev hashed : HorizonPaymentOperation
hashed = record operation { transaction_hash = hash }

abbrev one_page : HorizonOperationsResponse
one_page = record { embedded = record { records = hashed ∷ [] } }

abbrev page_reply : Reply
page_reply = record { status_error = none; json = ok one_page }

abbrev error_reply : Reply
error_reply = record { status_error = some "400 Bad Request"; json = fail "no operations" }

-- The first page has a short URL, and that of any cursor longer than 19 characters is longer.
abbrev horizon : HttpHorizonClient
horizon =
    new_client
      (record {
        get_url = λ url. ok (if ltb (char_count url) 103 then page_reply else error_reply);
      })
      "https://horizon.stellar.org/"

first_page :
    fetch_operations {T = ℕ} ⦃text = readable⦄ horizon "0" ≡ ok (transaction_of hashed 5 ∷ [], hash)
unfolding fetch_operations page_loop normalize_horizon_operation operations_url trim_end_matches
    format show char_count
first_page = refl

abbrev url_end : String
url_end = "&order=asc&limit=50&join=transactions"

url-length : (cursor : String) → char_count (operations_url horizon cursor) ≡ 83 + char_count cursor
unfolding operations_url trim_end_matches format show char_count
url-length cursor = ground (
  arith,
  char_count-append "https://horizon.stellar.org"
      (str_append "/operations?cursor=" (str_append cursor url_end)),
  char_count-append "/operations?cursor=" (str_append cursor url_end),
  char_count-append cursor url_end,
)

abbrev answer_by : Bool → Reply
answer_by short = if short then page_reply else error_reply

answered-lengths :
    (short : Bool) {page : HorizonOperationsResponse}
    → (answer_by short).json ≡ ok page
    → All (λ r. char_count r.transaction_hash ≡ 64) page.embedded.records
unfolding char_count
answered-lengths true {page} parsed =
    let same : one_page ≡ page = cc in
    subst (λ p. All (λ r. char_count r.transaction_hash ≡ 64) p.embedded.records) same (refl, tt)
answered-lengths false parsed = absurd (cc)

abbrev is_short : String → Bool
is_short cursor = ltb (char_count (operations_url horizon cursor)) 103

long-answer : (cursor : String) → ltb 19 (char_count cursor) ≡ true → is_short cursor ≡ false
long-answer cursor long = ground (arith, url-length cursor)

horizon-IsHorizon : IsHorizon horizon
horizon-IsHorizon = record {
  hash_length = λ cursor reply page got parsed.
      answered-lengths (is_short cursor) (ap (λ r. r.json) (sent_reply _ reply got) ∙ parsed);
  cursor_length = λ cursor long. (
    error_reply,
    ap (λ b. ok (answer_by b)) (long-answer cursor long),
    ("400 Bad Request", refl),
  );
}
  where
    sent_reply : (a b : Reply) → ◌≡◌ {A = Result Reply String} (ok a) (ok b) → a ≡ b
    sent_reply a b e = cc

fetch_operations-stalls_example :
    (message : String) × (fetch_operations {T = ℕ} ⦃text = readable⦄ horizon hash
      ≡ fail (http message))
fetch_operations-stalls_example =
    fetch_operations-stalls ℕ ⦃text = readable⦄ horizon horizon-IsHorizon "0" first_page

fetch_operations-IsFetch_example :
    IsFetch {T = ℕ} ⦃text = readable⦄ horizon "0" (fetch_operations ⦃text = readable⦄ horizon "0")
fetch_operations-IsFetch_example = fetch_operations-IsFetch ℕ ⦃text = readable⦄ horizon "0"
