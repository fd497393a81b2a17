-- ===== src/Ingestion/Pages.antt =====
-- The pages that the client of crates/ingestion/src/horizon.rs fetches, and its cursor.
use mathlib.Core.List.{
  filter_map, filter_map-cons-none, filter_map-cons-some, append_assoc, append-nil,
}
use stellartrace.Prelude.{
  ◌≡◌, refl, sym, ap, ◌∙◌, Option, none, some, String, List, [], ◌∷◌, ◌++◌, ◌⊎◌, inl, inr, last,
}
use stellartrace.Prelude.Outcome.{Result, ok, fail}
use stellartrace.Common.{NormalizedTransaction}
use stellartrace.Ingestion.Normalize.{
  HorizonPaymentOperation, NormalizeError, TimestampText, normalize_horizon_operation,
}
use stellartrace.Ingestion.Horizon.{
  HorizonError, http, HorizonOperationsResponse, Reply, HttpHorizonClient, operations_url,
  error_for_status, kept, page_loop, of_page, of_status, of_sent, fetch_operations,
}

-- The transaction of a record that is not refused.
abbrev pub accepted :
    {T : Type 0}
    → Result (NormalizedTransaction T) NormalizeError
    → Option (NormalizedTransaction T)
accepted (ok tx) = some tx
accepted (fail e) = none

-- The cursor behind a page.
abbrev pub cursor_after : String → Option HorizonPaymentOperation → String
cursor_after cursor none = cursor
cursor_after cursor (some r) = r.transaction_hash

-- The cursor behind a page that is not empty is not that before it.
cursor_after-last :
    (a b : String) (r : HorizonPaymentOperation) (records : List HorizonPaymentOperation)
    → cursor_after a (last (r ∷ records)) ≡ cursor_after b (last (r ∷ records))
cursor_after-last a b r [] = refl
cursor_after-last a b r (q ∷ records) = cursor_after-last a b q records

-- What fails first of the request, the status and the body.
abbrev pub IsFailure : HttpHorizonClient → String → String → Type 0
IsFailure client cursor message =
    (client.http.get_url (operations_url client cursor) ≡ fail message)
    ⊎ ((reply : Reply) × (client.http.get_url (operations_url client cursor) ≡ ok reply)
        × ((reply.status_error ≡ some message)
            ⊎ ((reply.status_error ≡ none) × (reply.json ≡ fail message))))

module _ {T : Type 0} ⦃text : TimestampText T⦄ where
  abbrev pub accepted_of : HorizonPaymentOperation → Option (NormalizedTransaction T)
  accepted_of r = accepted (normalize_horizon_operation r)

  page_loop-cursor :
      (before : List (NormalizedTransaction T)) (cursor : String)
      (records : List HorizonPaymentOperation)
      → (page_loop before cursor records).1 ≡ cursor_after cursor (last records)
  unfolding page_loop
  page_loop-cursor before cursor [] = refl
  page_loop-cursor before cursor (r ∷ []) = refl
  page_loop-cursor before cursor (r ∷ q ∷ records) =
      page_loop-cursor (kept before (normalize_horizon_operation r)) r.transaction_hash
        (q ∷ records)
      ∙ cursor_after-last r.transaction_hash cursor q records

  -- one turn of the loop, by what becomes of the record
  kept-cons :
      (before : List (NormalizedTransaction T))
      (o : Result (NormalizedTransaction T) NormalizeError) (r : HorizonPaymentOperation)
      (rest : List HorizonPaymentOperation)
      → normalize_horizon_operation r ≡ o
      → kept before o ++ filter_map accepted_of rest ≡ before ++ filter_map accepted_of (r ∷ rest)
  kept-cons before (ok tx) r rest e =
      append_assoc before (tx ∷ []) (filter_map accepted_of rest)
      ∙ ap (λ l. before ++ l) (sym (filter_map-cons-some accepted_of r rest (ap accepted e)))
  kept-cons before (fail err) r rest e =
      ap (λ l. before ++ l) (sym (filter_map-cons-none accepted_of r rest (ap accepted e)))

  page_loop-kept :
      (before : List (NormalizedTransaction T)) (cursor : String)
      (records : List HorizonPaymentOperation)
      → (page_loop before cursor records).0 ≡ before ++ filter_map accepted_of records
  unfolding page_loop filter_map
  page_loop-kept before cursor [] = sym (append-nil before)
  page_loop-kept before cursor (r ∷ records) =
      page_loop-kept (kept before (normalize_horizon_operation r)) r.transaction_hash records
      ∙ kept-cons before (normalize_horizon_operation r) r records refl

  module _ (client : HttpHorizonClient) (cursor : String) where
    -- A reply whose page is read.
    pub record IsPage (reply : Reply) (txs : List (NormalizedTransaction T)) (next : String)
        : Type 0 where
      pub sent : client.http.get_url (operations_url client cursor) ≡ ok reply
      pub accepted_status : reply.status_error ≡ none
      pub page : HorizonOperationsResponse
      pub parsed : reply.json ≡ ok page
      pub transactions : txs ≡ filter_map accepted_of page.embedded.records
      pub next_cursor : next ≡ cursor_after cursor (last page.embedded.records)

    abbrev pub IsFetch : Result (List (NormalizedTransaction T) × String) HorizonError → Type 0
    IsFetch (ok (txs, next)) = (reply : Reply) × IsPage reply txs next
    IsFetch (fail e) = (message : String) × (e ≡ http message) × IsFailure client cursor message

module _ (T : Type 0) ⦃text : TimestampText T⦄ (client : HttpHorizonClient) (cursor : String) where
  page-IsFetch :
      (reply : Reply)
      → client.http.get_url (operations_url client cursor) ≡ ok reply
      → reply.status_error ≡ none
      → (body : Result HorizonOperationsResponse String) → reply.json ≡ body
      → IsFetch {T = T} client cursor (of_page cursor body)
  page-IsFetch reply sent status (fail message) parsed =
      (message, refl, inr (reply, sent, inr (status, parsed)))
  page-IsFetch reply sent status (ok page) parsed = (
    reply,
    record {
      sent = sent;
      accepted_status = status;
      page = page;
      parsed = parsed;
      transactions = page_loop-kept [] cursor page.embedded.records;
      next_cursor = page_loop-cursor [] cursor page.embedded.records;
    },
  )

  status-IsFetch :
      (reply : Reply)
      → client.http.get_url (operations_url client cursor) ≡ ok reply
      → (status : Option String) → reply.status_error ≡ status
      → IsFetch {T = T} client cursor (of_status cursor (error_for_status reply status))
  status-IsFetch reply sent none accepted_status =
      page-IsFetch reply sent accepted_status reply.json refl
  status-IsFetch reply sent (some message) refused = (message, refl, inr (reply, sent, inl refused))

  sent-IsFetch :
      (r : Result Reply String)
      → client.http.get_url (operations_url client cursor) ≡ r
      → IsFetch {T = T} client cursor (of_sent cursor r)
  sent-IsFetch (fail message) sent = (message, refl, inl sent)
  sent-IsFetch (ok reply) sent = status-IsFetch reply sent reply.status_error refl

  -- A fetch of a page returns the transactions of the records that are not refused, in their order,
  -- and the hash of the last record, refused or not, as the next cursor, which stays if the page is
  -- empty. It fails just by the first error of the request, the status of the reply and its body;
  -- refused records are no error.
  pub fetch_operations-IsFetch : IsFetch {T = T} client cursor (fetch_operations client cursor)
  unfolding fetch_operations
  fetch_operations-IsFetch = sent-IsFetch (client.http.get_url (operations_url client cursor)) refl
