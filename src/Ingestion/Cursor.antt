-- ===== src/Ingestion/Cursor.antt =====
-- What the next cursor of crates/ingestion/src/horizon.rs is worth: it is a hash of a transaction, and
-- Horizon documents its cursor as a paging token, a 64-bit number.
use mathlib.Core.List.{filter_map}
use stellartrace.Prelude.{
  ◌≡◌, refl, ap, ◌∙◌, subst, true, some, String, List, [], ◌∷◌, last, All, ltb,
}
use stellartrace.Prelude.Outcome.{ok, fail}
use stellartrace.Prelude.Substring.{char_count}
use stellartrace.Common.{NormalizedTransaction}
use stellartrace.Ingestion.Normalize.{HorizonPaymentOperation, TimestampText}
use stellartrace.Ingestion.Horizon.{
  http, HorizonOperationsResponse, Reply, HttpHorizonClient, operations_url, error_for_status,
  of_sent, of_status, fetch_operations,
}
use stellartrace.Ingestion.Pages.{
  accepted_of, cursor_after, IsPage, IsFetch, fetch_operations-IsFetch,
}

-- What Horizon documents: a transaction hash has 64 hex digits, and a cursor that is longer than the
-- 19 digits of a paging token is answered by the status of an error.
pub record IsHorizon (client : HttpHorizonClient) : Type 0 where
  pub hash_length :
      (cursor : String) (reply : Reply) (page : HorizonOperationsResponse)
      → client.http.get_url (operations_url client cursor) ≡ ok reply
      → reply.json ≡ ok page
      → All (λ r. char_count r.transaction_hash ≡ 64) page.embedded.records
  pub cursor_length :
      (cursor : String)
      → ltb 19 (char_count cursor) ≡ true
      → (reply : Reply) × (client.http.get_url (operations_url client cursor) ≡ ok reply)
        × ((message : String) × (reply.status_error ≡ some message))

last-length :
    (cursor : String) (r : HorizonPaymentOperation) (records : List HorizonPaymentOperation)
    → All (λ r. char_count r.transaction_hash ≡ 64) (r ∷ records)
    → char_count (cursor_after cursor (last (r ∷ records))) ≡ 64
last-length cursor r [] (first, rest) = first
last-length cursor r (q ∷ records) (first, rest) = last-length cursor q records rest

module _ (T : Type 0) ⦃text : TimestampText T⦄ (client : HttpHorizonClient)
    (laws : IsHorizon client) where
  long_cursor-fails :
      (cursor : String)
      → char_count cursor ≡ 64
      → (message : String) × (fetch_operations {T = T} client cursor ≡ fail (http message))
  unfolding fetch_operations
  long_cursor-fails cursor long =
      let (reply, sent, (message, refused)) = laws.cursor_length cursor (rw long refl) in
      (
        message,
        ap (of_sent cursor) sent ∙ ap (λ e. of_status cursor (error_for_status reply e)) refused,
      )

  page-length :
      (cursor : String) (reply : Reply) {tx : NormalizedTransaction T}
      {txs : List (NormalizedTransaction T)} {next : String}
      → IsPage client cursor reply (tx ∷ txs) next
      → (records : List HorizonPaymentOperation) → tx ∷ txs ≡ filter_map accepted_of records
      → next ≡ cursor_after cursor (last records)
      → All (λ r. char_count r.transaction_hash ≡ 64) records
      → char_count next ≡ 64
  unfolding filter_map
  page-length cursor reply p [] same is lengths = absurd (cc)
  page-length cursor reply p (r ∷ records) same is lengths =
      ap char_count is ∙ last-length cursor r records lengths

  -- Against a server that behaves as Horizon documents it, the cursor that a fetch of a page with
  -- transactions returns makes the next fetch fail: behind its first page the client never reads
  -- another.
  pub fetch_operations-stalls :
      (cursor : String) {tx : NormalizedTransaction T} {txs : List (NormalizedTransaction T)}
      {next : String}
      → fetch_operations client cursor ≡ ok (tx ∷ txs, next)
      → (message : String) × (fetch_operations {T = T} client next ≡ fail (http message))
  fetch_operations-stalls cursor {tx} {txs} {next} fetched =
      let (reply, p) =
        subst (IsFetch client cursor) fetched (fetch_operations-IsFetch T client cursor) in
      long_cursor-fails next (
        page-length cursor reply p p.page.embedded.records p.transactions p.next_cursor
          (laws.hash_length cursor reply p.page p.sent p.parsed))
