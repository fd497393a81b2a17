-- ===== src/Ingestion/Horizon.antt =====
-- crates/ingestion/src/horizon.rs. The HTTP client with its JSON is an argument.
use Prim.Native.Char.{code}
use stellartrace.Prelude.{
  ℕ, ◌&&◌, Option, none, some, String, List, [], ◌∷◌, ◌++◌, nat_beq, if◌then◌else◌,
}
use stellartrace.Prelude.Outcome.{Result, ok, fail}
use stellartrace.Prelude.Split.{is_empty_text}
use stellartrace.Prelude.Text.{format, show}
use stellartrace.Common.{NormalizedTransaction}
use stellartrace.Ingestion.Normalize.{
  HorizonPaymentOperation, NormalizeError, TimestampText, normalize_horizon_operation,
}

pub data HorizonError : Type 0 where
  http : String → HorizonError
  normalize : NormalizeError → HorizonError

pub record Embedded : Type 0 where
  pub records : List HorizonPaymentOperation

pub record HorizonOperationsResponse : Type 0 where
  pub embedded : Embedded

-- What reqwest reads of a reply: the error of its status, if it is one of an error, and its body as
-- `json()` parses it.
pub record Reply : Type 0 where
  pub status_error : Option String
  pub json : Result HorizonOperationsResponse String

-- `reqwest::Client`: a GET of a URL, which may fail with an error's text.
pub record Http : Type 0 where
  pub get_url : String → Result Reply String

pub record HttpHorizonClient : Type 0 where
  pub base_url : String
  pub http : Http
  pub page_limit : ℕ

-- `HttpHorizonClient::new`
abbrev pub new_client : Http → String → HttpHorizonClient
new_client transport base_url = record { base_url = base_url; http = transport; page_limit = 50 }

-- `trim_end_matches` of a character, given by its code
unfoldable pub trim_end_matches : ℕ → String → String
trim_end_matches sep String.[] = String.[]
trim_end_matches sep (String.◌∷◌ c s) =
    let rest = trim_end_matches sep s in
    if nat_beq (code c) sep && is_empty_text rest then String.[] else String.◌∷◌ c rest

abbrev pub slash : ℕ
slash = 47

unfoldable pub operations_url : HttpHorizonClient → String → String
operations_url client cursor = format (
    trim_end_matches slash client.base_url
    ∷ "/operations?cursor="
    ∷ cursor
    ∷ "&order=asc&limit="
    ∷ show client.page_limit
    ∷ "&join=transactions"
    ∷ [])

-- `error_for_status()`, of the error of its status
abbrev pub error_for_status : Reply → Option String → Result Reply String
error_for_status reply none = ok reply
error_for_status reply (some e) = fail e

module _ {T : Type 0} where
  -- The arms of the match on a normalized record: one that is refused is skipped.
  abbrev pub kept :
      List (NormalizedTransaction T)
      → Result (NormalizedTransaction T) NormalizeError
      → List (NormalizedTransaction T)
  kept normalized (ok tx) = normalized ++ tx ∷ []
  kept normalized (fail e) = normalized

  -- the loop over the records of a page
  unfoldable pub page_loop :
      ⦃text : TimestampText T⦄
      → List (NormalizedTransaction T)
      → String
      → List HorizonPaymentOperation
      → List (NormalizedTransaction T) × String
  page_loop normalized next_cursor [] = (normalized, next_cursor)
  page_loop normalized next_cursor (r ∷ records) =
      page_loop (kept normalized (normalize_horizon_operation r)) r.transaction_hash records

  module _ ⦃text : TimestampText T⦄ where
    abbrev pub of_page :
        String
        → Result HorizonOperationsResponse String
        → Result (List (NormalizedTransaction T) × String) HorizonError
    of_page cursor (fail e) = fail (http e)
    of_page cursor (ok resp) = ok (page_loop [] cursor resp.embedded.records)

    abbrev pub of_status :
        String → Result Reply String → Result (List (NormalizedTransaction T) × String) HorizonError
    of_status cursor (fail e) = fail (http e)
    of_status cursor (ok reply) = of_page cursor reply.json

    abbrev pub of_sent :
        String → Result Reply String → Result (List (NormalizedTransaction T) × String) HorizonError
    of_sent cursor (fail e) = fail (http e)
    of_sent cursor (ok reply) = of_status cursor (error_for_status reply reply.status_error)

    unfoldable pub fetch_operations :
        HttpHorizonClient → String → Result (List (NormalizedTransaction T) × String) HorizonError
    unfolding operations_url
    fetch_operations client cursor =
        of_sent cursor (client.http.get_url (operations_url client cursor))
