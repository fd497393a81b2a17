-- ===== src/Ingestion/Normalize.antt =====
-- crates/ingestion/src/normalize.rs. Parsing the timestamp is chrono's.
use mathlib.Core.Option
use stellartrace.Prelude.{
  ℕ, Bool, true, false, ◌||◌, Option, none, some, String, [], string_eq, ◌==◌, if◌then◌else◌,
}
use stellartrace.Prelude.HashMap.{HashMap, insert}
use stellartrace.Prelude.Outcome.{Result, ok, fail}
use stellartrace.Common.{Asset, native, credit, NormalizedTransaction}

pub record HorizonPaymentOperation : Type 0 where
  pub transaction_hash : String
  pub source_account : String
  pub to : Option String
  pub from : Option String
  pub asset_type : String
  pub asset_code : Option String
  pub asset_issuer : Option String
  pub amount : Option String
  pub created_at : String
  pub type_field_ledger : Option ℕ
  pub ledger_sequence : Option ℕ
  pub function_name : Option String
  pub contract_id : Option String
  pub op_type : String

pub data NormalizeError : Type 0 where
  bad_timestamp unsupported_operation : String → NormalizeError

-- `str::parse` into a `DateTime<Utc>`
pub record TimestampText (T : Type 0) : Type 0 where
  pub parse_timestamp : String → Option T

-- `Option::or`
abbrev pub or_option : {A : Type 0} → Option A → Option A → Option A
or_option none b = b
or_option (some a) b = some a

abbrev pub has_value : {A : Type 0} → Option A → Bool
has_value none = false
has_value (some a) = true

abbrev pub asset_of : HorizonPaymentOperation → Asset
asset_of op =
    if op.asset_type == "native" || op.asset_type == ""
    then native
    else credit (Option.get_or op.asset_code "") (Option.get_or op.asset_issuer "")

abbrev pub is_soroban : HorizonPaymentOperation → Bool
is_soroban op = op.op_type == "invoke_host_function" || has_value op.contract_id

abbrev pub with_function : Option String → HashMap String String → HashMap String String
with_function none metadata = metadata
with_function (some func) metadata = insert "function_name" func metadata

module _ {T : Type 0} where
  abbrev pub transaction_of : HorizonPaymentOperation → T → NormalizedTransaction T
  transaction_of op timestamp = record {
    tx_hash = op.transaction_hash;
    ledger_sequence = Option.get_or (or_option op.ledger_sequence op.type_field_ledger) 0;
    source_account =
        if is_soroban op
        then Option.get_or op.from op.source_account
        else Option.get_or op.from op.source_account;
    destination_account = op.to;
    asset = asset_of op;
    amount = Option.get_or op.amount "0";
    timestamp = timestamp;
    is_soroban_invocation = is_soroban op;
    contract_id = op.contract_id;
    metadata = with_function op.function_name (insert "op_type" op.op_type []);
  }

  abbrev pub normalized :
      HorizonPaymentOperation → Option T → Result (NormalizedTransaction T) NormalizeError
  normalized op none = fail (bad_timestamp op.created_at)
  normalized op (some timestamp) = ok (transaction_of op timestamp)

  unfoldable pub normalize_horizon_operation :
      ⦃text : TimestampText T⦄
      → HorizonPaymentOperation
      → Result (NormalizedTransaction T) NormalizeError
  normalize_horizon_operation ⦃text⦄ op = normalized op (text.parse_timestamp op.created_at)
