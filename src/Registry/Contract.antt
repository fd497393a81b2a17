-- ===== src/Registry/Contract.antt =====
-- The contract of contracts/flagged_accounts/src/lib.rs. An entry point takes the storage and the
-- environment of its call, and returns the storage and the result. When `require_auth` fails, the host
-- traps and takes the storage back: that is the outcome `trapped`. An address is its text form.
use stellartrace.Prelude.{
  ℕ, Bool, true, false, not, Option, none, some, String, List, [], string_eq, contains,
  if◌then◌else◌,
}
use stellartrace.Prelude.HashMap.{HashMap, get, insert, remove}

abbrev pub Address : Type 0
Address = String

pub data ReasonCode : Type 0 where
  other large_transfer_pattern repeated_transaction_abuse abnormal_frequency : ReasonCode
  flagged_counterparty_interaction unusual_asset_movement confirmed_fraud : ReasonCode

pub record FlagRecord : Type 0 where
  pub reason : ReasonCode
  pub flagged_at_ledger_timestamp : ℕ

pub data RegistryError : Type 0 where
  already_initialized not_initialized not_flagged : RegistryError

-- The instance storage's `DataKey::Admin` and the persistent storage's `DataKey::Flag`.
pub record Storage : Type 0 where
  pub admin : Option Address
  pub flags : HashMap Address FlagRecord

-- Whose authorization the call carries, and the ledger's time.
pub record Env : Type 0 where
  pub authorized : List Address
  pub timestamp : ℕ

-- How a call ends.
pub data Outcome : Type 0 where
  done : Outcome
  error : RegistryError → Outcome
  trapped : Outcome

abbrev pub is_some : {A : Type 0} → Option A → Bool
is_some none = false
is_some (some a) = true

-- before `initialize`
abbrev pub empty_storage : Storage
empty_storage = record { admin = none; flags = [] }

unfoldable pub initialize : Storage → Address → Storage × Outcome
initialize st admin =
    if is_some st.admin
    then (st, error already_initialized)
    else (record { admin = some admin; flags = st.flags }, done)

-- the start of `set_admin`, `flag` and `unflag`: load the admin, then `require_auth`
abbrev pub as_admin : Storage → Env → Option Address → Storage × Outcome → Storage × Outcome
as_admin st env none body = (st, error not_initialized)
as_admin st env (some admin) body = if contains env.authorized admin then body else (st, trapped)

unfoldable pub set_admin : Storage → Env → Address → Storage × Outcome
set_admin st env new_admin =
    as_admin st env st.admin (record { admin = some new_admin; flags = st.flags }, done)

unfoldable pub flag : Storage → Env → Address → ReasonCode → Storage × Outcome
flag st env account reason = as_admin st env st.admin (
  record {
    admin = st.admin;
    flags =
        insert account (record { reason = reason; flagged_at_ledger_timestamp = env.timestamp })
          st.flags;
  },
  done,
)

unfoldable pub is_flagged : Storage → Address → Bool
is_flagged st account = is_some (get account st.flags)

unfoldable pub unflag : Storage → Env → Address → Storage × Outcome
unfolding is_flagged
unflag st env account = as_admin st env st.admin (
    if not (is_flagged st account)
    then (st, error not_flagged)
    else (record { admin = st.admin; flags = remove account st.flags }, done))

unfoldable pub get_flag : Storage → Address → Option FlagRecord
get_flag st account = get account st.flags
