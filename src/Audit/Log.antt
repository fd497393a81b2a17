-- ===== src/Audit/Log.antt =====
-- crates/audit/src/lib.rs: the records and the operations of `AuditLog`. The lock is held for the
-- whole of each operation, so each is one step on the list of records. `Uuid::new_v4` and
-- `Utc::now` are arguments. What the crates sha2, hex, serde_json, uuid and chrono make of their
-- inputs is the interface `Hashing`.
use stellartrace.Prelude.{
  Bool, Option, none, some, String, List, [], ◌∷◌, ◌++◌, filter, last, nat_eq, ◌==◌,
}
use stellartrace.Platform.{Uuid, Bytes}

pub data AuditEventKind (F : Type 0) : Type 0 where
  alert_created : F → String → AuditEventKind F
  rules_triggered : List String → AuditEventKind F
  ai_context_sent : String → AuditEventKind F
  ai_recommendation_received : F → Bool → AuditEventKind F
  investigator_decision : String → String → String → AuditEventKind F
  status_changed : String → String → AuditEventKind F
  note : String → AuditEventKind F

pub record AuditRecord (F T : Type 0) : Type 0 where
  pub record_id : Uuid
  pub alert_id : Uuid
  pub tx_hash : String
  pub timestamp : T
  pub event : AuditEventKind F
  pub prev_hash : String
  pub this_hash : String

pub record Hashing (F T : Type 0) : Type 0 where
  -- `str::as_bytes`, `Uuid::as_bytes`, `to_rfc3339().as_bytes()`
  pub text_bytes : String → Bytes
  pub uuid_bytes : Uuid → Bytes
  pub timestamp_bytes : T → Bytes
  -- `serde_json::to_vec`, which may fail
  pub to_vec : AuditEventKind F → Option Bytes
  -- SHA-256 of all that was fed to the hasher, in hexadecimal
  pub digest : Bytes → String

abbrev pub genesis_hash : String
genesis_hash =
    "0000000000000000000000000000000000000000000000000000000000000000000000000000000000000000000000"

abbrev unwrap_or_default : Option Bytes → Bytes
unwrap_or_default none = []
unwrap_or_default (some bytes) = bytes

module _ {F T : Type 0} ⦃h : Hashing F T⦄ where
  -- the bytes that `compute_hash` feeds to the hasher, one `update` after another
  unfoldable pub content : String → Uuid → Uuid → String → T → AuditEventKind F → Bytes
  content prev_hash record_id alert_id tx_hash timestamp event =
      h.text_bytes prev_hash
      ++ (h.uuid_bytes record_id
          ++ (h.uuid_bytes alert_id
              ++ (h.text_bytes tx_hash
                  ++ (h.timestamp_bytes timestamp ++ unwrap_or_default (h.to_vec event)))))

  unfoldable pub compute_hash : String → Uuid → Uuid → String → T → AuditEventKind F → String
  compute_hash prev_hash record_id alert_id tx_hash timestamp event =
      h.digest (content prev_hash record_id alert_id tx_hash timestamp event)

module _ {F T : Type 0} where
  -- the hash that the next record chains to
  abbrev pub head_hash : Option (AuditRecord F T) → String
  head_hash none = genesis_hash
  head_hash (some r) = r.this_hash

  unfoldable pub for_alert : List (AuditRecord F T) → Uuid → List (AuditRecord F T)
  for_alert records alert_id = filter (λ r. r.alert_id == alert_id) records

  -- `restore` puts the given records in the place of the log.
  unfoldable pub restore : List (AuditRecord F T) → List (AuditRecord F T) → List (AuditRecord F T)
  restore records restored = restored

module _ {F T : Type 0} ⦃h : Hashing F T⦄ where
  -- the record that `append` makes
  unfoldable pub next_record :
      List (AuditRecord F T) → Uuid → T → Uuid → String → AuditEventKind F → AuditRecord F T
  next_record records record_id now alert_id tx_hash event =
      let prev_hash = head_hash (last records) in
      record {
        record_id = record_id;
        alert_id = alert_id;
        tx_hash = tx_hash;
        timestamp = now;
        event = event;
        prev_hash = prev_hash;
        this_hash = compute_hash prev_hash record_id alert_id tx_hash now event;
      }

  unfoldable pub append :
      List (AuditRecord F T) → Uuid → T → Uuid → String → AuditEventKind F → List (AuditRecord F T)
  unfolding next_record
  append records record_id now alert_id tx_hash event =
      records ++ next_record records record_id now alert_id tx_hash event ∷ []
