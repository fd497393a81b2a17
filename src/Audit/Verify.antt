-- ===== src/Audit/Verify.antt =====
-- `AuditLog::verify_integrity` of crates/audit/src/lib.rs.
use stellartrace.Prelude.{ℕ, suc, not, String, List, [], ◌∷◌, string_eq, ◌==◌, if◌then◌else◌}
use stellartrace.Audit.Log.{AuditRecord, Hashing, compute_hash, genesis_hash}

pub data IntegrityError : Type 0 where
  chain_broken hash_mismatch : ℕ → IntegrityError

pub data Verdict : Type 0 where
  intact : Verdict
  err : IntegrityError → Verdict

module _ {F T : Type 0} ⦃h : Hashing F T⦄ where
  -- the hash of a record, computed again from its fields
  unfoldable pub recomputed : AuditRecord F T → String
  unfolding compute_hash
  recomputed r = compute_hash r.prev_hash r.record_id r.alert_id r.tx_hash r.timestamp r.event

  -- the loop, at index `i` with the hash that the next record must chain to
  unfoldable pub verify_from : ℕ → String → List (AuditRecord F T) → Verdict
  verify_from i expected_prev [] = intact
  verify_from i expected_prev (r ∷ rest) =
      let later = verify_from (suc i) r.this_hash rest in
      if not (r.prev_hash == expected_prev)
      then err (chain_broken i)
      else if not (recomputed r == r.this_hash)
      then err (hash_mismatch i)
      else later

  unfoldable pub verify_integrity : List (AuditRecord F T) → Verdict
  unfolding verify_from recomputed
  verify_integrity records = verify_from 0 genesis_hash records
