-- ===== src/Tests/Audit.antt =====
-- The theorems on the audit log at concrete inputs.
use stellartrace.Prelude.{◌≡◌, ◌↔◌, ◌⊎◌, refl, List, [], ◌∷◌, ◌++◌, last, map, ℕ}
use stellartrace.Audit.{
  AuditRecord, append, next_record, compute_hash, content, note, verify_integrity, verify_from,
  intact, err, hash_mismatch, head_hash, recomputed,
}
use stellartrace.Audit.Chain.{verify_integrity_iff}
use stellartrace.Audit.Fault.{FirstFault, verify_integrity-FirstFault}
use stellartrace.Audit.Tamper.{same_head-same_contents, content_of, Collision}
use stellartrace.Tests.Samples.{parity, parity-IsHexDigest}

abbrev one : List (AuditRecord ℕ ℕ)
one = append [] 1 10 7 "h1" (note "first")

abbrev two : List (AuditRecord ℕ ℕ)
two = append one 2 20 7 "h1" (note "second")

-- the second record with its text altered
abbrev altered : List (AuditRecord ℕ ℕ)
altered = one ++ record (next_record one 2 20 7 "h1" (note "second")) { tx_hash = "h2" } ∷ []

one-intact : verify_integrity one ≡ intact
unfolding verify_integrity verify_from append next_record compute_hash content recomputed
one-intact = refl

verify_integrity_iff_example : (verify_integrity two ≡ intact) ↔ (
    (before after : List (AuditRecord ℕ ℕ)) (r : AuditRecord ℕ ℕ)
    → two ≡ before ++ r ∷ after
    → (r.prev_hash ≡ head_hash (last before)) × (recomputed r ≡ r.this_hash))
verify_integrity_iff_example = verify_integrity_iff two

altered-found : verify_integrity altered ≡ err (hash_mismatch 1)
unfolding verify_integrity verify_from append next_record compute_hash content recomputed
altered-found = refl

verify_integrity-FirstFault_example : FirstFault altered (hash_mismatch 1)
verify_integrity-FirstFault_example =
    verify_integrity-FirstFault altered (hash_mismatch 1) altered-found

same_head-same_contents_example :
    (map (content_of {F = ℕ} {T = ℕ}) one
      ≡ map (content_of {F = ℕ} {T = ℕ}) (append [] 3 10 7 "h1" (note "other")))
    ⊎ Collision parity
unfolding verify_integrity verify_from append next_record compute_hash content recomputed
same_head-same_contents_example =
    same_head-same_contents parity-IsHexDigest one (append [] 3 10 7 "h1" (note "other")) refl refl
      refl refl
