-- ===== src/Audit/Chain.antt =====
-- What `verify_integrity` of crates/audit/src/lib.rs decides, and that `append` keeps it.
use stellartrace.Prelude.{
  ℕ, suc, ◌≡◌, ◌↔◌, refl, sym, ap, ◌∙◌, String, List, [], ◌∷◌, ◌++◌, last, string_eq, arith,
}
use stellartrace.Platform.{Uuid}
use stellartrace.Audit.Log.{
  AuditRecord, AuditEventKind, Hashing, genesis_hash, head_hash, next_record, append,
}
use stellartrace.Audit.Verify.{intact, recomputed, verify_from, verify_integrity}

module _ {F T : Type 0} where
  -- the hash that a record after `records` must chain to, if the first one chains to `e`
  abbrev pub tip : String → List (AuditRecord F T) → String
  tip e [] = e
  tip e (r ∷ rs) = tip r.this_hash rs

  tip-last :
      (e : String) (r : AuditRecord F T) (rs : List (AuditRecord F T))
      → tip e (r ∷ rs) ≡ head_hash (last (r ∷ rs))
  tip-last e r [] = refl
  tip-last e r (s ∷ rs) = tip-last r.this_hash s rs

  pub tip-head_hash : (rs : List (AuditRecord F T)) → tip genesis_hash rs ≡ head_hash (last rs)
  tip-head_hash [] = refl
  tip-head_hash (r ∷ rs) = tip-last genesis_hash r rs

module _ {F T : Type 0} ⦃h : Hashing F T⦄ where
  -- A record chains to `e` and holds the hash of its own fields.
  abbrev pub IsLink : String → AuditRecord F T → Type 0
  IsLink e r = (r.prev_hash ≡ e) × (recomputed r ≡ r.this_hash)

  pub verify_from-cons :
      (i : ℕ) (e : String) (r : AuditRecord F T) (rs : List (AuditRecord F T))
      → verify_from i e (r ∷ rs) ≡ intact
      → IsLink e r × (verify_from (suc i) r.this_hash rs ≡ intact)
  unfolding verify_from
  verify_from-cons i e r rs ok = (
    (
      ground (arith, string_eq.test_iff r.prev_hash e),
      ground (arith, string_eq.test_iff (recomputed r) r.this_hash),
    ),
    ground arith,
  )

  pub cons-verify_from :
      (i : ℕ) (e : String) (r : AuditRecord F T) (rs : List (AuditRecord F T))
      → IsLink e r
      → verify_from (suc i) r.this_hash rs ≡ intact
      → verify_from i e (r ∷ rs) ≡ intact
  unfolding verify_from
  cons-verify_from i e r rs (prev, this) ok =
      ground
        (arith, string_eq.test_iff r.prev_hash e, string_eq.test_iff (recomputed r) r.this_hash)

  pub verify_from-append :
      (i : ℕ) (e : String) (xs ys : List (AuditRecord F T))
      → verify_from i e (xs ++ ys) ≡ intact
      → verify_from i e xs ≡ intact
  unfolding verify_from
  verify_from-append i e [] ys ok = refl
  verify_from-append i e (r ∷ xs) ys ok =
      let (link, rest) = verify_from-cons i e r (xs ++ ys) ok in
      cons-verify_from i e r xs link (verify_from-append (suc i) r.this_hash xs ys rest)

  verify_from-snoc :
      (i : ℕ) (e : String) (rs : List (AuditRecord F T)) (r : AuditRecord F T)
      → verify_from i e rs ≡ intact
      → IsLink (tip e rs) r
      → verify_from i e (rs ++ r ∷ []) ≡ intact
  unfolding verify_from
  verify_from-snoc i e [] r ok link = cons-verify_from i e r [] link refl
  verify_from-snoc i e (x ∷ rs) r ok link =
      let (first, rest) = verify_from-cons i e x rs ok in
      cons-verify_from i e x (rs ++ r ∷ []) first
        (verify_from-snoc (suc i) x.this_hash rs r rest link)

  -- An append to a log that verifies gives a log that verifies, whatever the alert, the transaction
  -- and the event.
  pub append-intact :
      (records : List (AuditRecord F T)) (record_id : Uuid) (now : T) (alert_id : Uuid)
      (tx_hash : String) (event : AuditEventKind F)
      → verify_integrity records ≡ intact
      → verify_integrity (append records record_id now alert_id tx_hash event) ≡ intact
  unfolding verify_integrity append next_record recomputed
  append-intact records record_id now alert_id tx_hash event ok =
      verify_from-snoc 0 genesis_hash records
        (next_record records record_id now alert_id tx_hash event) ok
        (sym (tip-head_hash records), refl)

  -- Removing records from the end of a log that verifies is not detected: what is left verifies.
  pub truncation-intact :
      (kept removed : List (AuditRecord F T))
      → verify_integrity (kept ++ removed) ≡ intact
      → verify_integrity kept ≡ intact
  unfolding verify_integrity
  truncation-intact kept removed ok = verify_from-append 0 genesis_hash kept removed ok

  IsLink-at :
      (i : ℕ) (e : String) (before : List (AuditRecord F T)) (r : AuditRecord F T)
      (after : List (AuditRecord F T))
      → verify_from i e (before ++ r ∷ after) ≡ intact
      → IsLink (tip e before) r
  IsLink-at i e [] r after ok = (verify_from-cons i e r after ok).0
  IsLink-at i e (x ∷ before) r after ok =
      IsLink-at (suc i) x.this_hash before r after
        (verify_from-cons i e x (before ++ r ∷ after) ok).1

  links-verify :
      (i : ℕ) (e : String) (records : List (AuditRecord F T))
      → ((before after : List (AuditRecord F T)) (r : AuditRecord F T)
          → records ≡ before ++ r ∷ after
          → IsLink (tip e before) r)
      → verify_from i e records ≡ intact
  unfolding verify_from
  links-verify i e [] links = refl
  links-verify i e (x ∷ rs) links = cons-verify_from i e x rs (links [] rs x refl) (
      links-verify (suc i) x.this_hash rs
        (λ before after r same. links (x ∷ before) after r (ap (λ l. x ∷ l) same)))

  -- `verify_integrity` accepts a log just if each record, wherever it stands, chains to the record
  -- before it (the first one to the genesis hash) and holds the hash of its own fields.
  pub verify_integrity_iff :
      (records : List (AuditRecord F T))
      → (verify_integrity records ≡ intact) ↔ (
          (before after : List (AuditRecord F T)) (r : AuditRecord F T)
          → records ≡ before ++ r ∷ after
          → (r.prev_hash ≡ head_hash (last before)) × (recomputed r ≡ r.this_hash))
  unfolding verify_integrity
  verify_integrity_iff records = (
    λ ok before after r same.
        let (prev, this) =
          IsLink-at 0 genesis_hash before r after
            (ap (verify_from 0 genesis_hash) (sym same) ∙ ok) in
        (prev ∙ tip-head_hash before, this),
    λ links. links-verify 0 genesis_hash records (λ before after r same.
        let (prev, this) = links before after r same in (prev ∙ sym (tip-head_hash before), this)),
  )
