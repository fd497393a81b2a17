-- ===== src/Audit/Fault.antt =====
-- What an error of `verify_integrity` of crates/audit/src/lib.rs says of the log.
use stellartrace.Prelude.{
  ℕ, suc, ◌+◌, ◌≡◌, ◌≢◌, refl, ap, subst, String, List, [], ◌∷◌, ◌++◌, last, length, string_eq,
  ◌==◌, Bool-cases, inl, inr, arith,
}
use stellartrace.Audit.Log.{AuditRecord, Hashing, genesis_hash, head_hash}
use stellartrace.Audit.Verify.{
  intact, err, IntegrityError, chain_broken, hash_mismatch, recomputed, verify_from,
  verify_integrity,
}
use stellartrace.Audit.Chain.{tip, tip-head_hash, cons-verify_from}

abbrev pub index : IntegrityError → ℕ
index (chain_broken i) = i
index (hash_mismatch i) = i

module _ {F T : Type 0} ⦃h : Hashing F T⦄ where
  -- what is wrong with a record that should chain to `e`
  abbrev pub IsFault : IntegrityError → String → AuditRecord F T → Type 0
  IsFault (chain_broken i) e r = r.prev_hash ≢ e
  IsFault (hash_mismatch i) e r = (r.prev_hash ≡ e) × (recomputed r ≢ r.this_hash)

  -- The records before the fault, the record at fault, and those after it.
  record Fault (i : ℕ) (e : String) (records : List (AuditRecord F T)) (error : IntegrityError)
      : Type 0 where
    before : List (AuditRecord F T)
    culprit : AuditRecord F T
    after : List (AuditRecord F T)
    split : records ≡ before ++ culprit ∷ after
    at : index error ≡ i + length before
    good : verify_from i e before ≡ intact
    fault : IsFault error (tip e before) culprit

  here :
      (i : ℕ) (e : String) (r : AuditRecord F T) (rs : List (AuditRecord F T))
      (error : IntegrityError)
      → index error ≡ i
      → IsFault error e r
      → Fault i e (r ∷ rs) error
  unfolding verify_from
  here i e r rs error at fault = record {
    before = [];
    culprit = r;
    after = rs;
    split = refl;
    at = omega arith;
    good = refl;
    fault = fault;
  }

  there :
      (i : ℕ) (e : String) (r : AuditRecord F T) (rs : List (AuditRecord F T))
      (error : IntegrityError)
      → (r.prev_hash ≡ e) × (recomputed r ≡ r.this_hash)
      → Fault (suc i) r.this_hash rs error
      → Fault i e (r ∷ rs) error
  there i e r rs error link f = record {
    before = r ∷ f.before;
    culprit = f.culprit;
    after = f.after;
    split = ap (λ l. r ∷ l) f.split;
    at = omega (arith, f.at);
    good = cons-verify_from i e r f.before link f.good;
    fault = f.fault;
  }

  verify_from-Fault :
      (i : ℕ) (e : String) (records : List (AuditRecord F T)) (error : IntegrityError)
      → verify_from i e records ≡ err error
      → Fault i e records error
  unfolding verify_from
  verify_from-Fault i e [] error bad = absurd (ground arith)
  verify_from-Fault i e (r ∷ rs) error bad = elim (Bool-cases (r.prev_hash == e)) [
    | inr broken ↦
        let same : chain_broken i ≡ error = ground arith in
        subst (Fault i e (r ∷ rs)) same
          (here i e r rs (chain_broken i) refl (ground (arith, string_eq.test_iff r.prev_hash e)))
    | inl chained ↦
        let prev : r.prev_hash ≡ e = (string_eq.test_iff r.prev_hash e).0 chained in
        elim (Bool-cases (recomputed r == r.this_hash)) [
          | inr differs ↦
              let same : hash_mismatch i ≡ error = ground arith in
              subst (Fault i e (r ∷ rs)) same (
                here i e r rs (hash_mismatch i) refl
                  (prev, ground (arith, string_eq.test_iff (recomputed r) r.this_hash)))
          | inl holds ↦
              there i e r rs error (prev, (string_eq.test_iff (recomputed r) r.this_hash).0 holds)
                (verify_from-Fault (suc i) r.this_hash rs error (ground arith))
        ]
  ]

  pub record FirstFault (records : List (AuditRecord F T)) (error : IntegrityError) : Type 0 where
    pub before : List (AuditRecord F T)
    pub culprit : AuditRecord F T
    pub after : List (AuditRecord F T)
    pub split : records ≡ before ++ culprit ∷ after
    pub at : length before ≡ index error
    pub good : verify_integrity before ≡ intact
    pub fault : IsFault error (head_hash (last before)) culprit

  -- An error names the first record at fault: the records before its index verify, and the record
  -- there does not chain to them (`chain_broken`) or, while it does, does not hold the hash of its
  -- own fields (`hash_mismatch`).
  pub verify_integrity-FirstFault :
      (records : List (AuditRecord F T)) (error : IntegrityError)
      → verify_integrity records ≡ err error
      → FirstFault records error
  unfolding verify_integrity
  verify_integrity-FirstFault records error bad =
      let f = verify_from-Fault 0 genesis_hash records error bad in
      record {
        before = f.before;
        culprit = f.culprit;
        after = f.after;
        split = f.split;
        at = omega (arith, f.at);
        good = f.good;
        fault = subst (λ e. IsFault error e f.culprit) (tip-head_hash f.before) f.fault;
      }
