-- ===== src/Audit/Tamper.antt =====
-- How far the hash chain of crates/audit/src/lib.rs fixes the log: by its length and last hash, up to
-- a collision of the digest.
use stellartrace.Prelude.{
  ℕ, suc, ◌≡◌, ◌≢◌, ◌⊎◌, inl, inr, refl, sym, ap, ap₂, ◌∙◌, String, List, [], ◌∷◌, ◌++◌, last,
  length, map, arith, nat_eq, Eq-discrete,
}
use stellartrace.Platform.{Bytes}
use stellartrace.Audit.Log.{AuditRecord, Hashing, genesis_hash, head_hash, content, compute_hash}
use stellartrace.Audit.Verify.{intact, recomputed, verify_from, verify_integrity}
use stellartrace.Audit.Chain.{tip, tip-head_hash, verify_from-cons}
use mathlib.Core.List.{List-discrete}

-- Byte strings of one length at the front of equal strings are equal.
front : (a b x y : Bytes) → length a ≡ length b → a ++ x ≡ b ++ y → a ≡ b
front [] [] x y same h = refl
front [] (d ∷ b) x y same h = absurd (omega arith)
front (c ∷ a) [] x y same h = absurd (omega arith)
front (c ∷ a) (d ∷ b) x y same h = ap₂ ◌∷◌ (cc) (front a b x y (omega (arith, same)) (cc))

bytes_discrete : Discrete Bytes
bytes_discrete = List-discrete Eq-discrete

module _ {F T : Type 0} where
  -- What the documentation of sha2 and hex says of the hash, and of the bytes of a text.
  pub record IsHexDigest (h : Hashing F T) : Type 0 where
    pub digest_length : (b : Bytes) → length (h.text_bytes (h.digest b)) ≡ 64
    pub text_bytes_injective : (s t : String) → h.text_bytes s ≡ h.text_bytes t → s ≡ t

  -- Two different inputs of one digest.
  pub record Collision (h : Hashing F T) : Type 0 where
    pub left : Bytes
    pub right : Bytes
    pub differ : left ≢ right
    pub collide : h.digest left ≡ h.digest right

module _ {F T : Type 0} ⦃h : Hashing F T⦄ where
  -- the bytes that a record's hash is of
  abbrev pub content_of : AuditRecord F T → Bytes
  content_of r = content r.prev_hash r.record_id r.alert_id r.tx_hash r.timestamp r.event

  this_hash-length :
      IsHexDigest h
      → (r : AuditRecord F T) → recomputed r ≡ r.this_hash
      → length (h.text_bytes r.this_hash) ≡ 64
  unfolding recomputed compute_hash
  this_hash-length hex r this =
      ap (λ s. length (h.text_bytes s)) (sym this) ∙ hex.digest_length (content_of r)

  contents-agree :
      IsHexDigest h
      → (i j : ℕ) (d e : String) (xs ys : List (AuditRecord F T))
      → length (h.text_bytes d) ≡ length (h.text_bytes e)
      → length xs ≡ length ys
      → verify_from i d xs ≡ intact
      → verify_from j e ys ≡ intact
      → tip d xs ≡ tip e ys
      → ((d ≡ e) × (map content_of xs ≡ map content_of ys)) ⊎ Collision h
  unfolding recomputed compute_hash content
  contents-agree hex i j d e [] [] wide long okx oky tips = inl (tips, refl)
  contents-agree hex i j d e [] (y ∷ ys) wide long okx oky tips = absurd (omega arith)
  contents-agree hex i j d e (x ∷ xs) [] wide long okx oky tips = absurd (omega arith)
  contents-agree hex i j d e (x ∷ xs) (y ∷ ys) wide long okx oky tips =
      let ((px, tx), rx) = verify_from-cons i d x xs okx in
      let ((py, ty), ry) = verify_from-cons j e y ys oky in
      let wider : length (h.text_bytes x.this_hash) ≡ length (h.text_bytes y.this_hash) =
        this_hash-length hex x tx ∙ sym (this_hash-length hex y ty) in
      elim (contents-agree hex (suc i) (suc j) x.this_hash y.this_hash xs ys wider
        (omega (arith, long)) rx ry tips) [
          | inr collision ↦ inr collision
          | inl (hashes, contents) ↦ elim (bytes_discrete (content_of x) (content_of y)) [
            | no differ ↦ inr (record {
              left = content_of x;
              right = content_of y;
              differ = differ;
              collide = tx ∙ hashes ∙ sym ty;
            })
            | yes same ↦
                let widths : length (h.text_bytes x.prev_hash) ≡ length (h.text_bytes y.prev_hash) =
                  ap (λ s. length (h.text_bytes s)) px
                  ∙ wide
                  ∙ sym (ap (λ s. length (h.text_bytes s)) py) in
                let prevs =
                  hex.text_bytes_injective x.prev_hash y.prev_hash (front _ _ _ _ widths same) in
                inl (sym px ∙ prevs ∙ py, ap₂ ◌∷◌ same contents)
          ]
        ]

  -- Two logs that verify, of one length and with one last hash, hash the same contents record by
  -- record, or show a collision of the digest. It is assumed that digests are 64 bytes of text and
  -- that different texts have different bytes.
  pub same_head-same_contents :
      IsHexDigest h
      → (xs ys : List (AuditRecord F T)) → length xs ≡ length ys
      → verify_integrity xs ≡ intact
      → verify_integrity ys ≡ intact
      → head_hash (last xs) ≡ head_hash (last ys)
      → (map content_of xs ≡ map content_of ys) ⊎ Collision h
  unfolding verify_integrity
  same_head-same_contents hex xs ys long okx oky heads =
      elim (contents-agree hex 0 0 genesis_hash genesis_hash xs ys refl long okx oky
        (tip-head_hash xs ∙ heads ∙ sym (tip-head_hash ys))) [
          | inl (same, contents) ↦ inl contents
          | inr collision ↦ inr collision
        ]
