-- ===== src/Ingestion/Refusal.antt =====
-- When `normalize_horizon_operation` of crates/ingestion/src/normalize.rs refuses an operation.
use stellartrace.Prelude.{◌≡◌, ◌↔◌, refl, sym, ap, ◌∙◌, Option, none, some}
use stellartrace.Prelude.Outcome.{fail}
use stellartrace.Ingestion.Normalize.{
  HorizonPaymentOperation, NormalizeError, bad_timestamp, TimestampText, normalized,
  normalize_horizon_operation,
}

module _ {T : Type 0} ⦃text : TimestampText T⦄ where
  -- An operation is refused just if its timestamp cannot be parsed, and then with `bad_timestamp`. No
  -- type of operation is refused.
  pub normalize_horizon_operation_iff :
      (op : HorizonPaymentOperation) (e : NormalizeError)
      → (normalize_horizon_operation {T = T} op ≡ fail e)
        ↔ ((text.parse_timestamp op.created_at ≡ none) × (e ≡ bad_timestamp op.created_at))
  unfolding normalize_horizon_operation
  normalize_horizon_operation_iff op e = (
    λ refused. split (text.parse_timestamp op.created_at) refl refused,
    λ (unparsed, is). ap (normalized op) unparsed ∙ ap fail (sym is),
  )
    where
      split :
          (o : Option T)
          → text.parse_timestamp op.created_at ≡ o
          → normalized op o ≡ fail e
          → (text.parse_timestamp op.created_at ≡ none) × (e ≡ bad_timestamp op.created_at)
      split none is refused = (is, cc)
      split (some t) is refused = absurd (cc)
