-- ===== src/Api/Paths.antt =====
-- The paths of crates/api/src/lib.rs that lead to an evaluation.
use stellartrace.Prelude.{◌≡◌, some, Option, String, List, [], ◌∷◌, string_eq, ◌⊎◌, inl, inr, arith}
use stellartrace.Api.Router.{
  Endpoint, transactions, evaluation, matched, two_segments, three_segments, four_segments,
}

-- the two paths that evaluate a transaction
abbrev pub IsEvaluationPath : List String → Type 0
IsEvaluationPath segments =
    (segments ≡ "api" ∷ "transactions" ∷ [])
    ⊎ ((tx_hash : String) × (segments ≡ "api" ∷ "transactions" ∷ tx_hash ∷ "evaluate" ∷ []))

abbrev pub Evaluates : Option Endpoint → Type 0
Evaluates o = (o ≡ some transactions) ⊎ ((tx_hash : String) × (o ≡ some (evaluation tx_hash)))

two_segments-transactions : (b : String) → two_segments b ≡ some transactions → b ≡ "transactions"
two_segments-transactions b e = ground (arith, string_eq.test_iff b "transactions")

three_segments-transactions : (b c : String) → three_segments b c ≡ some transactions → ⊥
three_segments-transactions b c e = ground arith

four_segments-transactions : (b c d : String) → four_segments b c d ≡ some transactions → ⊥
four_segments-transactions b c d e = ground arith

three_segments-evaluation :
    (b c tx_hash : String) → three_segments b c ≡ some (evaluation tx_hash) → ⊥
three_segments-evaluation b c tx_hash e = ground arith

four_segments-evaluation :
    (b c d tx_hash : String)
    → four_segments b c d ≡ some (evaluation tx_hash)
    → (b ≡ "transactions") × (c ≡ tx_hash) × (d ≡ "evaluate")
four_segments-evaluation b c d tx_hash e =
    ground (arith, string_eq.test_iff b "transactions", string_eq.test_iff d "evaluate")

matched-transactions :
    (segments : List String)
    → matched segments ≡ some transactions
    → segments ≡ "api" ∷ "transactions" ∷ []
unfolding matched
matched-transactions [] e = absurd (cc)
matched-transactions (a ∷ []) e = absurd (ground arith)
matched-transactions (a ∷ b ∷ []) e =
    ground (arith, string_eq.test_iff a "api", two_segments-transactions b)
matched-transactions (a ∷ b ∷ c ∷ []) e = absurd (ground (arith, three_segments-transactions b c))
matched-transactions (a ∷ b ∷ c ∷ d ∷ []) e =
    absurd (ground (arith, four_segments-transactions b c d))
matched-transactions (a ∷ b ∷ c ∷ d ∷ f ∷ rest) e = absurd (cc)

matched-evaluation :
    (segments : List String) (tx_hash : String)
    → matched segments ≡ some (evaluation tx_hash)
    → segments ≡ "api" ∷ "transactions" ∷ tx_hash ∷ "evaluate" ∷ []
unfolding matched
matched-evaluation [] tx_hash e = absurd (cc)
matched-evaluation (a ∷ []) tx_hash e = absurd (ground arith)
matched-evaluation (a ∷ b ∷ []) tx_hash e = absurd (ground arith)
matched-evaluation (a ∷ b ∷ c ∷ []) tx_hash e =
    absurd (ground (arith, three_segments-evaluation b c tx_hash))
matched-evaluation (a ∷ b ∷ c ∷ d ∷ []) tx_hash e =
    ground (arith, string_eq.test_iff a "api", four_segments-evaluation b c d tx_hash)
matched-evaluation (a ∷ b ∷ c ∷ d ∷ f ∷ rest) tx_hash e = absurd (cc)

pub evaluation_path :
    (segments : List String) → Evaluates (matched segments) → IsEvaluationPath segments
evaluation_path segments (inl e) = inl (matched-transactions segments e)
evaluation_path segments (inr (tx_hash, e)) = inr (tx_hash, matched-evaluation segments tx_hash e)
