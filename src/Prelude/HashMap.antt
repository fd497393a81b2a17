-- ===== src/Prelude/HashMap.antt =====
-- `HashMap` as an association list: the order of the list is the order in which the map iterates,
-- which the standard library leaves open. A new key comes last, and an old one keeps its place.
use stellartrace.Prelude.{◌≡◌, refl, ◌≢◌, Option, none, some, List, [], ◌∷◌, arith}
use stellartrace.Prelude.{Eq, ◌==◌, if◌then◌else◌, Bool-cases, inl, inr, All}

abbrev pub HashMap {ℓ κ} : Type ℓ → Type κ → Type (ℓ ⊔ κ)
HashMap K V = List (K × V)

abbrev pub values {ℓ κ} : {K : Type ℓ} {V : Type κ} → HashMap K V → List V
values [] = []
values ((k, v) ∷ m) = v ∷ values m

module _ {ℓ κ} {K : Type ℓ} {V : Type κ} ⦃e : Eq K⦄ where
  unfoldable pub get : K → HashMap K V → Option V
  get k [] = none
  get k ((j, v) ∷ m) = if j == k then some v else get k m

  unfoldable pub insert : K → V → HashMap K V → HashMap K V
  insert k v [] = (k, v) ∷ []
  insert k v ((j, w) ∷ m) = if j == k then (j, v) ∷ m else (j, w) ∷ insert k v m

  unfoldable pub remove : K → HashMap K V → HashMap K V
  remove k [] = []
  remove k ((j, w) ∷ m) = let rest = remove k m in if j == k then rest else (j, w) ∷ rest

  pub get-nil : (k : K) → get k [] ≡ none
  unfolding get
  get-nil k = refl

  pub get-insert :
      (k j : K) (v : V) (m : HashMap K V)
      → get j (insert k v m) ≡ (if k == j then some v else get j m)
  unfolding get insert
  get-insert k j v [] = refl
  get-insert k j v ((i, w) ∷ m) =
      ground (arith, e.test_iff k j, e.test_iff i k, e.test_iff i j, get-insert k j v m)

  pub get-insert_self : (k : K) (v : V) (m : HashMap K V) → get k (insert k v m) ≡ some v
  get-insert_self k v m = ground (arith, get-insert k k v m, e.test_iff k k)

  pub get-insert_ne : (k j : K) (v : V) (m : HashMap K V) → k ≢ j → get j (insert k v m) ≡ get j m
  get-insert_ne k j v m h = ground (arith, get-insert k j v m, e.test_iff k j)

  pub get-remove :
      (k j : K) (m : HashMap K V) → get j (remove k m) ≡ (if k == j then none else get j m)
  unfolding get remove
  get-remove k j [] = ground arith
  get-remove k j ((i, w) ∷ m) =
      ground (arith, e.test_iff k j, e.test_iff i k, e.test_iff i j, get-remove k j m)

  -- What holds of every value still holds after an insertion of one more.
  pub All-insert {μ} :
      (P : V → Type μ) (k : K) (v : V) (m : HashMap K V)
      → P v
      → All P (values m)
      → All P (values (insert k v m))
  unfolding insert
  All-insert P k v [] p h = (p, h)
  All-insert P k v ((j, w) ∷ m) p h = elim (Bool-cases (j == k)) [
    | inl same ↦ rw (same, insert) (p, h.1)
    | inr other ↦ rw (other, insert) (h.0, All-insert P k v m p h.1)
  ]

  pub All-get {μ} :
      (P : V → Type μ) (k : K) {v : V} (m : HashMap K V) → All P (values m) → get k m ≡ some v → P v
  unfolding get
  All-get P k [] h g = absurd (ground arith)
  All-get P k ((j, w) ∷ m) h g = elim (Bool-cases (j == k)) [
    | inl same ↦ let q : w ≡ _ = ground arith in rw q at h.0
    | inr other ↦ All-get P k m h.1 (ground arith)
  ]
