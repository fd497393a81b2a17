-- ===== src/Prelude/Lists.antt =====
-- Lists measured by native numbers and filtered by Boolean tests, as the iterators of the source do.
use Prim.Native.Nat.{ℕ, zero, suc, ◌+◌, ◌-◌, ◌≤◌}
use mathlib.Core.Path.{◌≡◌, refl, ap, sym, ◌∙◌}
use mathlib.Core.Bool.{Bool, true, false}
use mathlib.Core.List.{
  List, [], ◌∷◌, ◌++◌, map, Mem, mem-cons, mem-cons_self, mem-cons_of_mem, not-mem-nil,
}
use mathlib.Core.Logic.Or
use mathlib.Core.Logic.{◌≢◌}
use mathlib.Core.Option.{Option, none, some}
use native.Mathlib.Omega.{arith}
use mathlib.Core.Logic.{inl, inr}
use stellartrace.Prelude.Tests.{if◌then◌else◌, Bool-cases}

module _ {ℓ} {A : Type ℓ} where
  abbrev pub length : List A → ℕ
  length [] = 0
  length (x ∷ xs) = suc (length xs)

  -- `iter().filter(p)`
  abbrev pub filter : (A → Bool) → List A → List A
  filter p [] = []
  filter p (x ∷ xs) = let rest = filter p xs in if p x then x ∷ rest else rest

  -- `iter().filter(p).count()`
  abbrev pub count : (A → Bool) → List A → ℕ
  count p xs = length (filter p xs)

  -- `iter().find(p)`
  abbrev pub find : (A → Bool) → List A → Option A
  find p [] = none
  find p (x ∷ xs) = let rest = find p xs in if p x then some x else rest

  -- `last()`
  abbrev pub last : List A → Option A
  last [] = none
  last (x ∷ []) = some x
  last (x ∷ y ∷ xs) = last (y ∷ xs)

  abbrev pub drop : ℕ → List A → List A
  drop zero xs = xs
  drop (suc n) [] = []
  drop (suc n) (x ∷ xs) = drop n xs

  -- `iter().take(n)`
  abbrev pub take : ℕ → List A → List A
  take zero xs = []
  take (suc n) [] = []
  take (suc n) (x ∷ xs) = x ∷ take n xs

  abbrev pub is_empty : List A → Bool
  is_empty [] = true
  is_empty (x ∷ xs) = false

  -- Every item satisfies `P`; some item does.
  abbrev pub All {κ} : (A → Type κ) → List A → Type κ
  All P [] = Unit
  All P (x ∷ xs) = P x × All P xs

  pub length-append : (xs ys : List A) → length (xs ++ ys) ≡ length xs + length ys
  length-append [] ys = omega arith
  length-append (x ∷ xs) ys = omega (arith, length-append xs ys)

  pub length-drop : (n : ℕ) (xs : List A) → length (drop n xs) ≡ length xs - n
  length-drop zero xs = omega arith
  length-drop (suc n) [] = omega arith
  length-drop (suc n) (x ∷ xs) = omega (arith, length-drop n xs)

  pub filter-append :
      (p : A → Bool) (xs ys : List A) → filter p (xs ++ ys) ≡ filter p xs ++ filter p ys
  filter-append p [] ys = refl
  filter-append p (x ∷ xs) ys = ground (arith, filter-append p xs ys)

  pub count-le-length : (p : A → Bool) (xs : List A) → count p xs ≤ length xs
  count-le-length p [] = omega arith
  count-le-length p (x ∷ xs) = ground (arith, count-le-length p xs)

  pub count-append : (p : A → Bool) (xs ys : List A) → count p (xs ++ ys) ≡ count p xs + count p ys
  count-append p [] ys = omega arith
  count-append p (x ∷ xs) ys = ground (arith, count-append p xs ys)

  pub last-append : (xs : List A) (x : A) → last (xs ++ x ∷ []) ≡ some x
  last-append [] x = refl
  last-append (y ∷ []) x = refl
  last-append (y ∷ z ∷ xs) x = last-append (z ∷ xs) x

  pub All-append {κ} : (P : A → Type κ) (xs ys : List A) → All P xs → All P ys → All P (xs ++ ys)
  All-append P [] ys first others = others
  All-append P (x ∷ xs) ys (here, rest) others = (here, All-append P xs ys rest others)

  pub All-drop {κ} : (P : A → Type κ) (n : ℕ) (xs : List A) → All P xs → All P (drop n xs)
  All-drop P zero xs h = h
  All-drop P (suc n) [] h = h
  All-drop P (suc n) (x ∷ xs) h = All-drop P n xs h.1

  pub All-filter {κ} :
      (P : A → Type κ) (p : A → Bool) (xs : List A) → All P xs → All P (filter p xs)
  All-filter P p [] h = h
  All-filter P p (x ∷ xs) h = elim (Bool-cases (p x)) [
    | inl e ↦ rw e (h.0, All-filter P p xs h.1)
    | inr e ↦ rw e (All-filter P p xs h.1)
  ]

suc_add : (a b : ℕ) → suc a + b ≡ suc (a + b)
suc_add a b = omega arith

zero_add : (a : ℕ) → a ≡ 0 + a
zero_add a = omega arith

module _ {ℓ} {A : Type ℓ} where
  -- the last `n` items, or all if there are fewer
  abbrev pub recent : ℕ → List A → List A
  recent n xs = drop (length xs - n) xs

  drop-append : (k : ℕ) (xs ys : List A) → k ≤ length xs → drop k xs ++ ys ≡ drop k (xs ++ ys)
  drop-append zero xs ys h = refl
  drop-append (suc k) [] ys h = absurd (omega arith)
  drop-append (suc k) (x ∷ xs) ys h = drop-append k xs ys (omega arith)

  drop-drop : (a b : ℕ) (xs : List A) → drop a (drop b xs) ≡ drop (b + a) xs
  drop-drop a zero xs = ap (λ i. drop i xs) (zero_add a)
  drop-drop zero (suc b) [] = ap (λ i. drop i []) (sym (suc_add b 0))
  drop-drop (suc a) (suc b) [] = ap (λ i. drop i []) (sym (suc_add b (suc a)))
  drop-drop a (suc b) (x ∷ xs) = drop-drop a b xs ∙ ap (λ i. drop i (x ∷ xs)) (sym (suc_add b a))

  -- Keeping the last items at every addition keeps the last items of all.
  pub recent-append :
      (n : ℕ) (xs : List A) (x : A) → recent n (recent n xs ++ x ∷ []) ≡ recent n (xs ++ x ∷ [])
  recent-append n xs x =
      let k = length xs - n in
      let joined = drop-append k xs (x ∷ []) (omega arith) in
      ap (recent n) joined
      ∙ drop-drop (length (drop k (xs ++ x ∷ [])) - n) k (xs ++ x ∷ [])
      ∙ ap (λ i. drop i (xs ++ x ∷ []))
          (omega (arith, length-drop k (xs ++ x ∷ []), length-append xs (x ∷ [])))

  pub length-recent : (n : ℕ) (xs : List A) → length (recent n xs) ≤ n
  length-recent n xs = omega (arith, length-drop (length xs - n) xs)

module _ {ℓ κ} {A : Type ℓ} {B : Type κ} where
  pub length-map : (f : A → B) (xs : List A) → length (map f xs) ≡ length xs
  length-map f [] = refl
  length-map f (x ∷ xs) = ap suc (length-map f xs)

module _ {ℓ} {A : Type ℓ} (p : A → Bool) where
  -- What `find` returns is in the list and passes the test.
  pub find-mem : (xs : List A) {x : A} → find p xs ≡ some x → Mem x xs × (p x ≡ true)
  find-mem [] h = cc
  find-mem (y ∷ ys) {x} h = elim (Bool-cases (p y)) [
    | inl e ↦ let same : y ≡ x = ground arith in (rw same mem-cons_self, rw (← same) e)
    | inr e ↦
        let (inside, passes) = find-mem ys {x = x} (ground arith) in
        (mem-cons_of_mem y inside, passes)
  ]

  -- `find` fails only if no item passes the test.
  pub find-ne-none : (xs : List A) {x : A} → Mem x xs → p x ≡ true → find p xs ≢ none
  find-ne-none [] m h e = absurd (not-mem-nil m)
  find-ne-none (y ∷ ys) {x} m h e = elim (Bool-cases (p y)) [
    | inl passes ↦ ground arith
    | inr fails ↦
        Or.elim (hlevel) (mem-cons.0 m) (λ (same : x ≡ y). ground arith)
          (λ inside. find-ne-none ys inside h (ground arith))
  ]

  pub mem-filter_of : (xs : List A) {x : A} → Mem x xs → p x ≡ true → Mem x (filter p xs)
  mem-filter_of [] m h = absurd (not-mem-nil m)
  mem-filter_of (y ∷ ys) {x} m h =
      Or.elim (squash₁) (mem-cons.0 m) (λ (same : x ≡ y). rw (← same, h) mem-cons_self)
        (λ inside. elim (Bool-cases (p y)) [
          | inl e ↦ rw e (mem-cons_of_mem y (mem-filter_of ys inside h))
          | inr e ↦ rw e (mem-filter_of ys inside h)
        ])

  pub filter-mem : (xs : List A) {x : A} → Mem x (filter p xs) → Mem x xs × (p x ≡ true)
  filter-mem [] m = absurd (not-mem-nil m)
  filter-mem (y ∷ ys) {x} m = elim (Bool-cases (p y)) [
    | inl e ↦
        Or.elim (hlevel squash₁) (mem-cons.0 (rw e at m))
          (λ (same : x ≡ y). (rw same mem-cons_self, rw same e))
          (λ inside. let (i, q) = filter-mem ys {x = x} inside in (mem-cons_of_mem y i, q))
    | inr e ↦ let (i, q) = filter-mem ys {x = x} (rw e at m) in (mem-cons_of_mem y i, q)
  ]

module _ {ℓ} {A : Type ℓ} where
  pub All-mem {κ} :
      (P : A → Type κ)
      → ((x : A) → IsProp (P x))
      → (xs : List A) {x : A} → All P xs
      → Mem x xs
      → P x
  All-mem P prop [] h m = absurd (not-mem-nil m)
  All-mem P prop (y ∷ ys) {x} h m =
      Or.elim (prop x) (mem-cons.0 m) (λ (same : x ≡ y). rw same h.0)
        (λ inside. All-mem P prop ys h.1 inside)
