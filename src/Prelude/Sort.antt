-- ===== src/Prelude/Sort.antt =====
-- `sort_by`: a stable sort by a total preorder. The result of a stable sort does not depend on how
-- it is made, so insertion stands for the standard library's merge sort.
use mathlib.Core.List.{
  Mem, Perm, Pairwise, Pairwise-singleton, mem-cons_self, mem-cons_of_mem, forall_mem-cons,
}
use mathlib.Core.List.Pairwise
use mathlib.Core.List.Perm
use stellartrace.Prelude.{
  ◌≡◌, ap₂, true, false, List, [], ◌∷◌, arith, Bool, true, false, inl, inr, Bool-cases,
  if◌then◌else◌,
}
use stellartrace.Prelude.Order.{Order, ◌<=◌}

module _ {ℓ} {A : Type ℓ} (le : A → A → Bool) where
  -- before the first item that is not less, so items of one rank keep their order
  unfoldable pub insert_by : A → List A → List A
  insert_by x [] = x ∷ []
  insert_by x (y ∷ ys) = let rest = insert_by x ys in if le x y then x ∷ y ∷ ys else y ∷ rest

  -- `sort_by`, with the test whether the first item may stand before the second
  unfoldable pub sort_by : List A → List A
  unfolding insert_by
  sort_by [] = []
  sort_by (x ∷ xs) = insert_by x (sort_by xs)

module _ {ℓ} {A : Type ℓ} ⦃o : Order A⦄ where
  abbrev pub insert_sorted : A → List A → List A
  insert_sorted = insert_by o.le

  abbrev pub sort : List A → List A
  sort = sort_by o.le

  abbrev pub IsSorted : List A → Type ℓ
  IsSorted = Pairwise (λ a b. (a <= b) ≡ true)

  abbrev IsBelow : A → List A → Type ℓ
  IsBelow a l = (x : A) → Mem x l → (a <= x) ≡ true

  le_of_not : (a b : A) → (a <= b) ≡ false → (b <= a) ≡ true
  le_of_not a b h = ground (arith, o.le_total a b)

  le_self : (a : A) → (a <= a) ≡ true
  le_self a = ground (arith, o.le_total a a)

  insert_sorted-perm : (x : A) (l : List A) → Perm (insert_sorted x l) (x ∷ l)
  unfolding insert_by
  insert_sorted-perm x [] = Perm.rfl
  insert_sorted-perm x (y ∷ ys) = elim (Bool-cases (x <= y)) [
    | inl e ↦ rw (e, insert_by) Perm.rfl
    | inr e ↦
        rw (e, insert_by) (Perm.trans (Perm.cons y (insert_sorted-perm x ys)) (Perm.swap x y ys))
  ]

  pub sort-perm : (l : List A) → Perm (sort l) l
  unfolding sort_by
  sort-perm [] = Perm.rfl
  sort-perm (x ∷ xs) = Perm.trans (insert_sorted-perm x (sort xs)) (Perm.cons x (sort-perm xs))

  IsBelow-cons : {a b : A} {l : List A} → (a <= b) ≡ true → IsBelow a l → IsBelow a (b ∷ l)
  IsBelow-cons p h = (forall_mem-cons (λ x. hlevel)).1 (p, h)

  IsBelow-perm :
      {a : A} {sorted given : List A} → Perm sorted given → IsBelow a given → IsBelow a sorted
  IsBelow-perm p below x inside = below x ((Perm.mem_iff p).0 inside)

  IsBelow-head : {a b : A} {l : List A} → (a <= b) ≡ true → IsSorted (b ∷ l) → IsBelow a (b ∷ l)
  IsBelow-head {a} {b} p (Pairwise.cons h _) = IsBelow-cons p (λ x m. o.le_trans a b x p (h x m))

  insert_sorted-IsSorted : (x : A) {l : List A} → IsSorted l → IsSorted (insert_sorted x l)
  unfolding insert_by
  insert_sorted-IsSorted x Pairwise.nil = Pairwise-singleton _ x
  insert_sorted-IsSorted x (Pairwise.cons {a = y} {l = ys} below s) = elim (Bool-cases (x <= y)) [
    | inl e ↦
        rw (e, insert_by)
          (Pairwise.cons (IsBelow-head e (Pairwise.cons below s)) (Pairwise.cons below s))
    | inr e ↦
        rw (e, insert_by)
          (Pairwise.cons
            (IsBelow-perm (insert_sorted-perm x ys) (IsBelow-cons (le_of_not x y e) below))
            (insert_sorted-IsSorted x s))
  ]

  pub sort-IsSorted : (l : List A) → IsSorted (sort l)
  unfolding sort_by
  sort-IsSorted [] = Pairwise.nil
  sort-IsSorted (x ∷ xs) = insert_sorted-IsSorted x (sort-IsSorted xs)

  -- Items of one rank in the list are one item.
  abbrev pub IsRanked : List A → Type ℓ
  IsRanked l = (x y : A) → Mem x l → Mem y l → (x <= y) ≡ true → (y <= x) ≡ true → x ≡ y

  IsSorted-eq_of_perm : {l r : List A} → IsRanked l → IsSorted l → IsSorted r → Perm l r → l ≡ r
  IsSorted-eq_of_perm {l = []} _ _ _ p = Perm.nil-eq p
  IsSorted-eq_of_perm {l = a ∷ l} {r = []} _ _ _ p = Perm.eq-nil p
  IsSorted-eq_of_perm {l = a ∷ l} {r = b ∷ r} ranked sl sr p =
      let inside : Mem b (a ∷ l) = (Perm.mem_iff p).1 mem-cons_self in
      let up : (a <= b) ≡ true = IsBelow-head (le_self a) sl b inside in
      let down : (b <= a) ≡ true =
        IsBelow-head (le_self b) sr a ((Perm.mem_iff p).0 mem-cons_self) in
      let heads : a ≡ b = ranked a b mem-cons_self inside up down in
      let tails = Perm.cons_inv (Perm.trans (Perm.symm (Perm.cons' heads Perm.rfl)) p) in
      ap₂ ◌∷◌ heads (
        IsSorted-eq_of_perm {l = l} {r = r}
          (λ x y mx my. ranked x y (mem-cons_of_mem a mx) (mem-cons_of_mem a my))
          (Pairwise.of_cons sl) (Pairwise.of_cons sr) tails)

  -- The sort forgets the order of its input, up to items of one rank.
  pub sort-eq_of_perm : {l r : List A} → IsRanked l → Perm l r → sort l ≡ sort r
  sort-eq_of_perm {l} {r} ranked p =
      IsSorted-eq_of_perm
        (λ x y mx my.
          ranked x y ((Perm.mem_iff (sort-perm l)).0 mx) ((Perm.mem_iff (sort-perm l)).0 my))
        (sort-IsSorted l) (sort-IsSorted r)
        (Perm.trans (sort-perm l) (Perm.trans p (Perm.symm (sort-perm r))))
