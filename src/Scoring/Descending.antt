-- ===== src/Scoring/Descending.antt =====
-- Lists of weights in descending order: an insertion makes every place at least as heavy.
use stellartrace.Prelude.{
  ◌≡◌, refl, ap, Bool, true, false, List, [], ◌∷◌, map, inl, inr, Bool-cases, arith,
}
use stellartrace.Prelude.Sort.{insert_by, sort_by}
use stellartrace.Platform.{Float, ◌≤F◌, IsIeee}

module _ {A B : Type 0} (key : A → B) (le : B → B → Bool) where
  map-insert_by :
      (x : A) (l : List A)
      → map key (insert_by (λ a b. le (key a) (key b)) x l) ≡ insert_by le (key x) (map key l)
  unfolding insert_by
  map-insert_by x [] = refl
  map-insert_by x (y ∷ l) = ground (arith, map-insert_by x l)

  -- To sort by a key and then read the keys is to sort the keys.
  pub map-sort_by :
      (l : List A) → map key (sort_by (λ a b. le (key a) (key b)) l) ≡ sort_by le (map key l)
  unfolding sort_by
  map-sort_by [] = refl
  map-sort_by (x ∷ l) =
      rw (map-insert_by x (sort_by (λ a b. le (key a) (key b)) l))
        (ap (insert_by le (key x)) (map-sort_by l))

module _ {F : Type 0} ⦃f64 : Float F⦄ where
  -- a value that is not negative, and so not NaN either
  abbrev pub IsWeight : F → Type 0
  IsWeight w = (f64.of_nat 0 ≤F w) ≡ true

  -- the greater first
  abbrev pub before_lighter : F → F → Bool
  before_lighter a b = b ≤F a

  abbrev IsUnder : F → List F → Type 0
  IsUnder x [] = Unit
  IsUnder x (y ∷ ys) = (y ≤F x) ≡ true

  abbrev pub IsDescending : List F → Type 0
  IsDescending [] = Unit
  IsDescending (x ∷ xs) = IsUnder x xs × IsDescending xs

  -- The second list is at least as long, and as heavy at every place.
  abbrev pub Dominates : List F → List F → Type 0
  Dominates [] ys = Unit
  Dominates (x ∷ xs) [] = ⊥
  Dominates (x ∷ xs) (y ∷ ys) = ((x ≤F y) ≡ true) × Dominates xs ys

  abbrev pub AllWeights : List F → Type 0
  AllWeights [] = Unit
  AllWeights (x ∷ xs) = IsWeight x × AllWeights xs

  pub insert_by-AllWeights :
      (x : F) (l : List F) → IsWeight x → AllWeights l → AllWeights (insert_by before_lighter x l)
  unfolding insert_by
  insert_by-AllWeights x [] w h = (w, tt)
  insert_by-AllWeights x (y ∷ l) w h = elim (Bool-cases (y ≤F x)) [
    | inl e ↦ rw (e, insert_by) (w, h)
    | inr e ↦ rw (e, insert_by) (h.0, insert_by-AllWeights x l w h.1)
  ]

  pub sort_by-AllWeights : (l : List F) → AllWeights l → AllWeights (sort_by before_lighter l)
  unfolding sort_by
  sort_by-AllWeights [] h = tt
  sort_by-AllWeights (x ∷ l) h =
      insert_by-AllWeights x (sort_by before_lighter l) h.0 (sort_by-AllWeights l h.1)

  module _ (laws : IsIeee F) where
    weight_refl : (w : F) → IsWeight w → (w ≤F w) ≡ true
    weight_refl w h = (laws.refl_of_le (f64.of_nat 0) w h).1

    weight_total : (a b : F) → IsWeight a → IsWeight b → (a ≤F b) ≡ false → (b ≤F a) ≡ true
    weight_total a b ha hb h =
        ground (arith, laws.le_total a b (weight_refl a ha) (weight_refl b hb))

    insert_by-IsUnder :
        (top x : F) (l : List F)
        → (x ≤F top) ≡ true
        → IsUnder top l
        → IsUnder top (insert_by before_lighter x l)
    unfolding insert_by
    insert_by-IsUnder top x [] p h = p
    insert_by-IsUnder top x (y ∷ l) p h = elim (Bool-cases (y ≤F x)) [
      | inl e ↦ rw (e, insert_by) p
      | inr e ↦ rw (e, insert_by) h
    ]

    insert_by-IsDescending :
        (x : F) (l : List F)
        → IsWeight x
        → AllWeights l
        → IsDescending l
        → IsDescending (insert_by before_lighter x l)
    unfolding insert_by
    insert_by-IsDescending x [] wx w d = (tt, tt)
    insert_by-IsDescending x (y ∷ l) wx w d = elim (Bool-cases (y ≤F x)) [
      | inl e ↦ rw (e, insert_by) (e, d)
      | inr e ↦
          rw (e, insert_by)
            (
              insert_by-IsUnder y x l (weight_total y x w.0 wx e) d.0,
              insert_by-IsDescending x l wx w.1 d.1,
            )
    ]

    pub sort_by-IsDescending : (l : List F) → AllWeights l → IsDescending (sort_by before_lighter l)
    unfolding sort_by
    sort_by-IsDescending [] w = tt
    sort_by-IsDescending (x ∷ l) w =
        insert_by-IsDescending x (sort_by before_lighter l) w.0 (sort_by-AllWeights l w.1)
          (sort_by-IsDescending l w.1)

    Dominates-refl : (l : List F) → AllWeights l → Dominates l l
    Dominates-refl [] w = tt
    Dominates-refl (x ∷ l) w = (weight_refl x w.0, Dominates-refl l w.1)

    -- a descending list shifted by one place
    Dominates-shift : (x : F) (l : List F) → IsUnder x l → IsDescending l → Dominates l (x ∷ l)
    Dominates-shift x [] u d = tt
    Dominates-shift x (y ∷ l) u d = (u, Dominates-shift y l d.0 d.1)

    pub insert_by-Dominates :
        (x : F) (l : List F)
        → AllWeights l
        → IsDescending l
        → Dominates l (insert_by before_lighter x l)
    unfolding insert_by
    insert_by-Dominates x [] w d = tt
    insert_by-Dominates x (y ∷ l) w d = elim (Bool-cases (y ≤F x)) [
      | inl e ↦ rw (e, insert_by) (Dominates-shift x (y ∷ l) e d)
      | inr e ↦ rw (e, insert_by) (weight_refl y w.0, insert_by-Dominates x l w.1 d.1)
    ]
