-- ===== src/Alerts/Keyed.antt =====
-- The store of crates/alerts/src/lib.rs keeps each alert under its identifier, and `restore` builds it
-- again from the list of its alerts.
use mathlib.Core.Option.{none-ne-some}
use text.Mathlib.TextEquality.{IsScalar-prop}
use mathlib.Core.List.Perm
use mathlib.Core.List.{Perm, Mem, mem-cons, mem-cons_self, mem-cons_of_mem, not-mem-nil}
use mathlib.Core.Logic.Or
use mathlib.Core.Option
use stellartrace.Prelude.{
  ◌≡◌, ◌≢◌, refl, sym, ap, subst, ◌∙◌, inl, inr, Bool, true, false, Option, none, some, List, [],
  ◌∷◌, nat_eq, ◌==◌, Bool-cases, Option-cases, if-true, if-false, if◌then◌else◌, arith,
}
use stellartrace.Prelude.HashMap.{
  HashMap, get, insert, values, get-insert, get-insert_ne, get-insert_self, get-nil,
}
use stellartrace.Platform.{Uuid}
use stellartrace.Common.{Alert}
use stellartrace.Alerts.Manager.{restore_all}

module _ {F T : Type 0} where
  -- Each alert stands under its identifier, and no identifier stands twice.
  abbrev pub IsKeyed : HashMap Uuid (Alert F T) → Type 0
  IsKeyed [] = Unit
  IsKeyed ((k, a) ∷ m) = (a.alert_id ≡ k) × ((get k m ≡ none) × IsKeyed m)

  pub insert-IsKeyed :
      (a : Alert F T) (k : Uuid) (m : HashMap Uuid (Alert F T))
      → a.alert_id ≡ k
      → IsKeyed m
      → IsKeyed (insert k a m)
  unfolding insert
  insert-IsKeyed a k [] is keyed = (is, (get-nil k, tt))
  insert-IsKeyed a k ((j, b) ∷ m) is (head, (fresh, keyed)) = elim (Bool-cases (j == k)) [
    | inl e ↦ rw (e, insert) (is ∙ sym ((nat_eq.test_iff j k).0 e), (fresh, keyed))
    | inr e ↦
        rw (e, insert)
          (
            head,
            (
              get-insert_ne k j a m (λ q. absurd (ground (arith, nat_eq.test_iff j k, sym q)))
                  ∙ fresh,
              insert-IsKeyed a k m is keyed,
            ),
          )
  ]

  -- An alert that is found is stored, under its identifier.
  pub get-mem :
      (m : HashMap Uuid (Alert F T)) (id : Uuid) {a : Alert F T}
      → IsKeyed m
      → get id m ≡ some a
      → Mem a (values m) × (a.alert_id ≡ id)
  unfolding get
  get-mem [] id keyed found = absurd (ground (arith, get-nil {V = Alert F T} id))
  get-mem ((k, b) ∷ m) id {a} (head, (fresh, keyed)) found = elim (Bool-cases (k == id)) [
    | inl e ↦
        let same : b ≡ a = Option.some-injective b a (sym (if-true _ _ _ e) ∙ found) in
        (
          subst (λ x. Mem x (b ∷ values m)) same mem-cons_self,
          ap (λ x. x.alert_id) (sym same) ∙ head ∙ (nat_eq.test_iff k id).0 e,
        )
    | inr e ↦
        let (inside, is) = get-mem m id keyed (sym (if-false _ _ _ e) ∙ found) in
        (mem-cons_of_mem b inside, is)
  ]

  restore_all-keeps :
      (l : List (Alert F T)) (store : HashMap Uuid (Alert F T)) (id : Uuid) (o : Option (Alert F T))
      → get id store ≡ o
      → ((b : Alert F T) → Mem b l → b.alert_id ≡ id → some b ≡ o)
      → get id (restore_all l store) ≡ o
  unfolding restore_all
  restore_all-keeps [] store id o found only = found
  restore_all-keeps (b ∷ l) store id o found only =
      restore_all-keeps l (insert b.alert_id b store) id o
        (get-insert b.alert_id id b store
          ∙ at_id (b.alert_id == id)
              (λ e. only b mem-cons_self ((nat_eq.test_iff b.alert_id id).0 e)))
        (λ c inside is. only c (mem-cons_of_mem b inside) is)
    where
      at_id : (t : Bool) → (t ≡ true → some b ≡ o) → (if t then some b else get id store) ≡ o
      at_id true k = k refl
      at_id false k = found

-- Floats and instants form sets, so equations of alerts are propositions.
module _ {F T : Type 0} (float_set : IsSet F) (instant_set : IsSet T) where
  alert_set : IsSet (Alert F T)
  alert_set = hlevel (IsScalar-prop, float_set, instant_set)

  is_found : (o : Option (Alert F T)) (a : Alert F T) → IsProp (o ≡ some a)
  is_found o a = hlevel (alert_set)

  -- A stored alert is found under its identifier.
  pub get-alert_id :
      (m : HashMap Uuid (Alert F T)) {a : Alert F T}
      → IsKeyed m
      → Mem a (values m)
      → get a.alert_id m ≡ some a
  unfolding get
  get-alert_id [] keyed inside = absurd (not-mem-nil inside)
  get-alert_id ((k, b) ∷ m) {a} (head, (fresh, keyed)) inside =
      Or.elim (is_found _ a) (mem-cons.0 inside)
        (λ (same : a ≡ b).
          subst (λ x. get x.alert_id ((k, b) ∷ m) ≡ some x) (sym same)
            (if-true _ _ _ ((nat_eq.test_iff k b.alert_id).1 (sym head))))
        (λ later.
          let found = get-alert_id m keyed later in
          if-false (k == a.alert_id) _ _ (other k a.alert_id fresh found) ∙ found)
    where
      none_some : none ≢ some a
      none_some e = cc

      other : (j i : Uuid) → get j m ≡ none → get i m ≡ some a → (j == i) ≡ false
      other j i missing found = elim (Bool-cases (j == i)) [
        | inl e ↦
            absurd (none_some (sym missing ∙ ap (λ x. get x m) ((nat_eq.test_iff j i).0 e) ∙ found))
        | inr e ↦ e
      ]

  -- What `restore` builds from a list in which no two alerts of one identifier differ.
  restore_all-finds :
      (l : List (Alert F T)) (store : HashMap Uuid (Alert F T)) (a : Alert F T)
      → Mem a l
      → ((b : Alert F T) → Mem b l → b.alert_id ≡ a.alert_id → some b ≡ some a)
      → get a.alert_id (restore_all l store) ≡ some a
  unfolding restore_all
  restore_all-finds [] store a inside only = absurd (not-mem-nil inside)
  restore_all-finds (b ∷ l) store a inside only =
      Or.elim (is_found _ a) (mem-cons.0 inside)
        (λ (same : a ≡ b).
          restore_all-keeps l (insert b.alert_id b store) a.alert_id (some a)
            (subst (λ x. get x.alert_id (insert b.alert_id b store) ≡ some x) (sym same)
              (get-insert_self b.alert_id b store))
            (λ c later is. only c (mem-cons_of_mem b later) is))
        (λ later.
          restore_all-finds l (insert b.alert_id b store) a later
            (λ c there is. only c (mem-cons_of_mem b there) is))

  -- Restoring the alerts of a store, in any order, gives back each under its identifier, and no other.
  pub restore_all-get :
      (m : HashMap Uuid (Alert F T)) (l : List (Alert F T)) (id : Uuid)
      → IsKeyed m
      → Perm l (values m)
      → get id (restore_all l []) ≡ get id m
  restore_all-get m l id keyed p = elim (Option-cases (get id m)) [
    | inl none_there ↦
        restore_all-keeps l [] id none (get-nil id) (λ b inside is. absurd (
          some_none b (
            sym (get-alert_id m keyed ((Perm.mem_iff p).0 inside))
            ∙ ap (λ x. get x m) is
            ∙ none_there)))
        ∙ sym none_there
    | inr (a, found) ↦
        let (inside, is) = get-mem m id keyed found in
        ap (λ x. get x (restore_all l [])) (sym is)
        ∙ restore_all-finds l [] a ((Perm.mem_iff p).1 inside) (λ b there same.
          sym (get-alert_id m keyed ((Perm.mem_iff p).0 there))
          ∙ ap (λ x. get x m) (same ∙ is)
          ∙ found)
        ∙ sym found
  ]
    where
      some_none : (b : Alert F T) → some b ≢ none
      some_none b e = cc
