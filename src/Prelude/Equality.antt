-- ===== src/Prelude/Equality.antt =====
-- The `PartialEq` of the source, as an interface with its instances for numbers, texts and options.
use Prim.Native.Nat.{ℕ}
use Prim.Native.String.{String}
use mathlib.Core.HLevel.{hedberg}
use mathlib.Core.Path.{◌≡◌, refl, ap, sym, ◌∙◌}
use mathlib.Core.Logic.{◌↔◌, inl, inr}
use mathlib.Core.Bool.{Bool, true, false, ◌||◌, false≢true}
use mathlib.Core.Option.{Option, none, some, some-injective}
use mathlib.Core.List.{List, [], ◌∷◌}
use native.Mathlib.Omega.{arith}
use text.Mathlib.Text.{◌==◌ as str_eq}
use text.Mathlib.TextEquality.{eq_iff}
use stellartrace.Prelude.Tests.{nat_beq, nat_beq_iff, if◌then◌else◌, Bool-cases}

infix 50 ◌==◌
-- A Boolean test that decides equality.
pub record Eq {ℓ} (A : Type ℓ) : Type ℓ where
  pub test : (a b : A) → Bool
  pub test_iff : (x y : A) → (test x y ≡ true) ↔ (x ≡ y)

instance abbrev pub string_eq : Eq String
string_eq = record { test = str_eq; test_iff = eq_iff }

instance abbrev pub nat_eq : Eq ℕ
nat_eq = record { test = nat_beq; test_iff = nat_beq_iff }

abbrev pub ◌==◌ {ℓ} : {A : Type ℓ} ⦃e : Eq A⦄ → A → A → Bool
◌==◌ ⦃e⦄ a b = e.test a b

module _ {ℓ} {A : Type ℓ} ⦃e : Eq A⦄ where
  abbrev pub option_beq : Option A → Option A → Bool
  option_beq none none = true
  option_beq none (some b) = false
  option_beq (some a) none = false
  option_beq (some a) (some b) = a == b

  pub option_beq_iff : (a b : Option A) → (option_beq a b ≡ true) ↔ (a ≡ b)
  option_beq_iff none none = (λ h. refl, λ h. refl)
  option_beq_iff none (some b) = (λ h. cc, λ h. cc)
  option_beq_iff (some a) none = (λ h. cc, λ h. cc)
  option_beq_iff (some a) (some b) =
      (λ h. ap some ((e.test_iff a b).0 h), λ h. (e.test_iff a b).1 (some-injective a b h))

  -- `contains`, of a set or a list
  abbrev pub contains : List A → A → Bool
  contains [] a = false
  contains (x ∷ xs) a = x == a || contains xs a

  -- `HashSet::insert`: the set stays one of distinct items.
  abbrev pub insert_item : A → List A → List A
  insert_item a xs = if contains xs a then xs else a ∷ xs

  pub beq_refl : (a : A) → (a == a) ≡ true
  beq_refl a = (e.test_iff a a).1 refl

  pub contains-insert_item :
      (a b : A) (xs : List A) → contains (insert_item a xs) b ≡ (a == b || contains xs b)
  contains-insert_item a b xs = ground (arith, e.test_iff a b, contains_eq a b xs)
    where
      contains_eq : (a b : A) (xs : List A) → a ≡ b → contains xs a ≡ contains xs b
      contains_eq a b xs h = ap (contains xs) h

  pub Eq-discrete : Discrete A
  Eq-discrete a b = elim (Bool-cases (a == b)) [
    | inl h ↦ yes ((e.test_iff a b).0 h)
    | inr h ↦ no (λ p. false≢true (sym h ∙ (e.test_iff a b).1 p))
  ]

  pub Eq-set : IsSet A
  Eq-set = hedberg Eq-discrete
