-- ===== src/Prelude/Order.antt =====
-- A total preorder by a Boolean test, and the order of texts, in which `String::cmp` sorts.
use Prim.Native.Char.{code}
use Prim.Native.String.{String, [], ◌∷◌}
use text.Mathlib.TextEquality.{Char-path}
use stellartrace.Prelude.{
  ◌≡◌, ◌⊎◌, inl, inr, ap₂, refl, Bool, true, false, arith, ltb, nat_beq, if◌then◌else◌,
}

pub record Order {ℓ} (A : Type ℓ) : Type ℓ where
  pub le : A → A → Bool
  pub le_total : (a b : A) → (le a b ≡ true) ⊎ (le b a ≡ true)
  pub le_trans : (a b c : A) → le a b ≡ true → le b c ≡ true → le a c ≡ true

infix 50 ◌<=◌
abbrev pub ◌<=◌ {ℓ} : {A : Type ℓ} ⦃o : Order A⦄ → A → A → Bool
◌<=◌ ⦃o⦄ = o.le

-- The order of a key.
abbrev pub on_key {ℓ κ} : {A : Type ℓ} {K : Type κ} → (A → K) → Order K → Order A
on_key key o = record {
  le = λ a b. o.le (key a) (key b);
  le_total = λ a b. o.le_total (key a) (key b);
  le_trans = λ a b c. o.le_trans (key a) (key b) (key c);
}

-- `Reverse`
abbrev pub reverse_order {ℓ} : {A : Type ℓ} → Order A → Order A
reverse_order o = record {
  le = λ a b. o.le b a;
  le_total = λ a b. o.le_total b a;
  le_trans = λ a b c h k. o.le_trans c b a k h;
}

-- `str::cmp` compares bytes, and UTF-8 keeps the order of the code points.
unfoldable pub text_le : String → String → Bool
text_le [] t = true
text_le (c ∷ s) [] = false
text_le (c ∷ s) (d ∷ t) =
    let rest = text_le s t in
    if ltb (code c) (code d) then true else if nat_beq (code c) (code d) then rest else false

pub text_le_total : (s t : String) → (text_le s t ≡ true) ⊎ (text_le t s ≡ true)
unfolding text_le
text_le_total [] t = inl refl
text_le_total (c ∷ s) [] = inr refl
text_le_total (c ∷ s) (d ∷ t) = ground (arith, text_le_total s t)

pub text_le_trans : (s t u : String) → text_le s t ≡ true → text_le t u ≡ true → text_le s u ≡ true
unfolding text_le
text_le_trans [] t u h k = refl
text_le_trans (c ∷ s) [] u h k = ground arith
text_le_trans (c ∷ s) (d ∷ t) [] h k = ground arith
text_le_trans (c ∷ s) (d ∷ t) (e ∷ u) h k = ground (arith, text_le_trans s t u)

pub text_le_antisymm : (s t : String) → text_le s t ≡ true → text_le t s ≡ true → s ≡ t
unfolding text_le
text_le_antisymm [] [] h k = refl
text_le_antisymm [] (d ∷ t) h k = ground arith
text_le_antisymm (c ∷ s) [] h k = ground arith
text_le_antisymm (c ∷ s) (d ∷ t) h k =
    ap₂ ◌∷◌ (Char-path c d (ground arith)) (text_le_antisymm s t (ground arith) (ground arith))

instance abbrev pub text_order : Order String
text_order = record { le = text_le; le_total = text_le_total; le_trans = text_le_trans }
