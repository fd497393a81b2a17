-- ===== src/Prelude/Text.antt =====
-- Texts: `format!` as a concatenation of pieces, decimal `to_string`, and the byte order of `cmp`.
use Prim.Native.String.{slice, ◌++◌ as str_append}
use stellartrace.Prelude.{
  ℕ, zero, suc, ◌+◌, ◌/◌, ◌%◌, ◌≡◌, refl, Bool, true, false, String, List, [], ◌∷◌, ltb,
  if◌then◌else◌,
}
use stellartrace.Prelude.Int.{ℤ, pos, negsuc}

-- The pieces of a `format!`, one after the other.
unfoldable pub format : List String → String
format [] = ""
format (s ∷ ss) = str_append s (format ss)

-- One decimal digit.
digit : ℕ → String
digit d = slice "0123456789" d (d + 1)

-- The fuel is the number itself, which has fewer digits.
digits : ℕ → ℕ → String
digits zero n = digit n
digits (suc f) n =
    let rest = str_append (digits f (n / 10)) (digit (n % 10)) in if ltb n 10 then digit n else rest

-- `to_string` of an unsigned integer
unfoldable pub show : ℕ → String
unfolding digits digit
show n = digits n n

-- `to_string` of a signed integer
unfoldable pub show_ℤ : ℤ → String
unfolding show
show_ℤ (pos n) = show n
show_ℤ (negsuc n) = str_append "-" (show (suc n))

abbrev pub show_bool : Bool → String
show_bool true = "true"
show_bool false = "false"

show_samples : format (show 0 ∷ " " ∷ show 90210 ∷ " " ∷ show_ℤ (negsuc 41) ∷ []) ≡ "0 90210 -42"
unfolding format show show_ℤ
show_samples = refl
