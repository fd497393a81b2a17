-- ===== src/Prelude/Split.antt =====
-- `trim`, `split` and `splitn` of `str`, character by character.
use Prim.Native.Char.{Char, code}
use stellartrace.Prelude.{
  ℕ, zero, suc, Bool, true, false, ◌&&◌, ◌||◌, String, List, [], ◌∷◌, nat_beq, leb, if◌then◌else◌,
}

-- `char::is_whitespace`
abbrev pub is_whitespace : Char → Bool
is_whitespace c =
    (leb 9 (code c) && leb (code c) 13)
    || (nat_beq (code c) 0x20
        || (nat_beq (code c) 0x85
            || (nat_beq (code c) 0xA0
                || (nat_beq (code c) 0x1680
                    || ((leb 0x2000 (code c) && leb (code c) 0x200A)
                        || (nat_beq (code c) 0x2028
                            || (nat_beq (code c) 0x2029
                                || (nat_beq (code c) 0x202F
                                    || (nat_beq (code c) 0x205F || nat_beq (code c) 0x3000)))))))))

abbrev pub is_empty_text : String → Bool
is_empty_text String.[] = true
is_empty_text (String.◌∷◌ c s) = false

unfoldable pub trim_start : String → String
trim_start String.[] = String.[]
trim_start (String.◌∷◌ c s) =
    let rest = trim_start s in if is_whitespace c then rest else String.◌∷◌ c s

unfoldable pub trim_end : String → String
trim_end String.[] = String.[]
trim_end (String.◌∷◌ c s) =
    let rest = trim_end s in
    if is_whitespace c && is_empty_text rest then String.[] else String.◌∷◌ c rest

abbrev pub trim : String → String
trim s = trim_end (trim_start s)

-- The first piece grows by a character.
abbrev pub grow : Char → List String → List String
grow c [] = String.◌∷◌ c String.[] ∷ []
grow c (piece ∷ pieces) = String.◌∷◌ c piece ∷ pieces

-- `split` at a character, given by its code
unfoldable pub split : ℕ → String → List String
split sep String.[] = String.[] ∷ []
split sep (String.◌∷◌ c s) =
    let rest = split sep s in if nat_beq (code c) sep then String.[] ∷ rest else grow c rest

-- `splitn`: at most `n` pieces, the last of which is all the rest
unfoldable pub splitn : ℕ → ℕ → String → List String
splitn zero sep s = []
splitn (suc zero) sep s = s ∷ []
splitn (suc (suc n)) sep String.[] = String.[] ∷ []
splitn (suc (suc n)) sep (String.◌∷◌ c s) =
    let next = splitn (suc n) sep s in
    let rest = splitn (suc (suc n)) sep s in
    if nat_beq (code c) sep then String.[] ∷ next else grow c rest
