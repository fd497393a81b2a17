-- ===== src/Prelude/Substring.antt =====
-- Searching and slicing of `str` at byte positions, and its ASCII part.
use Prim.Native.Char.{Char, code, char, IsScalar}
use stellartrace.Prelude.{
  ℕ, zero, suc, ◌+◌, ◌-◌, ◌<◌, ◌≡◌, true, false, Bool, ◌&&◌, Option, none, some, String, nat_beq,
  ltb, leb, if◌then◌else◌, Bool-cases, inl, inr, arith,
}
pub mod Append
pub mod Occurrence
pub mod Positions
pub mod Single

-- `char::len_utf8`
abbrev pub len_utf8 : Char → ℕ
len_utf8 c =
    if ltb (code c) 0x80
    then 1
    else if ltb (code c) 0x800
    then 2
    else if ltb (code c) 0x10000
    then 3
    else 4

-- `str::len`, in bytes
unfoldable pub byte_len : String → ℕ
byte_len String.[] = 0
byte_len (String.◌∷◌ c s) = len_utf8 c + byte_len s

-- `chars().count()`
unfoldable pub char_count : String → ℕ
char_count String.[] = 0
char_count (String.◌∷◌ c s) = suc (char_count s)

-- `chars().take(n).collect()`
unfoldable pub take_chars : ℕ → String → String
take_chars zero s = String.[]
take_chars (suc n) String.[] = String.[]
take_chars (suc n) (String.◌∷◌ c s) = String.◌∷◌ c (take_chars n s)

unfoldable pub starts_with : String → String → Bool
starts_with s String.[] = true
starts_with String.[] (String.◌∷◌ k m) = false
starts_with (String.◌∷◌ c s) (String.◌∷◌ k m) = nat_beq (code c) (code k) && starts_with s m

abbrev pub shift : ℕ → Option ℕ → Option ℕ
shift n none = none
shift n (some k) = some (n + k)

-- `str::find`: the byte position of the first occurrence
unfoldable pub find? : String → String → Option ℕ
find? String.[] m = if starts_with String.[] m then some 0 else none
find? (String.◌∷◌ c s) m =
    let rest = find? s m in
    if starts_with (String.◌∷◌ c s) m then some 0 else shift (len_utf8 c) rest

-- `last` behind the first `n` bytes, or else `here`
abbrev pub behind_or : ℕ → Option ℕ → Option ℕ → Option ℕ
behind_or n none here = here
behind_or n (some k) here = some (n + k)

-- `str::rfind`: the byte position of the last occurrence
unfoldable pub rfind? : String → String → Option ℕ
rfind? String.[] m = if starts_with String.[] m then some 0 else none
rfind? (String.◌∷◌ c s) m =
    behind_or (len_utf8 c) (rfind? s m) (if starts_with (String.◌∷◌ c s) m then some 0 else none)

-- `str::contains`
unfoldable pub contains_str : String → String → Bool
contains_str String.[] m = starts_with String.[] m
contains_str (String.◌∷◌ c s) m =
    let rest = contains_str s m in if starts_with (String.◌∷◌ c s) m then true else rest

abbrev pub cons_first : Char → Option (String × String) → Option (String × String)
cons_first c none = none
cons_first c (some (a, b)) = some (String.◌∷◌ c a, b)

-- `(&s[..n], &s[n..])`, or `none` where the slices panic: past the end, or inside a character
unfoldable pub split_at : String → ℕ → Option (String × String)
split_at String.[] n = if nat_beq n 0 then some (String.[], String.[]) else none
split_at (String.◌∷◌ c s) n =
    let rest = split_at s (n - len_utf8 c) in
    if nat_beq n 0
    then some (String.[], String.◌∷◌ c s)
    else if leb (len_utf8 c) n
    then cons_first c rest
    else none

abbrev pub EachChar : (Char → Type 0) → String → Type 0
EachChar P String.[] = Unit {0}
EachChar P (String.◌∷◌ c s) = P c × EachChar P s

abbrev pub IsAscii : String → Type 0
IsAscii s = EachChar (λ c. code c < 128) s

-- No character of the text has this code.
abbrev pub Lacks : ℕ → String → Type 0
Lacks n s = EachChar (λ c. nat_beq (code c) n ≡ false) s

abbrev pub is_upper : ℕ → Bool
is_upper n = leb 65 n && leb n 90

IsScalar-low : (n : ℕ) → n < 128 → IsScalar n
IsScalar-low n h = ground arith

pub lower-IsScalar : (n : ℕ) → IsScalar n → IsScalar (if is_upper n then n + 32 else n)
lower-IsScalar n p = elim (Bool-cases (is_upper n)) [
  | inl e ↦ rw e (IsScalar-low (n + 32) (ground arith))
  | inr e ↦ rw e p
]

-- `char::to_ascii_lowercase`
abbrev pub ascii_lower : Char → Char
ascii_lower (char n p) = char (if is_upper n then n + 32 else n) (lower-IsScalar n p)

-- `str::to_ascii_lowercase`
unfoldable pub ascii_lowercase : String → String
ascii_lowercase String.[] = String.[]
ascii_lowercase (String.◌∷◌ c s) = String.◌∷◌ (ascii_lower c) (ascii_lowercase s)
