-- ===== src/Advisor/Panic.antt =====
-- Where crates/ai_advisor/src/sanitize.rs slices a text at positions of its lower-case form.
use Prim.Native.Char.{code}
use stellartrace.Prelude.{
  contains, if-true, if-false, ℕ, zero, suc, ◌+◌, ◌-◌, ◌<◌, ◌≡◌, refl, true, false, Bool, ◌&&◌,
  Option, none, some, String, List, [], ◌∷◌, nat_beq, ltb, leb, arith, if◌then◌else◌, Bool-cases,
  inl, inr, ◌==◌, string_eq, nat_eq, option_beq, option_beq_iff, ap, ◌∙◌,
}
use stellartrace.Prelude.Outcome.{Run, done, panicked, ◌>>=◌}
use stellartrace.Prelude.Substring.{
  byte_len, char_count, contains_str, find?, split_at, cons_first, take_chars, len_utf8, IsAscii,
  ascii_lowercase, starts_with,
}
use stellartrace.Prelude.Substring.Append.{lacks, lacks-Lacks}
use stellartrace.Platform.{Unicode, IsUnicode, dotted_capital, dot_above, small_i}
use stellartrace.Advisor.Sanitize.{
  before, pushed, rebuild, neutralize_from, neutralize_action_language, clean_field,
  action_instruction_markers, max_field_len,
}
use stellartrace.Advisor.Markup.{strip_from-eq_self}

split_at_beyond : (s : String) (n : ℕ) → byte_len s < n → split_at s n ≡ none
unfolding split_at byte_len
split_at_beyond String.[] n h = ground arith
split_at_beyond (String.◌∷◌ c s) n h =
    if-false (nat_beq n 0) _ _ (ground arith)
    ∙ (if-true (leb (len_utf8 c) n) _ _ (ground arith)
        ∙ ap (cons_first c) (split_at_beyond s (n - len_utf8 c) (omega arith)))

-- the lower case of the capital I with a dot and an ASCII text
abbrev dotted_lower : String → String
dotted_lower m = String.◌∷◌ small_i (String.◌∷◌ dot_above (ascii_lowercase m))

before_panic :
    (o : Option (String × String)) (f : String → Run String)
    → ((a : String) → f a ≡ panicked)
    → (before o >>= f) ≡ panicked
before_panic none f h = refl
before_panic (some (a, b)) f h = h a

-- A round panics that finds a marker so late that the slice behind it leaves the text.
pushed_beyond :
    (m rest : String) (pos : ℕ) (again : String → Run String)
    → byte_len rest < pos + byte_len m
    → pushed (some pos) m rest again ≡ panicked
pushed_beyond m rest pos again h =
    before_panic (split_at rest pos) _ (λ kept. rw (split_at_beyond rest (pos + byte_len m) h))

-- the first marker of the list that occurs in `lower` is `m`
first_is : String → String → List String → Bool
first_is lower m [] = false
first_is lower m (k ∷ ms) =
    let rest = first_is lower m ms in if contains_str lower k then k == m else rest

is_ascii : String → Bool
is_ascii String.[] = true
is_ascii (String.◌∷◌ c s) = ltb (code c) 128 && is_ascii s

is_ascii-IsAscii : (s : String) → is_ascii s ≡ true → IsAscii s
unfolding is_ascii
is_ascii-IsAscii String.[] h = tt
is_ascii-IsAscii (String.◌∷◌ c s) h = (ground arith, is_ascii-IsAscii s (ground arith))

-- `m` stands at position 3 of the lower case, and no other marker is replaced first.
shifts : String → Bool
shifts m =
    is_ascii m
    && (lacks b'<' m
        && (lacks b'>' m
            && (option_beq (find? (dotted_lower m) m) (some 3)
                && first_is (dotted_lower m) m action_instruction_markers)))

all_shift : List String → Bool
all_shift [] = true
all_shift (m ∷ ms) = shifts m && all_shift ms

markers_shift : all_shift action_instruction_markers ≡ true
unfolding all_shift shifts is_ascii lacks first_is find? contains_str starts_with ascii_lowercase
markers_shift = refl

module _ ⦃unicode : Unicode⦄ (laws : IsUnicode) where
  rebuild_beyond :
      (fuel : ℕ) (m : String)
      → 0 < fuel
      → IsAscii m
      → find? (dotted_lower m) m ≡ some 3
      → rebuild fuel m (String.◌∷◌ dotted_capital m) ≡ panicked
  unfolding rebuild byte_len
  rebuild_beyond zero m pos ascii found = absurd (omega arith)
  rebuild_beyond (suc fuel) m pos ascii found =
      rw (laws.dotted m ascii, found)
        (pushed_beyond m (String.◌∷◌ dotted_capital m) 3 (rebuild fuel m) (omega arith))

  neutralize_from_first :
      (lower m : String) (ms : List String) (s : String)
      → first_is lower m ms ≡ true
      → rebuild (char_count s + 1) m s ≡ panicked
      → neutralize_from lower ms s ≡ panicked
  unfolding neutralize_from first_is
  neutralize_from_first lower m [] s h panics = absurd (cc)
  neutralize_from_first lower m (k ∷ ms) s h panics = elim (Bool-cases (contains_str lower k)) [
    | inl e ↦ let same : k ≡ m = (string_eq.test_iff k m).0 (rw e at h) in rw (e, same, panics)
    | inr e ↦ rw e (neutralize_from_first lower m ms s (rw e at h) panics)
  ]

  shifts-panics :
      (m : String) → shifts m ≡ true → clean_field (String.◌∷◌ dotted_capital m) ≡ panicked
  unfolding shifts clean_field neutralize_action_language
  shifts-panics m h =
      let s = String.◌∷◌ dotted_capital m in
      let ascii = is_ascii-IsAscii m (ground arith) in
      let opens = lacks-Lacks b'<' m (ground arith) in
      let closes = lacks-Lacks b'>' m (ground arith) in
      let found = (option_beq_iff (find? (dotted_lower m) m) (some 3)).0 (ground arith) in
      let first : first_is (dotted_lower m) m action_instruction_markers ≡ true = ground arith in
      rw (strip_from-eq_self s (refl, opens) (refl, closes), laws.dotted m ascii)
        (ap (λ r. r >>= λ t. done (take_chars max_field_len t))
          (neutralize_from_first (dotted_lower m) m action_instruction_markers s first
            (rebuild_beyond (char_count s + 1) m (omega arith) ascii found)))

  listed-panics :
      (ms : List String) (m : String)
      → all_shift ms ≡ true
      → contains ms m ≡ true
      → clean_field (String.◌∷◌ dotted_capital m) ≡ panicked
  unfolding all_shift
  listed-panics [] m h k = absurd (cc)
  listed-panics (x ∷ xs) m h k = elim (Bool-cases (x == m)) [
    | inl e ↦
        let same : x ≡ m = (string_eq.test_iff x m).0 e in
        rw (← same) (shifts-panics x (ground arith))
    | inr e ↦ listed-panics xs m (ground arith) (ground arith)
  ]

  -- `clean_field` panics on every text that is a marker behind a capital I with a dot: the position
  -- of the marker in the lower-case form is one more than in the text, and the slice leaves the text.
  pub clean_field-panics :
      (m : String)
      → contains action_instruction_markers m ≡ true
      → clean_field (String.◌∷◌ dotted_capital m) ≡ panicked
  clean_field-panics m listed = listed-panics action_instruction_markers m markers_shift listed
