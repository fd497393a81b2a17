-- ===== src/Platform/Interface.antt =====
-- The operations of `f64` and of chrono's `DateTime<Utc>` that the crates call.
use stellartrace.Prelude.{ℕ, Bool, Option, String, List}
use stellartrace.Prelude.Int.{ℤ}

-- `f64`, as crates/rules_engine and crates/scoring use it.
pub record Float (F : Type 0) : Type 0 where
  -- a literal such as `75.0`, and `n as f64`
  pub of_nat : ℕ → F
  -- `str::parse`
  pub parse : String → Option F
  pub lt : F → F → Bool
  pub le : F → F → Bool
  pub add : F → F → F
  pub mul : F → F → F
  pub div : F → F → F
  pub sqrt : F → F
  pub min : F → F → F
  pub is_finite : F → Bool
  -- `to_string`, and `format!("{:.n}")`
  pub display : F → String
  pub fixed : ℕ → F → String

-- `DateTime<Utc>`: its order, and the whole seconds of a difference.
pub record Chrono (T : Type 0) : Type 0 where
  pub before : T → T → Bool
  pub at_most : T → T → Bool
  -- `(a - b).num_seconds()`
  pub num_seconds : T → T → ℤ
  pub to_rfc3339 : T → String

-- A `Uuid` is its 128 bits. The program compares them and draws fresh ones.
abbrev pub Uuid : Type 0
Uuid = ℕ

-- Raw bytes, as they are hashed and written to files.
abbrev pub Bytes : Type 0
Bytes = List ℕ

infix 50 ◌<F◌ ◌≤F◌
abbrev pub ◌<F◌ : {F : Type 0} ⦃f : Float F⦄ → F → F → Bool
◌<F◌ ⦃f⦄ = f.lt

abbrev pub ◌≤F◌ : {F : Type 0} ⦃f : Float F⦄ → F → F → Bool
◌≤F◌ ⦃f⦄ = f.le

-- `str::to_lowercase`, by the tables of Unicode
pub record Unicode : Type 0 where
  pub to_lowercase : String → String
