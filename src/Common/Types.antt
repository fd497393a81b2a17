-- ===== src/Common/Types.antt =====
-- The data of crates/common/src/lib.rs.
use stellartrace.Prelude.{
  ℕ, ◌≡◌, ◌↔◌, refl, Bool, true, false, ◌&&◌, Option, String, List, [], ◌∷◌, arith, Eq, ◌==◌,
  string_eq,
}
use stellartrace.Prelude.HashMap.{HashMap}
use stellartrace.Prelude.Text.{format}
use stellartrace.Platform.{Float, Uuid}
use mathlib.Core.Option

pub data Asset : Type 0 where
  native : Asset
  credit : String → String → Asset

-- `impl Display for Asset`
unfoldable pub display_asset : Asset → String
unfolding format
display_asset native = "XLM"
display_asset (credit code issuer) = format (code ∷ ":" ∷ issuer ∷ [])

abbrev pub asset_beq : Asset → Asset → Bool
asset_beq native native = true
asset_beq native (credit c i) = false
asset_beq (credit c i) native = false
asset_beq (credit c i) (credit d j) = c == d && i == j

pub asset_beq_iff : (a b : Asset) → (asset_beq a b ≡ true) ↔ (a ≡ b)
asset_beq_iff native native = (λ h. refl, λ h. refl)
asset_beq_iff native (credit c i) = (λ h. cc, λ h. cc)
asset_beq_iff (credit c i) native = (λ h. cc, λ h. cc)
asset_beq_iff (credit c i) (credit d j) = (
  λ h. ground (arith, string_eq.test_iff c d, string_eq.test_iff i j),
  λ h. ground (arith, string_eq.test_iff c d, string_eq.test_iff i j),
)

instance abbrev pub asset_eq : Eq Asset
asset_eq = record { test = asset_beq; test_iff = asset_beq_iff }

pub record NormalizedTransaction (T : Type 0) : Type 0 where
  pub tx_hash : String
  pub ledger_sequence : ℕ
  pub source_account : String
  pub destination_account : Option String
  pub asset : Asset
  pub amount : String
  pub timestamp : T
  pub is_soroban_invocation : Bool
  pub contract_id : Option String
  pub metadata : HashMap String String

abbrev pub amount_f64 : {F T : Type 0} ⦃f : Float F⦄ → NormalizedTransaction T → F
amount_f64 ⦃f⦄ tx = Option.get_or (f.parse tx.amount) (f.of_nat 0)

pub data Severity : Type 0 where
  low medium high critical : Severity

-- `{:?}`
unfoldable pub debug_severity : Severity → String
debug_severity low = "Low"
debug_severity medium = "Medium"
debug_severity high = "High"
debug_severity critical = "Critical"

pub record TriggeredRule : Type 0 where
  pub rule_id : String
  pub rule_name : String
  pub severity : Severity
  pub reason : String
  pub evidence : HashMap String String

pub data InvestigationStatus : Type 0 where
  opened under_investigation escalated dismissed confirmed_suspicious : InvestigationStatus

unfoldable pub is_terminal : InvestigationStatus → Bool
is_terminal dismissed = true
is_terminal confirmed_suspicious = true
is_terminal _ = false

-- `{:?}`
unfoldable pub debug_status : InvestigationStatus → String
debug_status opened = "Open"
debug_status under_investigation = "UnderInvestigation"
debug_status escalated = "Escalated"
debug_status dismissed = "Dismissed"
debug_status confirmed_suspicious = "ConfirmedSuspicious"

abbrev pub status_beq : InvestigationStatus → InvestigationStatus → Bool
status_beq opened opened = true
status_beq under_investigation under_investigation = true
status_beq escalated escalated = true
status_beq dismissed dismissed = true
status_beq confirmed_suspicious confirmed_suspicious = true
status_beq _ _ = false

pub status_beq_iff : (a b : InvestigationStatus) → (status_beq a b ≡ true) ↔ (a ≡ b)
status_beq_iff a b = ground arith

instance abbrev pub status_eq : Eq InvestigationStatus
status_eq = record { test = status_beq; test_iff = status_beq_iff }

pub record Alert (F T : Type 0) : Type 0 where
  pub alert_id : Uuid
  pub tx_hash : String
  pub source_account : String
  pub destination_account : Option String
  pub asset : Asset
  pub amount : String
  pub timestamp : T
  pub triggered_rules : List TriggeredRule
  pub anomaly_score : F
  pub severity : Severity
  pub status : InvestigationStatus
  pub created_at : T
  pub updated_at : T

abbrev pub ai_advisory_label : String
ai_advisory_label =
    "ADVISORY ONLY — generated by AI, not a decision. A human investigator must decide."

-- It has no field that holds a status.
pub record AiRecommendation (F T : Type 0) : Type 0 where
  pub alert_id : Uuid
  pub label : String
  pub summary : String
  pub suspicious_signals : List String
  pub relevant_history_context : String
  pub risk_assessment : String
  pub recommended_next_steps : List String
  pub confidence : F
  pub explanation : String
  pub generated_at : T
  pub model_available : Bool

pub record InvestigatorDecision (T : Type 0) : Type 0 where
  pub alert_id : Uuid
  pub investigator_id : String
  pub decision : InvestigationStatus
  pub notes : String
  pub decided_at : T

pub data Role : Type 0 where
  viewer investigator admin : Role

unfoldable pub can_decide : Role → Bool
can_decide investigator = true
can_decide admin = true
can_decide viewer = false
