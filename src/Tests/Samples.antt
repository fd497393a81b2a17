-- ===== src/Tests/Samples.antt =====
-- A payment, a digest by parity, and the states that they lead to.
use Prim.Native.Char.{code}
use text.Mathlib.TextEquality.{Char-path}
use stellartrace.Prelude.{
  ℕ, ◌+◌, ◌%◌, ◌≡◌, refl, ap₂, Bool, true, false, none, some, String, [], ◌∷◌, nat_beq, length,
}
use stellartrace.Platform.{Bytes}
use stellartrace.Platform.Samples.{lower_cases, fixed_point, milliseconds}
use stellartrace.Common.{
  NormalizedTransaction, native, investigator, high, confirmed_suspicious, TriggeredRule,
}
use stellartrace.Rules.{RulesEngine, default_config, large_transfer_rule}
use stellartrace.Audit.{
  Hashing, AuditEventKind, alert_created, rules_triggered, ai_context_sent,
  ai_recommendation_received, investigator_decision, status_changed, note,
}
use stellartrace.Audit.Tamper.{IsHexDigest}
use stellartrace.Alerts.{Stamp}
use stellartrace.Api.{AppState, AuthRegistry, AuthUser, Draws, initial, UuidText, DecisionRequest}

abbrev pub codes : String → Bytes
codes String.[] = []
codes (String.◌∷◌ c s) = code c ∷ codes s

abbrev total : Bytes → ℕ
total [] = 0
total (b ∷ bs) = b + total bs

abbrev kind : AuditEventKind ℕ → ℕ
kind (alert_created score severity) = 0
kind (rules_triggered rule_ids) = 1
kind (ai_context_sent summary) = 2
kind (ai_recommendation_received confidence available) = 3
kind (investigator_decision id decision notes) = 4
kind (status_changed from to) = 5
kind (note message) = 6

abbrev pub by_parity : Bool → String
by_parity true = "0000000000000000000000000000000000000000000000000000000000000000"
by_parity false = "1111111111111111111111111111111111111111111111111111111111111111"

instance abbrev pub parity : Hashing ℕ ℕ
parity = record {
  text_bytes = codes;
  uuid_bytes = λ u. u ∷ [];
  timestamp_bytes = λ t. t ∷ [];
  to_vec = λ e. some (kind e ∷ []);
  digest = λ b. by_parity (nat_beq (total b % 2) 0);
}

codes_injective : (s t : String) → codes s ≡ codes t → s ≡ t
codes_injective String.[] String.[] e = refl
codes_injective String.[] (String.◌∷◌ d t) e = absurd (cc)
codes_injective (String.◌∷◌ c s) String.[] e = absurd (cc)
codes_injective (String.◌∷◌ c s) (String.◌∷◌ d t) e =
    ap₂ String.◌∷◌ (Char-path c d (cc)) (codes_injective s t (cc))

pub parity-IsHexDigest : IsHexDigest parity
parity-IsHexDigest = record {
  digest_length = λ b. width (nat_beq (total b % 2) 0);
  text_bytes_injective = codes_injective;
}
  where
    width : (b : Bool) → length (codes (by_parity b)) ≡ 64
    width true = refl
    width false = refl

instance abbrev pub uuid_text : UuidText
uuid_text = record { display = λ u. "an identifier" }

abbrev pub payment : NormalizedTransaction ℕ
payment = record {
  tx_hash = "h1";
  ledger_sequence = 1;
  source_account = "GALICE";
  destination_account = some "GBOB";
  asset = native;
  amount = "20000";
  timestamp = 1000;
  is_soroban_invocation = false;
  contract_id = none;
  metadata = [];
}

abbrev pub engine : RulesEngine ℕ ℕ
engine = record { rules = large_transfer_rule ∷ [] }

abbrev pub analyst : AuthUser
analyst = record { investigator_id = "ann"; role = investigator }

abbrev pub tokens : AuthRegistry
tokens = record { tokens = ("secret", analyst) ∷ [] }

abbrev pub empty : AppState ℕ ℕ
empty = initial engine default_config tokens

abbrev pub stamp : ℕ → Stamp ℕ
stamp n = record { record_id = n; timestamp = n }

abbrev pub draws : Draws ℕ
draws = record { now = 2000; alert_id = 7; first = stamp 101; second = stamp 102 }

abbrev pub a_trigger : TriggeredRule
a_trigger = record {
  rule_id = "large_transfer";
  rule_name = "Large transfer";
  severity = high;
  reason = "large";
  evidence = [];
}

abbrev pub confirm : DecisionRequest
confirm = record { decision = confirmed_suspicious; notes = "mule" }
