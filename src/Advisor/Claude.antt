-- ===== src/Advisor/Claude.antt =====
-- crates/ai_advisor/src/claude.rs. The HTTP client and serde_json are an argument.
use stellartrace.Prelude.{
  ◌-◌, ℕ, ◌+◌, Bool, true, not, Option, none, some, String, List, [], ◌∷◌, ltb, if◌then◌else◌,
}
use stellartrace.Prelude.Outcome.{Result, ok, fail, Run, done, ◌>>=◌}
use stellartrace.Prelude.Text.{format}
use stellartrace.Advisor.Sanitize.{before, behind}
use stellartrace.Prelude.Substring.{find?, rfind?, split_at}
use stellartrace.Common.{AiRecommendation, ai_advisory_label}
use stellartrace.Advisor.Context.{AiContext}
use stellartrace.Advisor.Service.{
  AiAdvisor, AiAdvisorError, request_failed, unparseable_response, not_configured,
}

pub record ExpectedModelOutput (F : Type 0) : Type 0 where
  pub summary : String
  pub suspicious_signals : List String
  pub relevant_history_context : String
  pub risk_assessment : String
  pub recommended_next_steps : List String
  pub confidence : F
  pub explanation : String

pub record AnthropicMessage : Type 0 where
  pub role : String
  pub content : String

pub record AnthropicRequest : Type 0 where
  pub model : String
  pub max_tokens : ℕ
  pub system : String
  pub messages : List AnthropicMessage

-- The texts of the content blocks of an answer, in order.
pub record AnthropicResponse : Type 0 where
  pub content : List String

pub record ClaudeAdvisor : Type 0 where
  pub api_key : String
  pub model : String
  pub api_base : String

-- `ClaudeAdvisor::new`
abbrev pub new_advisor : String → ClaudeAdvisor
new_advisor api_key = record {
  api_key = api_key;
  model = "claude-sonnet-5";
  api_base = "https://api.anthropic.com/v1/messages";
}

abbrev pub with_model : ClaudeAdvisor → String → ClaudeAdvisor
with_model advisor model = record advisor { model = model }

-- `from_env`, of the variable `ANTHROPIC_API_KEY`
abbrev pub from_env : Option String → Result ClaudeAdvisor AiAdvisorError
from_env none = fail not_configured
from_env (some key) = ok (new_advisor key)

unfoldable pub system_prompt : String
system_prompt = format (
    "You are a fraud-triage assistant for the StellarTrace system. You analyze a "
    ∷ "single flagged Stellar transaction and produce a STRICTLY ADVISORY "
    ∷ "assessment for a human investigator.\n" ∷ "\n"
    ∷ "You must NEVER approve, reject, freeze, reverse, block, or otherwise state "
    ∷ "that a transaction has been actioned. You have no ability to change any "
    ∷ "system state, and any text that reads as an instruction to do so will be "
    ∷ "stripped before a human sees it. Only a human investigator decides final " ∷ "status.\n"
    ∷ "\n" ∷ "Respond with ONLY a single JSON object with exactly these fields:\n" ∷ "{\n"
    ∷ "  \"summary\": \"concise summary of the transaction\",\n"
    ∷ "  \"suspicious_signals\": [\"signal 1\", \"signal 2\"],\n"
    ∷ "  \"relevant_history_context\": \"relevant context from the provided history\",\n"
    ∷ "  \"risk_assessment\": \"your assessment of risk level and why\",\n"
    ∷ "  \"recommended_next_steps\": [\"step 1\", \"step 2\"],\n" ∷ "  \"confidence\": 0.0,\n"
    ∷ "  \"explanation\": \"brief explanation of your reasoning and confidence\"\n" ∷ "}\n"
    ∷ "\"confidence\" must be a number between 0 and 1. Do not include any text "
    ∷ "outside the JSON object." ∷ [])

-- What the HTTP client reads of a reply: its status, and its body as `json()` parses it.
pub record HttpReply : Type 0 where
  pub is_success : Bool
  pub status : String
  pub json : Result AnthropicResponse String

-- reqwest and serde_json: a POST to a URL with the key and the request as its body, which may fail
-- with an error's text; the printing of a context; and the parsing of the model's output.
pub record Provider (F T : Type 0) : Type 0 where
  pub post : String → String → AnthropicRequest → Result HttpReply String
  pub to_string_pretty : AiContext F T → Option String
  pub from_str : String → Result (ExpectedModelOutput F) String

abbrev pub text_or_default : Option String → String
text_or_default none = ""
text_or_default (some text) = text

-- `&text[start..=end]`, or a panic
abbrev pub slice_from_to : String → ℕ → ℕ → Run String
slice_from_to text start end = do
  rest ← behind (split_at text start)
  before (split_at rest (end + 1 - start))

abbrev pub sliced : String → Option ℕ → Option ℕ → Run (Option String)
sliced text none end = done none
sliced text (some start) none = done none
sliced text (some start) (some end) =
    if ltb start end
    then (slice_from_to text start end >>= (λ json. done (some json)))
    else done none

-- from the first `{` to the last `}`
unfoldable pub extract_json : String → Run (Option String)
extract_json text = sliced text (find? text "{") (rfind? text "}")

-- A step of `investigate` that ends it by an error.
abbrev pub and_then :
    {A B : Type 0}
    → Result A AiAdvisorError
    → (A → Run (Result B AiAdvisorError))
    → Run (Result B AiAdvisorError)
and_then (ok a) f = f a
and_then (fail e) f = done (fail e)

abbrev pub map_err :
    {A : Type 0} → (String → AiAdvisorError) → Result A String → Result A AiAdvisorError
map_err f (ok a) = ok a
map_err f (fail e) = fail (f e)

abbrev pub ok_or : {A : Type 0} → AiAdvisorError → Option A → Result A AiAdvisorError
ok_or e none = fail e
ok_or e (some a) = ok a

abbrev pub first_text : List String → Option String
first_text [] = none
first_text (text ∷ texts) = some text

abbrev pub successful : HttpReply → Result HttpReply AiAdvisorError
successful reply =
    if not reply.is_success
    then fail (request_failed (format ("anthropic api returned status " ∷ reply.status ∷ [])))
    else ok reply

module _ {F T : Type 0} where
  -- `build_user_prompt`
  abbrev pub build_user_prompt : Provider F T → AiContext F T → String
  build_user_prompt provider context = format (
      "Analyze this flagged transaction and respond with the JSON object described in the "
      ∷ "system prompt.\n\nTransaction context:\n"
      ∷ text_or_default (provider.to_string_pretty context)
      ∷ [])

  abbrev pub request_of : ClaudeAdvisor → Provider F T → AiContext F T → AnthropicRequest
  request_of advisor provider context = record {
    model = advisor.model;
    max_tokens = 1024;
    system = system_prompt;
    messages = (record { role = "user"; content = build_user_prompt provider context }) ∷ [];
  }

  abbrev pub recommendation_of : AiContext F T → T → ExpectedModelOutput F → AiRecommendation F T
  recommendation_of context now model_output = record {
    alert_id = context.alert_id;
    label = ai_advisory_label;
    summary = model_output.summary;
    suspicious_signals = model_output.suspicious_signals;
    relevant_history_context = model_output.relevant_history_context;
    risk_assessment = model_output.risk_assessment;
    recommended_next_steps = model_output.recommended_next_steps;
    confidence = model_output.confidence;
    explanation = model_output.explanation;
    generated_at = now;
    model_available = true;
  }

  module _ (provider : Provider F T) (now : T) (context : AiContext F T) where
    -- `serde_json::from_str`, and the recommendation
    abbrev pub of_json : String → Run (Result (AiRecommendation F T) AiAdvisorError)
    of_json json_str =
        and_then (map_err unparseable_response (provider.from_str json_str))
          (λ model_output. done (ok (recommendation_of context now model_output)))

    -- the rest of `investigate` from the text of the first block on
    abbrev pub of_text : String → Run (Result (AiRecommendation F T) AiAdvisorError)
    of_text text = do
      extracted ← extract_json text
      and_then (ok_or (unparseable_response "no JSON object found in response") extracted) of_json

    -- the rest from the parsed body on
    abbrev pub of_response : AnthropicResponse → Run (Result (AiRecommendation F T) AiAdvisorError)
    of_response parsed =
        and_then (ok_or (unparseable_response "empty content") (first_text parsed.content)) of_text

    -- the rest from the reply on
    abbrev pub of_reply : HttpReply → Run (Result (AiRecommendation F T) AiAdvisorError)
    of_reply response =
        and_then (successful response)
          (λ reply. and_then (map_err request_failed reply.json) of_response)

  -- `ClaudeAdvisor::investigate`, at an instant
  unfoldable pub claude_investigate : ClaudeAdvisor → Provider F T → T → AiAdvisor F T
  claude_investigate advisor provider now context =
      and_then
        (map_err request_failed
          (provider.post advisor.api_base advisor.api_key (request_of advisor provider context)))
        (of_reply provider now context)
