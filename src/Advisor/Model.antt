-- ===== src/Advisor/Model.antt =====
-- What `ClaudeAdvisor::investigate` of crates/ai_advisor/src/claude.rs makes of a reply.
use stellartrace.Prelude.{
  inr, inl, Bool-cases, ◌≡◌, refl, true, false, Option, none, some, String, [], ◌∷◌,
}
use stellartrace.Prelude.Outcome.{Returns-bind, Result, ok, fail, done, Returns}
use stellartrace.Prelude.Text.{format}
use stellartrace.Common.{AiRecommendation}
use stellartrace.Advisor.Context.{AiContext}
use stellartrace.Advisor.Service.{AiAdvisorError, request_failed, unparseable_response}
use stellartrace.Advisor.Claude.{
  extract_json, claude_investigate, ClaudeAdvisor, Provider, HttpReply, AnthropicResponse,
  ExpectedModelOutput, request_of, first_text, recommendation_of, of_json, of_text, of_response,
  of_reply, and_then, map_err, ok_or,
}
use stellartrace.Advisor.Extract.{extract_json-Extracted, IsExtracted, Unbraced, Extracted}

module _ {F T : Type 0} (advisor : ClaudeAdvisor) (provider : Provider F T) (now : T)
    (context : AiContext F T) where
  abbrev posted : Result HttpReply String
  posted = provider.post advisor.api_base advisor.api_key (request_of advisor provider context)

  -- The recommendation is what the model put into the first text of a successful reply.
  pub record IsModelOutput (rec : AiRecommendation F T) : Type 0 where
    pub reply : HttpReply
    pub response : AnthropicResponse
    pub text : String
    pub json_str : String
    pub output : ExpectedModelOutput F
    pub sent : posted ≡ ok reply
    pub success : reply.is_success ≡ true
    pub body : reply.json ≡ ok response
    pub first : first_text response.content ≡ some text
    pub extracted : IsExtracted text json_str
    pub parsed : provider.from_str json_str ≡ ok output
    pub result : rec ≡ recommendation_of context now output

  -- The stage that failed, with its error.
  pub data Failure : AiAdvisorError → Type 0 where
    not_sent : (e : String) → posted ≡ fail e → Failure (request_failed e)
    not_successful :
        (reply : HttpReply)
        → posted ≡ ok reply
        → reply.is_success ≡ false
        → Failure (request_failed (format ("anthropic api returned status " ∷ reply.status ∷ [])))
    not_json :
        (reply : HttpReply) (e : String)
        → posted ≡ ok reply
        → reply.json ≡ fail e
        → Failure (request_failed e)
    no_content :
        (reply : HttpReply) (response : AnthropicResponse)
        → posted ≡ ok reply
        → reply.json ≡ ok response
        → first_text response.content ≡ none
        → Failure (unparseable_response "empty content")
    no_object :
        (reply : HttpReply) (response : AnthropicResponse) (text : String)
        → posted ≡ ok reply
        → reply.json ≡ ok response
        → first_text response.content ≡ some text
        → Unbraced text
        → Failure (unparseable_response "no JSON object found in response")
    not_expected :
        (reply : HttpReply) (response : AnthropicResponse) (text json_str e : String)
        → posted ≡ ok reply
        → reply.json ≡ ok response
        → first_text response.content ≡ some text
        → IsExtracted text json_str
        → provider.from_str json_str ≡ fail e
        → Failure (unparseable_response e)

  abbrev pub IsModelAnswer : Result (AiRecommendation F T) AiAdvisorError → Type 0
  IsModelAnswer (ok rec) = IsModelOutput rec
  IsModelAnswer (fail e) = Failure e

  module _ (reply : HttpReply) (sent : posted ≡ ok reply) (success : reply.is_success ≡ true) where
    module _ (response : AnthropicResponse) (body : reply.json ≡ ok response) where
      module _ (text : String) (first : first_text response.content ≡ some text) where
        output_at :
            (json_str : String)
            → IsExtracted text json_str
            → (o : Result (ExpectedModelOutput F) String) → provider.from_str json_str ≡ o
            → Returns IsModelAnswer (
                and_then
                  (map_err unparseable_response o)
                  (λ output. done (ok (recommendation_of context now output))))
        output_at json_str extracted (fail e) parsed =
            not_expected reply response text json_str e sent body first extracted parsed
        output_at json_str extracted (ok output) parsed = record {
          reply = reply;
          response = response;
          text = text;
          json_str = json_str;
          output = output;
          sent = sent;
          success = success;
          body = body;
          first = first;
          extracted = extracted;
          parsed = parsed;
          result = refl;
        }

        object_at :
            (found : Option String)
            → Extracted text found
            → Returns IsModelAnswer (
                and_then
                  (ok_or (unparseable_response "no JSON object found in response") found)
                  (of_json provider now context))
        object_at none unbraced = no_object reply response text sent body first unbraced
        object_at (some json_str) extracted =
            output_at json_str extracted (provider.from_str json_str) refl

        text_at : Returns IsModelAnswer (of_text provider now context text)
        text_at =
            Returns-bind (Extracted text) IsModelAnswer (extract_json text) _
              (extract_json-Extracted text) object_at

      content_at :
          (o : Option String)
          → first_text response.content ≡ o
          → Returns IsModelAnswer (
              and_then
                (ok_or (unparseable_response "empty content") o)
                (of_text provider now context))
      content_at none first = no_content reply response sent body first
      content_at (some text) first = text_at text first

    body_at :
        (o : Result AnthropicResponse String)
        → reply.json ≡ o
        → Returns IsModelAnswer
            (and_then (map_err request_failed o) (of_response provider now context))
    body_at (fail e) body = not_json reply e sent body
    body_at (ok response) body = content_at response body (first_text response.content) refl

  reply_at :
      (reply : HttpReply)
      → posted ≡ ok reply
      → Returns IsModelAnswer (of_reply provider now context reply)
  reply_at reply sent = elim (Bool-cases reply.is_success) [
    | inl e ↦ rw e (body_at reply sent e reply.json refl)
    | inr e ↦ rw e (not_successful reply sent e)
  ]

  sent_at :
      (o : Result HttpReply String)
      → posted ≡ o
      → Returns IsModelAnswer (and_then (map_err request_failed o) (of_reply provider now context))
  sent_at (fail e) sent = not_sent e sent
  sent_at (ok reply) sent = reply_at reply sent

  -- `ClaudeAdvisor::investigate` never panics and never invents a recommendation. What it recommends
  -- are the fields that the model put into the first text of a successful reply, between the first
  -- opening brace and the last closing one, for the alert that was asked about; otherwise it
  -- returns the error of the first stage that failed.
  pub claude_investigate-IsModelAnswer :
      Returns IsModelAnswer (claude_investigate advisor provider now context)
  unfolding claude_investigate
  claude_investigate-IsModelAnswer = sent_at posted refl
