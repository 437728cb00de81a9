-- ===== src/Planning/Planner.antt =====
-- avs-plan/src/planner.rs: how a plan or a list of sub-goals is asked for and read from the answer.
use Prim.Native.Char.{code}
use agentverse.Base.{
  ℕ, String, Bool, ◌<>◌, ◌==◌, string_eq, nat_eq, if◌then◌else◌, ◌≡◌, refl, Option, none, some,
  List, [], ◌∷◌, Result, ok, err,
}
use agentverse.Base.Text.{trim, strip_prefix}
use agentverse.Core.Error as Core
use agentverse.Core.Error.{AgentError, config, guardrail, model, invalid, invalid_response}
use agentverse.Core.Json.{Json}
use agentverse.Core.Message.{Message, system, user, text_message}
use agentverse.Core.Model.{GenerateResponse, response_as_text}
use agentverse.Guardrails.Patterns.{
  GuardrailError, prompt_injection, output_filtered, action_blocked, rate_limited, check_prompt,
  show_guardrail_error,
}

pub record PlanStep : Type 0 where
  pub id : ℕ
  pub description : String
  pub tool : Option String
  pub args : Option Json
  pub depends_on : List ℕ

pub record Plan : Type 0 where
  pub description : String
  pub steps : List PlanStep

-- the model behind a runner, the templates, the regular expressions and serde_json
pub record Planner (W : Type 0) : Type 0 where
  pub invoke : List Message → W → Result GenerateResponse AgentError × W
  pub plan_prompt : (tools conversation : String) → Result String String
  pub decompose_prompt : (conversation : String) → Result String String
  pub is_match : String → String → Bool
  pub plan_of_json : String → Result Plan String
  pub goals_of_json : String → Result (List String) String

unfoldable pub strip_suffix : String → String → Option String
strip_suffix suffix String.[] = if suffix == "" then some "" else none
strip_suffix suffix (String.◌∷◌ c s) =
    let rest = strip_suffix suffix s in
    if String.◌∷◌ c s == suffix
    then some ""
    else elim rest [ none ↦ none | some t ↦ some (String.◌∷◌ c t) ]

or_same : String → Option String → String
or_same s none = s
or_same s (some t) = t

-- an answer less the marks of a code block
unfoldable pub unfenced : String → String
unfolding trim strip_prefix strip_suffix or_same
unfenced answer =
    let raw = trim answer in
    let raw1 = or_same raw (strip_prefix "```json" raw) in
    let raw2 = or_same raw1 (strip_prefix "```" raw1) in
    trim (or_same raw2 (strip_suffix "```" raw2))

from_first : ℕ → String → Option String
from_first n String.[] = none
from_first n (String.◌∷◌ c s) =
    let rest = from_first n s in if code c == n then some (String.◌∷◌ c s) else rest

up_to_last : ℕ → String → Option String
up_to_last n String.[] = none
up_to_last n (String.◌∷◌ c s) = elim (up_to_last n s) [
  | some t ↦ some (String.◌∷◌ c t)
  | none ↦ if code c == n then some (String.◌∷◌ c String.[]) else none
]

-- from the first opening bracket to the last closing one, where there are such
unfoldable pub bracketed : ℕ → ℕ → String → String
unfolding from_first up_to_last
bracketed opening closing raw = elim (from_first opening raw) [
  | none ↦ raw
  | some t ↦ elim (up_to_last closing t) [ none ↦ raw | some u ↦ u ]
]

fenced_test : bracketed 123 125 (unfenced " ```json\nso: {\"a\": {}} ok\n``` ") ≡ "{\"a\": {}}"
unfolding bracketed unfenced nat_eq string_eq
fenced_test = refl

prompt_error : GuardrailError → AgentError
unfolding show_guardrail_error
prompt_error (prompt_injection m) = guardrail (Core.prompt_injection m)
prompt_error (output_filtered m) = guardrail (Core.output_filtered m)
prompt_error (action_blocked m) =
    guardrail (Core.prompt_injection (show_guardrail_error (action_blocked m)))
prompt_error (rate_limited m) =
    guardrail (Core.prompt_injection (show_guardrail_error (rate_limited m)))

-- what is read from the answer of the model
on_answer :
    {W A : Type 0}
    → (ℕ × ℕ)
    → String
    → (String → Result A String)
    → Result GenerateResponse AgentError × W
    → Result A AgentError × W
unfolding unfenced bracketed
on_answer brackets what parse (err e, w) = (err e, w)
on_answer brackets what parse (ok response, w) =
    let answer = response_as_text response in
    elim (parse (bracketed brackets.0 brackets.1 (unfenced answer))) [
      | ok a ↦ (ok a, w)
      | err e ↦ (
        err (
            model (
              invalid_response
                ("Failed to parse " <> (what <> (": " <> (e <> (". Response was: " <> answer))))))),
        w,
      )
    ]

module _ {W : Type 0} (p : Planner W) where
  send : String → String → W → Option GuardrailError → Result GenerateResponse AgentError × W
  unfolding prompt_error
  send prompt request w (some g) = (err (prompt_error g), w)
  send prompt request w none =
      p.invoke (text_message system prompt ∷ text_message user ("Request: " <> request) ∷ []) w

  ask : Result String String → String → W → Result GenerateResponse AgentError × W
  unfolding send check_prompt
  ask (err e) request w = (err (config (invalid e)), w)
  ask (ok prompt) request w = send prompt request w (check_prompt p.is_match prompt)

  unfoldable pub generate_plan :
      (request tools conversation : String) → W → Result Plan AgentError × W
  unfolding on_answer ask
  generate_plan request tools conversation w =
      on_answer (123, 125) "plan JSON" p.plan_of_json
        (ask (p.plan_prompt tools conversation) request w)

  unfoldable pub decompose_request : (request : String) → W → Result (List String) AgentError × W
  unfolding on_answer ask
  decompose_request request w =
      on_answer (91, 93) "decomposition" p.goals_of_json
        (ask (p.decompose_prompt ("User: " <> request)) request w)
