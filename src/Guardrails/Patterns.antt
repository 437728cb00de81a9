-- ===== src/Guardrails/Patterns.antt =====
-- avs-guardrails/src/prompt_guard.rs and output_guard.rs, with the errors of the crate and what
-- avs-react/src/cycle.rs makes of them. The matcher of the regex crate is a parameter: it takes the
-- source of a pattern and a text.
use agentverse.Base.{String, Bool, ◌<>◌, if◌then◌else◌, Option, none, some, List, [], ◌∷◌}
use agentverse.Core.Error.{AgentError, guardrail}
use agentverse.Core.Error as Core

pub data GuardrailError : Type 0 where
  prompt_injection output_filtered action_blocked rate_limited : String → GuardrailError

abbrev pub prompt_injection_patterns : List String
prompt_injection_patterns =
    "(?i)(ignore\\s+previous|forget\\s+previous|disregard\\s+previous)\\s+instructions"
    ∷ "(?i)(you\\s+are\\s+now|from\\s+now\\s+on).*?(jailbroken|unrestricted|uncensored)"
    ∷ "(?i)(DAN|DMIT|DO NOT INTERRUPT|do not interrupt me|DAN mode|developer mode)"
    ∷ "(?i)(system\\s*:\\s*)?(roleplay|simulate|pretend)\\s+(that\\s+you)?\\s+(are\\s+)?(an\\s+)?(AI|assistant)\\s+without\\s+(any|these)\\s+(restrictions|guidelines|safety|rules)"
    ∷ []

abbrev pub pii_patterns : List (String × String)
pii_patterns =
    ("\\b\\d{3}-\\d{2}-\\d{4}\\b", "SSN")
    ∷ ("\\b\\d{4}[\\s-]\\d{4}[\\s-]\\d{4}[\\s-]\\d{4}\\b", "Credit Card")
    ∷ ("[a-zA-Z0-9._%+-]+@[a-zA-Z0-9.-]+\\.[a-zA-Z]{2,}", "Email")
    ∷ []

module _ (is_match : String → String → Bool) where
  first_injection : List String → String → Option GuardrailError
  first_injection [] prompt = none
  first_injection (p ∷ ps) prompt =
      let rest = first_injection ps prompt in
      if is_match p prompt
      then some (prompt_injection ("Potential prompt injection detected: " <> p))
      else rest

  -- `none` is `Ok(())`
  unfoldable pub check_prompt : String → Option GuardrailError
  unfolding first_injection
  check_prompt prompt = first_injection prompt_injection_patterns prompt

  first_pii : List (String × String) → String → Option GuardrailError
  first_pii [] output = none
  first_pii ((p, pii_type) ∷ ps) output =
      let rest = first_pii ps output in
      if is_match p output
      then some (output_filtered ("PII detected: " <> (pii_type <> " — output filtered")))
      else rest

  unfoldable pub check_output : String → Option GuardrailError
  unfolding first_pii
  check_output output = first_pii pii_patterns output

unfoldable pub show_guardrail_error : GuardrailError → String
show_guardrail_error (prompt_injection m) = "Prompt injection: " <> m
show_guardrail_error (output_filtered m) = "Output filtered: " <> m
show_guardrail_error (action_blocked m) = "Action blocked: " <> m
show_guardrail_error (rate_limited m) = "Rate limited: " <> m

-- the `map_err` of `CycleSkeleton::check_output_guardrail`
unfoldable pub agent_error : GuardrailError → AgentError
unfolding show_guardrail_error
agent_error (output_filtered m) = guardrail (Core.output_filtered m)
agent_error (prompt_injection m) = guardrail (Core.prompt_injection m)
agent_error (action_blocked m) =
    guardrail (Core.output_filtered (show_guardrail_error (action_blocked m)))
agent_error (rate_limited m) =
    guardrail (Core.output_filtered (show_guardrail_error (rate_limited m)))
