-- ===== src/Planning/Execute.antt =====
-- `PlanStrategy` of avs-plan/src/plan.rs and `HierarchicalStrategy` of avs-plan/src/hierarchical.rs. A
-- panic of a tool unwinds through the whole run, which is then `none`.
use agentverse.Base.{
  ℕ, suc, String, not, ◌<>◌, ◌&&◌, ltb, leb, string_eq, if◌then◌else◌, is_empty, contains, Option,
  none, some, List, [], ◌∷◌, map, join, Result, ok, err,
}
use agentverse.Core.Error.{AgentError, tool}
use agentverse.Core.Json.{Json, null, str}
use agentverse.Core.Message.{
  Message, MessageRole, system, user, assistant, tool as tool_role, text_message, as_text,
}
use agentverse.Core.Model.{GenerateResponse, response_as_text}
use agentverse.Core.Strategy.{StrategyOutcome, done}
use agentverse.Tools.Registry.{Run, finished, panicked, ToolRegistry, tool_names}
use agentverse.Tools.Execute.{execute}
use agentverse.Guardrails.Patterns.{GuardrailError, check_output, agent_error}
use agentverse.Planning.Planner.{PlanStep, Plan, Planner, generate_plan, decompose_request}

pub record PlanStrategy (W : Type 0) : Type 0 where
  pub planner : Planner W
  pub tools : ToolRegistry
  pub max_iterations : ℕ
  pub max_decompose_depth : ℕ
  pub tool_summaries_for : List String → String
  pub show_value : Json → String
  pub show_error : AgentError → String
  pub show_number : ℕ → String

-- the text of the last message of the user
unfoldable pub last_input : List Message → String → String
last_input [] found = found
last_input (m ∷ ms) found = elim m.role [
  | user ↦ last_input ms (as_text m)
  | system ↦ last_input ms found
  | assistant ↦ last_input ms found
  | tool_role ↦ last_input ms found
]

role_name : MessageRole → String
role_name system = "System"
role_name user = "User"
role_name assistant = "Assistant"
role_name tool_role = "Tool"

unfoldable pub conversation_of : List Message → String
unfolding role_name join
conversation_of messages = join "\n" (map (λ m. role_name m.role <> (": " <> as_text m)) messages)

-- `step.args.clone().unwrap_or_default()`
unfoldable pub args_of : Option Json → Json
args_of none = null
args_of (some args) = args

module _ {W : Type 0} (k : PlanStrategy W) where
  unfoldable pub text_of : Json → String
  text_of (str s) = s
  text_of j = k.show_value j

  -- the line of a tool that returned; `none` is a panic
  unfoldable pub step_line : Run → Option String
  unfolding text_of
  step_line (finished (ok v)) = some (text_of v)
  step_line (finished (err e)) = some ("Tool error: " <> k.show_error (tool e))
  step_line panicked = none

  unfoldable pub run_step : List String → PlanStep → Option String
  unfolding step_line args_of execute
  run_step active step = elim step.tool [
    | none ↦ some ("Reasoning: " <> step.description)
    | some name ↦
        if not (is_empty active) && not (contains active name)
        then some ("Tool '" <> (name <> "' is not available for this session"))
        else step_line (execute k.tools name (args_of step.args))
  ]

  unfoldable pub with_line :
      ℕ → Option String → Option (List (ℕ × String)) → Option (List (ℕ × String))
  with_line id none rest = none
  with_line id (some line) none = none
  with_line id (some line) (some lines) = some ((id, line) ∷ lines)

  -- the steps in their order, up to one whose number is beyond the limit
  unfoldable pub run_steps : List String → List PlanStep → Option (List (ℕ × String))
  unfolding run_step with_line
  run_steps active [] = some []
  run_steps active (step ∷ steps) =
      let rest = run_steps active steps in
      if ltb k.max_iterations step.id
      then some []
      else with_line step.id (run_step active step) rest

  numbered_lines : String → List (ℕ × String) → String
  unfolding join
  numbered_lines label lines =
      join "\n" (map (λ l. label <> (k.show_number l.0 <> (": " <> l.1))) lines)

  on_check : String → Option GuardrailError → Result StrategyOutcome AgentError
  unfolding agent_error
  on_check answer none = ok (done answer)
  on_check answer (some g) = err (agent_error g)

  checked : Result GenerateResponse AgentError × W → Result StrategyOutcome AgentError × W
  unfolding on_check check_output
  checked (err e, w) = (err e, w)
  checked (ok response, w) = (
    on_check (response_as_text response)
        (check_output k.planner.is_match (response_as_text response)),
    w,
  )

  synthesize : (system_text user_text : String) → W → Result StrategyOutcome AgentError × W
  unfolding checked
  synthesize system_text user_text w =
      checked
        (k.planner.invoke (text_message system system_text ∷ text_message user user_text ∷ []) w)

  -- `none` where a tool panicked
  unfoldable pub after_steps :
      String
      → Plan
      → Option (List (ℕ × String))
      → W
      → Option (Result StrategyOutcome AgentError × W)
  unfolding synthesize numbered_lines
  after_steps input plan none w = none
  after_steps input plan (some results) w = some (
      synthesize
        ("You executed the following plan:\nPlan: "
          <> (plan.description
              <> ("\n\nStep results:\n"
                  <> (numbered_lines "Step " results
                      <> ("\n\nProvide the final answer to: " <> input)))))
        "Based on the executed plan, provide the final answer." w)

  unfoldable pub carry_out :
      String
      → List String
      → Result Plan AgentError × W
      → Option (Result StrategyOutcome AgentError × W)
  unfolding after_steps run_steps
  carry_out input active (err e, w) = some (err e, w)
  carry_out input active (ok plan, w) = after_steps input plan (run_steps active plan.steps) w

  unfoldable pub run_with_active_tools :
      List Message → List String → W → Option (Result StrategyOutcome AgentError × W)
  unfolding carry_out generate_plan last_input conversation_of
  run_with_active_tools messages active w =
      let input = last_input messages "" in
      carry_out input active
        (generate_plan k.planner input (k.tool_summaries_for active) (conversation_of messages) w)

  unfoldable pub run : List Message → W → Option (Result StrategyOutcome AgentError × W)
  unfolding run_with_active_tools
  run messages w = run_with_active_tools messages (tool_names k.tools) w

  -- what a sub-goal comes to: its results, or that it has no plan
  lines_only : List (ℕ × String) → List String
  lines_only [] = []
  lines_only ((n, l) ∷ ls) = l ∷ lines_only ls

  unfoldable pub goal_line : List String → Result Plan AgentError → Option String
  unfolding run_steps lines_only join
  goal_line active (err e) = some ("Plan generation failed: " <> k.show_error e)
  goal_line active (ok plan) = elim (run_steps active plan.steps) [
    | none ↦ none
    | some results ↦ some (join "\n" (lines_only results))
  ]

  unfoldable pub goal_then :
      ℕ → Option String → W → (W → Option (List (ℕ × String) × W)) → Option (List (ℕ × String) × W)
  goal_then i none w next = none
  goal_then i (some line) w next = elim (next w) [
    | none ↦ none
    | some (lines, u) ↦ some ((i, line) ∷ lines, u)
  ]

  -- the sub-goals from the i-th on, up to the limit
  unfoldable pub run_goals :
      String → List String → List String → ℕ → W → Option (List (ℕ × String) × W)
  unfolding goal_then goal_line generate_plan
  run_goals conversation active [] i w = some ([], w)
  run_goals conversation active (goal ∷ goals) i w =
      if leb k.max_decompose_depth i
      then some ([], w)
      else let planned =
          generate_plan k.planner goal (k.tool_summaries_for active) conversation w in
        goal_then i (goal_line active planned.0) planned.1
          (run_goals conversation active goals (suc i))

  unfoldable pub after_goals :
      String → Option (List (ℕ × String) × W) → Option (Result StrategyOutcome AgentError × W)
  unfolding synthesize numbered_lines
  after_goals input none = none
  after_goals input (some (results, w)) = some (
      synthesize
        "You are a synthesis assistant. Combine the results of the completed sub-goals below into a single, comprehensive answer to the user's request."
        ("All sub-goals have been executed. Provide a comprehensive answer to the user's request.\n\nUser request: "
          <> (input <> ("\n\nSub-goal results:\n" <> numbered_lines "Sub-goal " results)))
        w)

  unfoldable pub on_goals :
      List Message
      → String
      → List String
      → Result (List String) AgentError × W
      → Option (Result StrategyOutcome AgentError × W)
  unfolding after_goals run_goals conversation_of
  on_goals messages input active (err e, w) = some (err e, w)
  on_goals messages input active (ok goals, w) =
      after_goals input (run_goals (conversation_of messages) active goals 0 w)

  -- `HierarchicalStrategy::run_with_active_tools`
  unfoldable pub run_hierarchical :
      List Message → List String → W → Option (Result StrategyOutcome AgentError × W)
  unfolding on_goals decompose_request last_input
  run_hierarchical messages active w =
      let input = last_input messages "" in
      on_goals messages input active (decompose_request k.planner input w)
