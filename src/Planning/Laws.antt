-- ===== src/Planning/Laws.antt =====
-- What a plan can reach, and how far it runs.
use agentverse.Base.{
  ℕ, suc, String, true, false, leb, string_eq, if◌then◌else◌, ◌≡◌, refl, sym, ap, inl, inr,
  Bool-cases, Option-cases, is_empty, contains, some, List, [], ◌∷◌, Result, ok, err,
}
use agentverse.Base.Map.{get}
use agentverse.Core.Error.{AgentError}
use agentverse.Core.Message.{Message}
use agentverse.Tools.Registry.{ToolRegistry, restricted_to_names}
use agentverse.Tools.Registry.Laws.{get-restricted_to_names}
use agentverse.Tools.Execute.{execute, run_tool, tool_of}
use agentverse.Planning.Planner.{PlanStep, Plan, generate_plan}
use agentverse.Planning.Execute.{
  PlanStrategy, conversation_of, run_step, run_steps, step_line, text_of, args_of, carry_out,
  after_steps, run_with_active_tools, goal_line, goal_then, run_goals, on_goals, after_goals,
  run_hierarchical,
}

module _ (tokenize : String → List String) where
  execute-restricted :
      (active : List String) (r : ToolRegistry) (name : String)
      → contains active name ≡ true
      → execute (restricted_to_names tokenize active r) name ≡ execute r name
  unfolding execute
  execute-restricted active r name inside = ap (λ o. run_tool (tool_of o) name) held
    where
      held : get name (restricted_to_names tokenize active r).tools ≡ get name r.tools
      held = rw inside at (get-restricted_to_names tokenize active r name)

module _ {W : Type 0} (tokenize : String → List String) (k : PlanStrategy W) (active : List String)
    (some_active : is_empty active ≡ false) where
  -- the strategy that has the active tools only
  abbrev pub restricted : PlanStrategy W
  restricted = record k { tools = restricted_to_names tokenize active k.tools }

  run_step-restricted : (step : PlanStep) → run_step k active step ≡ run_step restricted active step
  unfolding run_step step_line text_of
  run_step-restricted step = elim (Option-cases step.tool) [
    | inl e ↦ rw (e, run_step) refl
    | inr (name, e) ↦ elim (Bool-cases (contains active name)) [
      | inl inside ↦
          rw (e, run_step, some_active, inside)
            (ap (λ f. step_line k (f (args_of step.args)))
              (sym (execute-restricted tokenize active k.tools name inside)))
      | inr outside ↦ rw (e, run_step, some_active, outside) refl
    ]
  ]

  run_steps-restricted :
      (steps : List PlanStep) → run_steps k active steps ≡ run_steps restricted active steps
  unfolding run_steps
  run_steps-restricted [] = refl
  run_steps-restricted (step ∷ steps) =
      rw (run_step-restricted step, run_steps-restricted steps) refl

  carry_out-restricted :
      (input : String) (r : Result Plan AgentError × W)
      → carry_out k input active r ≡ carry_out restricted input active r
  unfolding carry_out
  carry_out-restricted input (err e, w) = refl
  carry_out-restricted input (ok plan, w) =
      ap (λ lines. after_steps k input plan lines w) (run_steps-restricted plan.steps)

  goal_line-restricted :
      (r : Result Plan AgentError) → goal_line k active r ≡ goal_line restricted active r
  unfolding goal_line
  goal_line-restricted (err e) = refl
  goal_line-restricted (ok plan) = rw (goal_line, run_steps-restricted plan.steps) refl

  run_goals-restricted :
      (conversation : String) (goals : List String) (i : ℕ) (w : W)
      → run_goals k conversation active goals i w
        ≡ run_goals restricted conversation active goals i w
  unfolding run_goals goal_then
  run_goals-restricted conversation [] i w = refl
  run_goals-restricted conversation (goal ∷ goals) i w =
      let planned = generate_plan k.planner goal (k.tool_summaries_for active) conversation w in
      λ j.
        if leb k.max_decompose_depth i
        then some ([], w)
        else goal_then k i (goal_line-restricted planned.0 j) planned.1
            (λ u. run_goals-restricted conversation goals (suc i) u j)

  -- Where a run has active tools, a plan reaches no other: it is the run of a strategy whose registry
  -- holds nothing else.
  pub run-restricted :
      (messages : List Message) (w : W)
      → run_with_active_tools k messages active w
        ≡ run_with_active_tools restricted messages active w
  unfolding run_with_active_tools
  run-restricted messages w = carry_out-restricted _ _

  on_goals-restricted :
      (messages : List Message) (input : String) (r : Result (List String) AgentError × W)
      → on_goals k messages input active r ≡ on_goals restricted messages input active r
  unfolding on_goals
  on_goals-restricted messages input (err e, w) = refl
  on_goals-restricted messages input (ok goals, w) =
      ap (after_goals k input) (run_goals-restricted (conversation_of messages) goals 0 w)

  -- Where a run of the hierarchical strategy has active tools, the plans of its sub-goals reach no
  -- other: it is the run of a strategy whose registry holds nothing else.
  run_hierarchical-restricted :
      (messages : List Message) (w : W)
      → run_hierarchical k messages active w ≡ run_hierarchical restricted messages active w
  unfolding run_hierarchical
  run_hierarchical-restricted messages w = on_goals-restricted messages _ _
