-- ===== src/Examples/Plans.antt =====
-- The theorems on plans at concrete inputs: a plan that names a tool outside the session.
use agentverse.Base.{ℕ, String, false, ◌≡◌, refl, none, some, [], ◌∷◌, ok}
use agentverse.Core.Message.{text}
use agentverse.Planning.Planner.{PlanStep}
use agentverse.Planning.Execute.{PlanStrategy, run_with_active_tools}
use agentverse.Planning.Laws.{restricted, run-restricted}
use agentverse.Examples.{response, tools, words, names, messages}

abbrev step : ℕ → String → PlanStep
step id tool = record {
  id = id;
  description = "a step";
  tool = some tool;
  args = none;
  depends_on = [];
}

abbrev strategy : PlanStrategy ℕ
strategy = record {
  planner = record {
    invoke = λ ms n. (ok (response (text "answer" ∷ [])), n);
    plan_prompt = λ t c. ok "plan";
    decompose_prompt = λ c. ok "decompose";
    is_match = λ p t. false;
    plan_of_json =
        λ t. ok (record { description = "plan"; steps = step 1 "release" ∷ step 2 "shell" ∷ [] });
    goals_of_json = λ t. ok ("first" ∷ []);
  };
  tools = tools;
  max_iterations = 5;
  max_decompose_depth = 3;
  tool_summaries_for = λ ns. "tools";
  show_value = λ v. "value";
  show_error = λ e. "error";
  show_number = λ n. "n";
}

run-restricted_example :
    run_with_active_tools strategy messages names 0
    ≡ run_with_active_tools (restricted words strategy names refl) messages names 0
run-restricted_example = run-restricted words strategy names refl messages 0
