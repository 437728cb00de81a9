-- ===== src/Examples/Phases.antt =====
-- The theorems on phases and on a turn at concrete inputs.
use agentverse.Base.{String, false, ◌≡◌, refl, Option, none, some, [], ◌∷◌, ok, string_eq, nat_eq}
use agentverse.Core.Strategy.{done}
use agentverse.Hitl.Types.{approved}
use agentverse.Hitl.Policy.{HitlPolicy, new, requires_phase_gate}
use agentverse.Memory.Session.Types.{pending_phase_gate}
use agentverse.Memory.Working as Working
use agentverse.Skill.Types.{SkillContext}
use agentverse.Agent.Types.{Agent, PhaseTransition}
use agentverse.Agent.Resume.{resume, assert_owner}
use agentverse.Agent.Phases.{Phases, advance_phase, apply_transition, current_skill}
use agentverse.Agent.Phases.Gate.{Held, advance_phase-gated}
use agentverse.Agent.Phases.Laws.{resume-gate}
use agentverse.Agent.Invoke.{Strategy, Invoker, World}
use agentverse.Agent.Invoke.Turn.{invoke}
use agentverse.Agent.Invoke.Turn.Settling.{Settled, opening_of}
use agentverse.Agent.Invoke.Turn.Laws.{invoke-Settled}
use agentverse.Examples.Sessions.{agent}

abbrev transition : PhaseTransition
transition = record { next_skill = "build"; summary = "a plan"; deliverable = "the plan" }

abbrev gate_policy : HitlPolicy
gate_policy = record new { skill_phase_gates = "plan" ∷ [] }

abbrev skill_context : SkillContext
skill_context = record {
  skill_id = "plan";
  instructions = "Plan.";
  documents = [];
  tools = [];
  max_iterations = none;
}

-- the columns `interrupted_state` and `skill_context_json`
abbrev Columns : Type 0
Columns = Option String × String

abbrev gated_agent : Agent Columns SkillContext
gated_agent = record {
  get = λ id s. agent.get id s.0;
  get_interrupted_state = λ id s. ok s.0;
  set_interrupted_state = λ id t s. (ok tt, (t, s.1));
  update_status = λ id status s. (ok tt, s);
  apply_phase_transition = λ id c t s. (ok tt, (s.0, c));
  run_with_active_tools = λ ms ts s. (ok (done "answer"), s);
  run_hitl = λ ms ts h s. (ok (done "answer"), s);
  compile_context = some (λ id. ok "context");
  hitl = some gate_policy;
  tokenize = agent.tokenize;
  tools = agent.tools;
  has_router = false;
  completion = agent.completion;
  show_value = agent.show_value;
  show_error = agent.show_error;
  show_id = agent.show_id;
  to_state_json = λ t. "gate";
  of_state_json = λ t. ok (pending_phase_gate "1" "transition");
  to_history_json = agent.to_history_json;
  of_history_json = agent.of_history_json;
  to_calls_json = agent.to_calls_json;
  of_calls_json = agent.of_calls_json;
  of_kind_json = agent.of_kind_json;
  of_transition_json = λ t. ok transition;
  skill_id = λ c. c.skill_id;
  to_skill_json = λ c. some "plan";
  of_skill_json = λ t. some skill_context;
}

abbrev phases : Phases Columns SkillContext
phases = record {
  agent = gated_agent;
  get_skill_context = λ id s. ok (some s.1);
  submit = λ r s. (ok r.id, s);
  show_hitl_error = λ e. "error";
  to_transition_json = λ t. "transition";
}

abbrev output : String
output = "the plan\n\nNEXT_SKILL: build\nSUMMARY: a plan\n"

abbrev at_gate : Columns
at_gate = (none, "plan")

advance_phase-gated_example :
    Held phases 1 "ann" 7 output "plan" at_gate (advance_phase phases 1 "ann" 7 output at_gate)
    × ((advance_phase phases 1 "ann" 7 output at_gate).1.1 ≡ "plan")
unfolding current_skill requires_phase_gate new string_eq
advance_phase-gated_example =
    advance_phase-gated phases 1 "ann" 7 (λ s. s.1)
      (record { by_submit = λ r s. refl; by_state = λ t s. refl; by_status = λ s. refl }) output
      "plan" "plan" gate_policy at_gate refl refl refl refl

resume-gate_example :
    (resume gated_agent "ann" 7 1 approved (some "gate", "plan")).1
    ≡ (apply_transition phases 7 transition (none, "plan")).1
unfolding assert_owner string_eq
resume-gate_example =
    resume-gate phases 7 transition "ann" 1 (some "gate", "plan") (none, "plan") (none, "plan") refl
      refl refl refl refl refl

abbrev strategy : Strategy Columns
strategy = record {
  run = λ ms s. (ok (done "answer"), s);
  run_with_active_tools = λ ms ns s. (ok (done "answer"), s);
  run_hitl = λ ms ns h s. (ok (done "answer"), s);
}

abbrev invoker : Invoker Columns
invoker = record {
  agent = gated_agent;
  strategy = strategy;
  strategy_router = none;
  build = λ n ns. strategy;
  skills = none;
  base_prompt = none;
  retrieve = none;
  to_context_json = λ c. "plan";
  bad_context = "bad";
  load_messages = λ id s. ok [];
  append_turn = λ id u a s. (ok tt, (some "turn", s.1));
  get_skill_context = λ id s. ok none;
  set_skill_context = λ id c s. (ok tt, s);
  get_phase_opening_context = λ id s. ok none;
  set_phase_opening_context = λ id c s. (ok tt, s);
}

abbrev calm : World Columns
calm = record { store = (none, "plan"); cache = Working.new 100; spawned = [] }

invoke-Settled_example :
    Settled invoker 5 "ann" 7
      (opening_of invoker 5 "ann" 7 "hello" calm)
      (invoke invoker 5 "ann" 7 "hello" calm)
invoke-Settled_example = invoke-Settled invoker 5 "ann" 7 "hello" calm
