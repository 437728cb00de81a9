-- ===== src/Examples/Sessions.antt =====
-- The theorems on suspended sessions at concrete inputs: a session of Ann that waits for an approval.
use agentverse.Base.{
  String, false, ◌≡◌, refl, Option, none, some, [], ◌∷◌, ok, err, ◌==◌, string_eq, if◌then◌else◌,
}
use agentverse.Core.Json.{null}
use agentverse.Core.Strategy.{HitlInterrupt, done}
use agentverse.Hitl.Types.{tool_approval, approved}
use agentverse.Memory.Session.Types.{suspended, InterruptedState, pending_tool_call}
use agentverse.Agent.Types.{Agent}
use agentverse.Agent.Calls.{state_of}
use agentverse.Agent.Resume.{resume, proceed, assert_owner}
use agentverse.Agent.Resume.Laws.{Guarded, resume-Guarded, left_plan, resume-suspended}
use agentverse.Examples.{policy, tools, call, words, second_first, messages, names}

abbrev interrupt : HitlInterrupt
interrupt = record {
  approval_id = 1;
  kind_json = "kind";
  history = messages;
  pending_calls = call "c2" "release" ∷ [];
  active_tool_names = names;
}

abbrev stored_state : InterruptedState
stored_state = pending_tool_call "1" "kind" "history" "calls" names none

-- the state of the store is the column `interrupted_state`
abbrev pub agent : Agent (Option String) String
agent = record {
  get = λ id s. ok (
      some
        (record { id = id; user_id = "ann"; status = suspended; created_at = 0; updated_at = 0 }));
  get_interrupted_state = λ id s. ok s;
  set_interrupted_state = λ id t s. (ok tt, t);
  update_status = λ id status s. (ok tt, s);
  apply_phase_transition = λ id c t s. (ok tt, s);
  run_with_active_tools = λ ms ts s. (ok (done "answer"), s);
  run_hitl = λ ms ts h s. (ok (done "answer"), s);
  compile_context = none;
  hitl = some policy;
  tokenize = words;
  tools = tools;
  has_router = false;
  completion = second_first;
  show_value = λ v. "value";
  show_error = λ e. "error";
  show_id = λ id. "1";
  to_state_json = λ t. "state";
  of_state_json = λ t. ok stored_state;
  to_history_json = λ ms. "history";
  of_history_json = λ t. ok messages;
  to_calls_json = λ cs. "calls";
  of_calls_json = λ t. if t == "calls" then ok (call "c2" "release" ∷ []) else ok [];
  of_kind_json = λ t. ok (tool_approval "release" null);
  of_transition_json = λ t. err "none";
  skill_id = λ c. c;
  to_skill_json = λ c. some c;
  of_skill_json = λ t. some t;
}

resume-Guarded_example :
    Guarded agent 7 1 approved (some "state") "bob" (resume agent "bob" 7 1 approved (some "state"))
resume-Guarded_example = resume-Guarded agent 7 1 approved (some "state") "bob"

resume-suspended_example :
    resume agent "ann" 7 1 approved (some "state")
    ≡ proceed agent 7 approved
        (left_plan agent interrupt none (tool_approval "release" null))
        (some "state")
unfolding state_of assert_owner string_eq
resume-suspended_example =
    resume-suspended agent 7 interrupt none (tool_approval "release" null) "ann" approved
      (some "state")
      (record { reads_state = refl; reads_history = refl; reads_calls = refl; reads_none = refl })
      refl refl
