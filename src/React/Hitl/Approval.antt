-- ===== src/React/Hitl/Approval.antt =====
-- The loop with the hook of avs-hitl.
use agentverse.Base.{String, Bool, false, ◌||◌, string_eq, ◌≡◌, ◌∙◌, sym, List, any, is_empty}
use agentverse.Core.Message.{Message}
use agentverse.Core.Strategy.{ApprovalId}
use agentverse.Core.Tool.{ToolCall}
use agentverse.Hitl.Policy.{is_checkpoint_tool, requires_tool_approval}
use agentverse.Hitl.Context.{HitlContext, Backend, due_tool_names}
use agentverse.Hitl.Context.Laws.{check_tool-due}
use agentverse.Tools.Execute.Laws.{context_hook, context_hook-Decides}
use agentverse.React.Strategy.{Skeleton, State}
use agentverse.React.Hitl.{run_hitl}
use agentverse.React.Hitl.Laws.{is_done, run_hitl-due, run_hitl-spares}

-- the calls that the policy keeps for a person
abbrev pub needs_person : HitlContext → ToolCall → Bool
needs_person ctx c =
    is_checkpoint_tool c.name || requires_tool_approval ctx.policy ctx.skill_id c.name

module _ {W Q : Type 0} (k : Skeleton W) (b : Backend Q) (ctx : HitlContext)
    (uuid sentinel : ApprovalId) (names : List String) (messages : List Message)
    (s : State W Q) where
  -- Where the policy has a tool that the skill must call, and no approval has been given yet, a run
  -- never ends with an answer, whatever the model replies and also when the queue is down.
  pub run_hitl-approval :
      is_empty (due_tool_names ctx) ≡ false
      → is_done (run_hitl k (context_hook b ctx uuid sentinel) names messages s).0 ≡ false
  unfolding context_hook
  run_hitl-approval due =
      run_hitl-due k (context_hook b ctx uuid sentinel) (context_hook-Decides b ctx uuid sentinel)
        names messages s
        (λ name args required.
          sym ((context_hook-Decides b ctx uuid sentinel).agrees name args s.queue)
          ∙ check_tool-due b ctx uuid sentinel name args s.queue required)
        due

  -- Where no call executed before is one that the policy keeps for a person, none executed by the end
  -- of a run is.
  pub run_hitl-policy :
      any (needs_person ctx) s.executed ≡ false
      → any
          (needs_person ctx)
          (run_hitl k (context_hook b ctx uuid sentinel) names messages s).1.executed
        ≡ false
  unfolding context_hook-Decides
  run_hitl-policy =
      run_hitl-spares k (context_hook b ctx uuid sentinel)
        (context_hook-Decides b ctx uuid sentinel) names messages s
