-- ===== src/React/Hitl/Quiet.antt =====
-- The loop with a hook that intercepts nothing.
use agentverse.Base.{
  ℕ, zero, suc, String, true, false, ◌≡◌, refl, inl, inr, List, [], ◌∷◌, any, is_empty, Result, ok,
  err, arith,
}
use agentverse.Core.Json.{Json}
use agentverse.Core.Error.{AgentError}
use agentverse.Core.Message.{Message}
use agentverse.Core.Model.{GenerateResponse}
use agentverse.Core.Tool.{ToolCall}
use agentverse.Tools.Execute.{HitlHook}
use agentverse.Tools.Execute.Laws.{Decides, intercepted, execute_many_hitl_lem}
use agentverse.React.Cycle
use agentverse.React.Cycle.{calls_of, action_from_response}
use agentverse.React.Strategy
use agentverse.React.Strategy.{
  Skeleton, State, Turn, finish, again, turn, loop, prepare_buffer, run_with_active_tools,
  check_output_guardrail, invoke_with_active_tools,
}
use agentverse.React.Strategy.Loop.{Turn-cases}
use agentverse.React.Hitl
use agentverse.React.Hitl.{Carried, hitl_turn, run_hitl}

abbrev carry : Turn (List Message) → Turn Carried
carry (finish r) = finish r
carry (again buf) = again (buf, true)

module _ {W Q : Type 0} (k : Skeleton W) (hook : HitlHook Q) (law : Decides hook)
    (nothing : (name : String) (args : Json) → law.decides name args ≡ false)
    (no_required : is_empty hook.required_tool_names ≡ true) (names : List String) where
  none_intercepted : (calls : List ToolCall) → any (intercepted hook law) calls ≡ false
  none_intercepted [] = refl
  none_intercepted (c ∷ calls) = ground (arith, nothing c.name c.args, none_intercepted calls)

  act-carry :
      (buf : List Message) (response : GenerateResponse) (calls : List ToolCall)
      (parts : List String) (s : State W Q)
      → Hitl.act k hook names buf true response (Cycle.decide k.is_blank calls parts) s ≡ (
        carry (Strategy.act k buf response (Cycle.decide k.is_blank calls parts) s).0,
        (Strategy.act k buf response (Cycle.decide k.is_blank calls parts) s).1,
      )
  unfolding Cycle.decide Hitl.act Strategy.act Hitl.on_executed
  act-carry buf response [] [] s = refl
  act-carry buf response [] (p ∷ parts) s = refl
  act-carry buf response (c ∷ calls) parts s =
      rw
        ((execute_many_hitl_lem hook law k.completion k.tools (c ∷ calls) s.queue).1
          (none_intercepted (c ∷ calls)))
        refl

  on_response-carry :
      (buf : List Message) (r : Result GenerateResponse AgentError) (s : State W Q)
      → Hitl.on_response k hook names buf true (r, s)
        ≡ (carry (Strategy.on_response k buf (r, s)).0, (Strategy.on_response k buf (r, s)).1)
  unfolding Hitl.on_response Strategy.on_response action_from_response
  on_response-carry buf (err e) s = refl
  on_response-carry buf (ok response) s =
      act-carry buf response (calls_of response.content)
        (Cycle.text_parts k.is_blank response.content) s

  turn-carry :
      (buf : List Message) (s : State W Q)
      → hitl_turn k hook names (buf, true) s
        ≡ (carry (turn k names buf s).0, (turn k names buf s).1)
  unfolding hitl_turn turn
  turn-carry buf s =
      let x : Result GenerateResponse AgentError × State W Q =
        check_output_guardrail k (invoke_with_active_tools k buf names s) in
      on_response-carry buf x.0 x.1

  loop-carry :
      (left : ℕ) (buf : List Message) (s : State W Q)
      → loop k (hitl_turn k hook names) left (buf, true) s ≡ loop k (turn k names) left buf s
  unfolding loop
  loop-carry zero buf s = refl
  loop-carry (suc left) buf s = elim (Turn-cases (turn k names buf s).0) [
    | inl (r, e) ↦ rw (loop, turn-carry buf s, e, turn-carry buf s) refl
    | inr (buf', e) ↦
        rw (loop, turn-carry buf s, e, turn-carry buf s)
          (loop-carry left buf' (turn k names buf s).1)
  ]

  -- With a hook that decides on a call by the call alone, intercepts none and requires none, the loop with the hook is the loop without:
  -- the same result, the same requests and the same calls.
  pub run_hitl-quiet :
      (messages : List Message) (s : State W Q)
      → run_hitl k hook names messages s ≡ run_with_active_tools k messages names s
  unfolding run_hitl run_with_active_tools
  run_hitl-quiet messages s =
      rw no_required (loop-carry k.max_iterations (prepare_buffer k messages) s)
