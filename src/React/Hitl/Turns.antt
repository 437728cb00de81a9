-- ===== src/React/Hitl/Turns.antt =====
-- A turn of the loop with the hook, by cases: what is to be shown of a turn to keep an invariant.
use agentverse.Base.{
  ℕ, String, Bool, true, false, ◌||◌, ◌≡◌, refl, inl, inr, List, [], ◌∷◌, ◌++◌, any, join, Result,
  ok, err, is_ok, Bool-cases,
}
use agentverse.Core.Error.{AgentError, model, invalid_response}
use agentverse.Core.Message.{Message}
use agentverse.Core.Model.{GenerateResponse}
use agentverse.Core.Tool.{ToolCall, ToolCallResult}
use agentverse.Core.Strategy.{StrategyOutcome, done, interrupted}
use agentverse.Tools.Execute.{HitlHook, HitlInterruptResult, execute_many_hitl, execute_many}
use agentverse.Tools.Execute.Laws.{Decides, intercepted, execute_many_hitl_lem}
use agentverse.React.Cycle
use agentverse.React.Cycle.{CycleAction, tool_calls, error, action_from_response, calls_of}
use agentverse.React.Strategy.{
  Skeleton, State, push_round, invoke_with_active_tools, check_output_guardrail,
}
use agentverse.React.Strategy.Loop.{Kept, Asked, answer-Asked}
use agentverse.React.Hitl.{
  calls_required, Carried, hitl_turn, on_response, act, on_executed, push_retry,
}

module _ {W Q : Type 0} (k : Skeleton W) (hook : HitlHook Q) (law : Decides hook)
    (names : List String) (I : ℕ → Carried → State W Q → Type 0)
    (P : Result StrategyOutcome AgentError → State W Q → Type 0) where
  -- What is to be shown of a turn.
  pub record TurnCases (left : ℕ) (buf : List Message) (called : Bool) (s : State W Q)
      : Type 0 where
    pub failed : (e : AgentError) (t : State W Q) → Asked k buf s t → P (err e) t
    pub round :
        (response : GenerateResponse) (calls : List ToolCall) (t : State W Q)
        → Asked k buf s t
        → calls_of response.content ≡ calls
        → any (intercepted hook law) calls ≡ false
        → I left
            (
              push_round k buf response calls (execute_many k.completion k.tools calls),
              called || calls_required hook.required_tool_names calls,
            )
            (record t { queue = t.queue; executed = t.executed ++ calls })
    pub stopped :
        (i : HitlInterruptResult) (calls : List ToolCall) (q : Q) (t : State W Q)
        → Asked k buf s t
        → any (intercepted hook law) calls ≡ true
        → P
            (ok (
              interrupted (record {
                approval_id = i.approval_id;
                kind_json = i.kind_json;
                history = buf;
                pending_calls = calls;
                active_tool_names = names;
              })))
            (record t { queue = q; executed = t.executed ++ [] })
    pub retried :
        (response : GenerateResponse) (t : State W Q)
        → Asked k buf s t
        → called ≡ false
        → calls_of response.content ≡ []
        → I left (push_retry buf response hook.required_tool_names, called) t
    pub answered :
        (answer : String) (t : State W Q) → Asked k buf s t → called ≡ true → P (ok (done answer)) t

  module _ (left : ℕ) (buf : List Message) (called : Bool) (s : State W Q)
      (cases : TurnCases left buf called s) where
    on_executed-Kept :
        (response : GenerateResponse) (calls : List ToolCall) (t : State W Q)
        (x : Result (List ToolCallResult) HitlInterruptResult × Q × List ToolCall)
        → Asked k buf s t
        → any (intercepted hook law) calls ≡ true
        → is_ok x.0 ≡ false
        → x.2 ≡ []
        → Kept I P left
            (on_executed k hook names buf
              (called || calls_required hook.required_tool_names calls)
              response
              calls
              t
              x).0
            (on_executed k hook names buf
              (called || calls_required hook.required_tool_names calls)
              response
              calls
              t
              x).1
    unfolding on_executed
    on_executed-Kept response calls t (ok rs, q, d) a h stop nothing = cc stop
    on_executed-Kept response calls t (err i, q, d) a h stop nothing =
        rw nothing (cases.stopped i calls q t a h)

    act-Kept :
        (response : GenerateResponse) (calls : List ToolCall) (parts : List String) (t : State W Q)
        → Asked k buf s t
        → calls_of response.content ≡ calls
        → Kept I P left
            (act k hook names buf called response (Cycle.decide k.is_blank calls parts) t).0
            (act k hook names buf called response (Cycle.decide k.is_blank calls parts) t).1
    unfolding Cycle.decide act on_executed
    act-Kept response [] [] t a e =
        cases.failed (model (invalid_response "Empty response from model")) t a
    act-Kept response [] (p ∷ parts) t a e = elim (Bool-cases called) [
      | inl yes' ↦ rw yes' (cases.answered (join "\n" (p ∷ parts)) t a yes')
      | inr no' ↦ rw no' (rw no' at (cases.retried response t a no' e))
    ]
    act-Kept response (c ∷ calls) parts t a e =
        elim (Bool-cases (any (intercepted hook law) (c ∷ calls))) [
          | inl h ↦
              let x =
                (execute_many_hitl_lem hook law k.completion k.tools (c ∷ calls) t.queue).0 h in
              on_executed-Kept response (c ∷ calls) t
                (execute_many_hitl hook k.completion k.tools (c ∷ calls) t.queue) a h x.0 x.1
          | inr h ↦
              rw ((execute_many_hitl_lem hook law k.completion k.tools (c ∷ calls) t.queue).1 h)
                (cases.round response (c ∷ calls) t a e h)
        ]

    on_response-Kept :
        (r : Result GenerateResponse AgentError) (t : State W Q)
        → Asked k buf s t
        → Kept I P left
            (on_response k hook names buf called (r, t)).0
            (on_response k hook names buf called (r, t)).1
    unfolding on_response action_from_response
    on_response-Kept (err e) t a = cases.failed e t a
    on_response-Kept (ok response) t a =
        act-Kept response (calls_of response.content) (Cycle.text_parts k.is_blank response.content)
          t a refl

    pub turn-Kept :
        Kept I P left
          (hitl_turn k hook names (buf, called) s).0
          (hitl_turn k hook names (buf, called) s).1
    unfolding hitl_turn
    turn-Kept =
        let x : Result GenerateResponse AgentError × State W Q =
          check_output_guardrail k (invoke_with_active_tools k buf names s) in
        on_response-Kept x.0 x.1 (answer-Asked k buf names s)
