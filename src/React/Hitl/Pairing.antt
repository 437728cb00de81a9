-- ===== src/React/Hitl/Pairing.antt =====
-- The shape of the conversation that the loop builds.
use agentverse.Base.{
  String, string_eq, ◌≡◌, refl, ◌∙◌, sym, ap, inl, inr, List, [], ◌∷◌, ◌++◌, All, All-append,
  Result, ok, err,
}
use agentverse.Core.Json.{Json}
use agentverse.Core.Error.{AgentError, ToolError}
use agentverse.Core.Message.{
  Message, ContentBlock, text, tool_use, tool_result, assistant, tool, user, text_message,
}
use agentverse.Core.Model.{GenerateResponse}
use agentverse.Core.Tool.{ToolCallResult, ToolResult}
use agentverse.Core.Strategy.{StrategyOutcome, done, interrupted}
use agentverse.Tools.Execute.{HitlHook, execute_many}
use agentverse.Tools.Execute.Laws.{Decides}
use agentverse.React.Cycle
use agentverse.React.Cycle.{calls_of, results_to_tool_result_blocks, reconcile_and_order_results}
use agentverse.React.Cycle.Results.{order_of, ids, result_ids, reconcile-ids}
use agentverse.React.Strategy.{Skeleton, State, prepare_buffer, push_round}
use agentverse.React.Strategy.Loop.{Asked}
use agentverse.React.Hitl.{run_hitl, push_retry, retry_text}
use agentverse.React.Hitl.Laws.{run_hitl-Kept}

-- the calls that a message makes, and the calls that it answers, by their identifiers
abbrev pub called_ids : List ContentBlock → List String
called_ids content = ids (order_of (calls_of content))

unfoldable pub answered_ids : List ContentBlock → List String
answered_ids [] = []
answered_ids (text t ∷ content) = answered_ids content
answered_ids (tool_use id name input ∷ content) = answered_ids content
answered_ids (tool_result id t is_error ∷ content) = id ∷ answered_ids content

-- What the loop may append to a conversation: a turn of the assistant with the results of all its
-- calls, in their order, or a turn without calls and what the loop says to it.
pub data Extends (base : List Message) : List Message → Type 0 where
  start : Extends base base
  round :
      {buf : List Message} (content results : List ContentBlock)
      → Extends base buf
      → answered_ids results ≡ called_ids content
      → Extends base (
          buf
          ++ record { role = assistant; content = content }
            ∷ record { role = tool; content = results }
            ∷ [])
  retry :
      {buf : List Message} (content : List ContentBlock) (t : String)
      → Extends base buf
      → calls_of content ≡ []
      → Extends base
          (buf ++ record { role = assistant; content = content } ∷ text_message user t ∷ [])

module _ (show_value : Json → String) (show_error : ToolError → String) where
  answered_ids-block :
      (id : String) (r : ToolResult) (content : List ContentBlock)
      → answered_ids (Cycle.result_block show_value show_error id r ∷ content)
        ≡ id ∷ answered_ids content
  unfolding Cycle.result_block answered_ids
  answered_ids-block id (ok v) content = refl
  answered_ids-block id (err e) content = refl

  answered_ids-results :
      (rs : List ToolCallResult)
      → answered_ids (results_to_tool_result_blocks show_value show_error rs) ≡ result_ids rs
  unfolding results_to_tool_result_blocks answered_ids
  answered_ids-results [] = refl
  answered_ids-results (r ∷ rs) =
      answered_ids-block r.id r.result (results_to_tool_result_blocks show_value show_error rs)
      ∙ ap (λ js. r.id ∷ js) (answered_ids-results rs)

-- what a suspended run hands over extends the conversation that it began with
abbrev pub Resumable : List Message → Result StrategyOutcome AgentError → Type 0
Resumable base (ok (done answer)) = Unit
Resumable base (ok (interrupted i)) = Extends base i.history
Resumable base (err e) = Unit

module _ {W Q : Type 0} (k : Skeleton W) (hook : HitlHook Q) (law : Decides hook)
    (names : List String) (messages : List Message) (s : State W Q) where
  abbrev base : List Message
  base = prepare_buffer k messages

  push_round-Extends :
      (buf : List Message) (response : GenerateResponse) (results : List ToolCallResult)
      → Extends base buf
      → Extends base (push_round k buf response (calls_of response.content) results)
  unfolding push_round
  push_round-Extends buf response results x =
      let ordered : List ToolCallResult =
        reconcile_and_order_results results (order_of (calls_of response.content)) in
      round response.content (results_to_tool_result_blocks k.show_value k.show_error ordered) x (
        answered_ids-results k.show_value k.show_error ordered
        ∙ reconcile-ids results (order_of (calls_of response.content)))

  push_retry-Extends :
      (buf : List Message) (response : GenerateResponse) (required : List String)
      → Extends base buf
      → calls_of response.content ≡ []
      → Extends base (push_retry buf response required)
  unfolding push_retry
  push_retry-Extends buf response required x e = retry response.content (retry_text required) x e

  sent_once :
      (buf : List Message) (t u : State W Q)
      → Extends base buf
      → All (Extends base) t.requests
      → Asked k buf t u
      → All (Extends base) u.requests
  sent_once buf t u x h a = elim a.sent [
    | inl e ↦ rw e h
    | inr e ↦ rw e (All-append (Extends base) t.requests (buf ∷ []) h (x, tt))
  ]

  -- With a hook that decides on a call by the call alone, and where it holds of the requests before,
  -- each request of a run, and the history that a suspended run hands over, is the prepared
  -- conversation with whole rounds and reminders behind it: no call is left without its result, no result is
  -- without its call, and they stand in the same order.
  pub run_hitl-Extends :
      All (Extends base) s.requests
      → All (Extends base) (run_hitl k hook names messages s).1.requests
        × Resumable base (run_hitl k hook names messages s).0
  run_hitl-Extends h =
      run_hitl-Kept k hook law names messages s
        (λ left a t. Extends base a.0 × All (Extends base) t.requests)
        (λ r t. All (Extends base) t.requests × Resumable base r)
        (λ left buf called t h. record {
          failed = λ e u a. (sent_once buf t u h.0 h.1 a, tt);
          round = λ response calls u a e c. (
            rw (sym e) (
                push_round-Extends buf response
                  (execute_many k.completion k.tools (calls_of response.content)) h.0),
            sent_once buf t u h.0 h.1 a,
          );
          stopped = λ i calls q u a c. (sent_once buf t u h.0 h.1 a, h.0);
          retried = λ response u a n e. (
            push_retry-Extends buf response hook.required_tool_names h.0 e,
            sent_once buf t u h.0 h.1 a,
          );
          answered = λ answer u a c. (sent_once buf t u h.0 h.1 a, tt);
        })
        (λ a t h. (h.1, tt)) (start, h)
