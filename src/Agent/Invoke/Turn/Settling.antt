-- ===== src/Agent/Invoke/Turn/Settling.antt =====
-- What a turn starts from, and what its outcome is to be.
use agentverse.Base.{
  ℕ, String, false, ◌<>◌, string_eq, ◌≡◌, ◌⊎◌, Option, none, some, List, [], Result, ok, err, is_ok,
}
use agentverse.Core.Message.{Message, user, assistant, text_message}
use agentverse.Core.Strategy.{HitlInterrupt, StrategyOutcome, done, interrupted}
use agentverse.Memory.Session.Types.{SessionMemoryError}
use agentverse.Memory.Working as Working
use agentverse.Memory.Working.{CacheMemory}
use agentverse.Skill.Types.{SkillContext}
use agentverse.Agent.Types.{finished}
use agentverse.Agent.Calls.{handle_tool_interrupt}
use agentverse.Agent.Invoke.{
  assemble_messages_with_context, long_term_text, Strategy, Invoker, World, Answer,
  active_tool_names,
}
use agentverse.Agent.Invoke.Turn.{phase_context, run_it, key_of}

-- what a turn starts from: what the model is asked, behind which history, and the working memory
pub record Opening : Type 0 where
  pub question : String
  pub history : List Message
  pub cache : CacheMemory

module _ {S : Type 0} (v : Invoker S) (now : ℕ) (user_id : String) (session_id : ℕ) where
  -- the history of a session is what the working memory loads, else what the store holds, which the
  -- working memory then keeps
  unfoldable pub opening_with :
      String → World S → Option (List Message) → Result (List Message) SessionMemoryError → Opening
  opening_with input w (some history) r = record {
    question = input;
    history = history;
    cache = w.cache;
  }
  opening_with input w none (ok history) = record {
    question = input;
    history = history;
    cache = Working.store (key_of user_id session_id) now history w.cache;
  }
  opening_with input w none (err e) = record { question = input; history = []; cache = w.cache }

  -- A phase that has just opened starts from its context and no history, any other turn from the
  -- history of its session.
  unfoldable pub opening : String → World S → Result (Option String) SessionMemoryError → Opening
  unfolding opening_with
  opening input w (ok (some ctx)) = record {
    question = ctx <> ("\n\n" <> input);
    history = [];
    cache = Working.evict (key_of user_id session_id) w.cache;
  }
  opening input w _ =
      opening_with input w (Working.load (key_of user_id session_id) now w.cache)
        (v.load_messages session_id w.store)

  unfoldable pub opening_of : String → World S → Opening
  unfolding opening phase_context
  opening_of input w = opening input w (phase_context v now user_id session_id w.store)

module _ {S : Type 0} (v : Invoker S) (now : ℕ) (user_id : String) (session_id : ℕ)
    (o : Opening) where
  -- A strategy was run on the history and the question, and came to an outcome and a store.
  pub record Ran (outcome : StrategyOutcome) (store : S) : Type 0 where
    pub skill_ctx : Option SkillContext
    pub sys : Option String
    pub strategy : Strategy S
    pub before : S
    pub came_to :
        run_it v now user_id session_id skill_ctx
          (assemble_messages_with_context sys
            (long_term_text v user_id o.question)
            o.history
            o.question)
          (active_tool_names v skill_ctx)
          strategy
          before
        ≡ (ok outcome, store)

  -- The answer of the run is returned, and its turn is in the store and in the working memory.
  pub record Recorded (x : Answer S) : Type 0 where
    pub answer : String
    pub run_store : S
    pub ran : Ran (done answer) run_store
    pub returned : x.0 ≡ ok (finished answer)
    pub stored :
        v.append_turn session_id
          (text_message user o.question)
          (text_message assistant answer)
          run_store
        ≡ (ok tt, x.1.store)
    pub cached :
        x.1.cache
        ≡ Working.append_turn
            (key_of user_id session_id)
            now
            (text_message user o.question)
            (text_message assistant answer)
            o.cache

  -- The run was suspended, and the session was left to an approval.
  pub record Suspended (x : Answer S) : Type 0 where
    pub interrupt : HitlInterrupt
    pub run_store : S
    pub ran : Ran (interrupted interrupt) run_store
    pub outcome :
        (x.0, x.1.store)
        ≡ handle_tool_interrupt v.agent session_id interrupt ran.skill_ctx run_store
    pub same_cache : x.1.cache ≡ o.cache

  abbrev pub Settled : Answer S → Type 0
  Settled x = (is_ok x.0 ≡ false) ⊎ Suspended x ⊎ Recorded x
