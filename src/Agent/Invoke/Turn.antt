-- ===== src/Agent/Invoke/Turn.antt =====
-- `Agent::invoke` of avs-agent/src/agent/invoke.rs, one helper for each call that may fail.
pub mod Settling
pub mod Laws
use agentverse.Base.{
  ℕ, String, Bool, ◌<>◌, ◌==◌, string_eq, nat_eq, if◌then◌else◌, Option, none, some, List, [], ◌∷◌,
  ◌++◌, Result, ok, err,
}
use agentverse.Core.Error as Core
use agentverse.Core.Message.{Message, user, assistant, text_message}
use agentverse.Core.Strategy.{HitlInterrupt, StrategyOutcome, done, interrupted}
use agentverse.Hitl.Context
use agentverse.Memory.Session.Types.{SessionMemoryError}
use agentverse.Memory.Working as Working
use agentverse.Memory.Working.{CacheMemory, Key, key_eq}
use agentverse.Skill.Types.{SkillContext}
use agentverse.Agent.Types.{
  AgentOutput, finished, AgentError, session, llm, json, Outcome, Agent, and_then,
}
use agentverse.Agent.Calls.{handle_tool_interrupt}
use agentverse.Agent.Resume.{assert_owner}
use agentverse.Agent.Invoke.{
  Skills, Strategy, Invoker, World, Answer, assemble_system, assemble_messages,
  assemble_messages_with_context, active_tool_names, strategy_for_invoke, long_term_text,
}

-- the store behind a call, and `?` on its result
unfoldable pub in_store :
    {S : Type 0}
    → World S
    → Result (Unit {0}) SessionMemoryError × S
    → (World S → Answer S)
    → Answer S
in_store w (ok u, s) next = next (record w { store = s })
in_store w (err e, s) next = (err (session e), record w { store = s })

unfoldable pub lifted : {S : Type 0} → World S → Outcome S → Answer S
lifted w (r, s) = (r, record w { store = s })

abbrev pub key_of : String → ℕ → Key
key_of user_id session_id = record { user_id = user_id; session_id = session_id }

module _ {S : Type 0} (v : Invoker S) (now : ℕ) (user_id : String) (session_id : ℕ) where
  unfoldable pub spawn_write : String → String → World S → World S
  spawn_write question answer w = elim v.retrieve [
    | none ↦ w
    | some retrieve ↦ record w {
      spawned = (user_id, "User: " <> (question <> ("\nAssistant: " <> answer))) ∷ w.spawned;
    }
  ]

  unfoldable pub update_cache_memory : String → String → World S → World S
  unfolding Working.append_turn
  update_cache_memory question answer w = record w {
    cache =
        Working.append_turn (key_of user_id session_id) now (text_message user question)
          (text_message assistant answer) w.cache;
  }

  unfoldable pub kept : String → String → World S → Answer S
  unfolding spawn_write update_cache_memory
  kept question answer w =
      (ok (finished answer), spawn_write question answer (update_cache_memory question answer w))

  -- the turn goes to the store, then to the working memory
  unfoldable pub keep : String → String → World S → Answer S
  unfolding in_store kept
  keep question answer w =
      in_store w
        (v.append_turn session_id (text_message user question) (text_message assistant answer)
          w.store)
        (kept question answer)

  unfoldable pub on_run :
      Option SkillContext → String → World S → Result StrategyOutcome Core.AgentError × S → Answer S
  unfolding keep lifted handle_tool_interrupt
  on_run skill_ctx question w (ok (done answer), s) = keep question answer (record w { store = s })
  on_run skill_ctx question w (ok (interrupted i), s) =
      lifted w (handle_tool_interrupt v.agent session_id i skill_ctx s)
  on_run skill_ctx question w (err e, s) = (err (llm e), record w { store = s })

  unfoldable pub run_it :
      Option SkillContext
      → List Message
      → List String
      → Strategy S
      → S
      → Result StrategyOutcome Core.AgentError × S
  unfolding and_then
  run_it skill_ctx messages names strategy s = elim v.agent.hitl [
    | none ↦ strategy.run_with_active_tools messages names s
    | some policy ↦
        strategy.run_hitl messages names
          (Context.new session_id (and_then skill_ctx (λ c. some c.skill_id)) policy) s
  ]

  unfoldable pub with_strategy :
      Option SkillContext
      → Option String
      → List Message
      → String
      → World S
      → Result (Strategy S) AgentError
      → Answer S
  unfolding on_run run_it assemble_messages_with_context assemble_system long_term_text
      active_tool_names
  with_strategy skill_ctx summaries history question w (err e) = (err e, w)
  with_strategy skill_ctx summaries history question w (ok strategy) = on_run skill_ctx question w (
      run_it skill_ctx
        (assemble_messages_with_context (assemble_system v.base_prompt skill_ctx summaries)
          (long_term_text v user_id question) history question)
        (active_tool_names v skill_ctx) strategy w.store)

  unfoldable pub ask :
      Option SkillContext → Option String → List Message → String → World S → Answer S
  unfolding with_strategy strategy_for_invoke active_tool_names
  ask skill_ctx summaries history question w =
      with_strategy skill_ctx summaries history question w
        (strategy_for_invoke v question (active_tool_names v skill_ctx))

  -- a skill that the router chose is bound to the session
  unfoldable pub bind_skill :
      List Message → String → World S → Result SkillContext AgentError → Answer S
  unfolding ask in_store
  bind_skill history question w (err e) = (err e, w)
  bind_skill history question w (ok ctx) =
      in_store w (v.set_skill_context session_id (some (v.to_context_json ctx)) w.store)
        (ask (some ctx) none history question)

  unfoldable pub route_skill : Skills → List Message → String → World S → Option String → Answer S
  unfolding bind_skill ask
  route_skill skills history question w none =
      ask none (if skills.summaries == "" then none else some skills.summaries) history question w
  route_skill skills history question w (some id) =
      bind_skill history question w (skills.compile id)

  unfoldable pub unbound : String → List Message → String → World S → Option Skills → Answer S
  unfolding ask route_skill
  unbound input history question w none = ask none none history question w
  unbound input history question w (some skills) =
      route_skill skills history question w (skills.route input)

  -- `input` is routed, and `question` is what the model is asked
  unfoldable pub with_skill :
      String
      → List Message
      → String
      → World S
      → Result (Option String) SessionMemoryError
      → Answer S
  unfolding ask unbound
  with_skill input history question w (err e) = (err (session e), w)
  with_skill input history question w (ok (some ctx_json)) = elim (v.agent.of_skill_json ctx_json) [
    | none ↦ (err (json v.bad_context), w)
    | some ctx ↦ ask (some ctx) none history question w
  ]
  with_skill input history question w (ok none) = unbound input history question w v.skills

  unfoldable pub resolve_skill : String → List Message → String → World S → Answer S
  unfolding with_skill
  resolve_skill input history question w =
      with_skill input history question w (v.get_skill_context session_id w.store)

  unfoldable pub rehydrate :
      Result (List Message) SessionMemoryError
      → World S
      → Result (List Message) AgentError × World S
  unfolding Working.store
  rehydrate (err e) w = (err (session e), w)
  rehydrate (ok history) w = (
    ok history,
    record w { cache = Working.store (key_of user_id session_id) now history w.cache },
  )

  unfoldable pub get_cache_memory : World S → Result (List Message) AgentError × World S
  unfolding rehydrate Working.load
  get_cache_memory w = elim (Working.load (key_of user_id session_id) now w.cache) [
    | some messages ↦ (ok messages, w)
    | none ↦ rehydrate (v.load_messages session_id w.store) w
  ]

  unfoldable pub with_history : String → Result (List Message) AgentError × World S → Answer S
  unfolding resolve_skill
  with_history input (err e, w) = (err e, w)
  with_history input (ok history, w) = resolve_skill input history input w

  unfoldable pub evicted : World S → World S
  unfolding Working.evict
  evicted w = record w { cache = Working.evict (key_of user_id session_id) w.cache }

  -- a phase that opens has its context for a history
  unfoldable pub with_phase :
      String → World S → Result (Option String) SessionMemoryError → Answer S
  unfolding with_history get_cache_memory resolve_skill in_store evicted
  with_phase input w (err e) = (err (session e), w)
  with_phase input w (ok none) = with_history input (get_cache_memory w)
  with_phase input w (ok (some ctx)) =
      in_store (evicted w) (v.set_phase_opening_context session_id none w.store)
        (resolve_skill input [] (ctx <> ("\n\n" <> input)))

  phase_context : S → Result (Option String) SessionMemoryError
  phase_context s = elim v.skills [
    | none ↦ ok none
    | some skills ↦ v.get_phase_opening_context session_id s
  ]

  unfoldable pub invoke : String → World S → Answer S
  unfolding with_phase phase_context assert_owner
  invoke input w = elim (assert_owner v.agent user_id session_id w.store) [
    | err e ↦ (err (session e), w)
    | ok u ↦ with_phase input w (phase_context w.store)
  ]

  stateless_outcome :
      World S → Result StrategyOutcome Core.AgentError × S → Result String AgentError × World S
  stateless_outcome w (ok (done t), s) = (ok t, record w { store = s })
  stateless_outcome w (ok (interrupted i), s) = (
    err (
        llm (
          Core.memory
            "HITL interrupt is not supported in invoke_stateless (no session to persist interrupted state into)")),
    record w { store = s },
  )
  stateless_outcome w (err e, s) = (err (llm e), record w { store = s })

  unfoldable pub invoke_stateless : String → World S → Result String AgentError × World S
  unfolding stateless_outcome assemble_messages assemble_system
  invoke_stateless input w = stateless_outcome w (
      v.strategy.run (assemble_messages (assemble_system v.base_prompt none none) [] input) w.store)
