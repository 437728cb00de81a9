-- ===== src/Agent/Invoke/Turn/Laws.antt =====
-- How a turn ends.
use agentverse.Base.{
  ℕ, String, ◌<>◌, string_eq, ◌≡◌, refl, ap, ◌∙◌, inl, inr, Option, none, some, List, [], Result,
  ok, err, Result-cases, Option-cases, arith,
}
use agentverse.Core.Error as Core
use agentverse.Core.Message.{Message, user, assistant, text_message}
use agentverse.Core.Strategy.{StrategyOutcome, done, interrupted}
use agentverse.Memory.Session.Types.{SessionMemoryError}
use agentverse.Memory.Working as Working
use agentverse.Memory.Working.{CacheMemory}
use agentverse.Skill.Types.{SkillContext}
use agentverse.Agent.Types.{AgentError}
use agentverse.Agent.Resume.{assert_owner}
use agentverse.Agent.Invoke.{
  assemble_messages_with_context, long_term_text, assemble_system, Skills, Strategy, Invoker, World,
  Answer, strategy_for_invoke, active_tool_names,
}
use agentverse.Agent.Invoke.Turn.{
  run_it, spawn_write, in_store, lifted, key_of, keep, kept, update_cache_memory, on_run,
  with_strategy, ask, bind_skill, route_skill, unbound, evicted, with_skill, resolve_skill,
  get_cache_memory, rehydrate, with_history, with_phase, invoke,
}
use agentverse.Agent.Invoke.Turn.Settling.{Opening, opening_with, opening, opening_of, Ran, Settled}

module _ {S : Type 0} (v : Invoker S) (now : ℕ) (user_id : String) (session_id : ℕ)
    (o : Opening) where
  in_store-Settled :
      (w : World S) (r : Result (Unit {0}) SessionMemoryError × S) (next : World S → Answer S)
      → w.cache ≡ o.cache
      → ((u : World S) → u.cache ≡ o.cache → Settled v now user_id session_id o (next u))
      → Settled v now user_id session_id o (in_store w r next)
  unfolding in_store
  in_store-Settled w (ok u, s) next same h = h (record w { store = s }) same
  in_store-Settled w (err e, s) next same h = inl refl

  spawn-store :
      (question answer : String) (w : World S)
      → ((spawn_write v now user_id session_id question answer w).store ≡ w.store)
        × ((spawn_write v now user_id session_id question answer w).cache ≡ w.cache)
  unfolding spawn_write
  spawn-store question answer w = elim (Option-cases v.retrieve) [
    | inl e ↦ ground (arith, e)
    | inr (f, e) ↦ ground (arith, e)
  ]

  keep-Settled :
      (answer : String) (w : World S)
      → w.cache ≡ o.cache
      → Ran v now user_id session_id o (done answer) w.store
      → Settled v now user_id session_id o (keep v now user_id session_id o.question answer w)
  unfolding keep in_store kept update_cache_memory
  keep-Settled answer w same ran =
      stored_turn
        (v.append_turn session_id (text_message user o.question) (text_message assistant answer)
          w.store)
        refl
    where
      stored_turn :
          (r : Result (Unit {0}) SessionMemoryError × S)
          → v.append_turn session_id
              (text_message user o.question)
              (text_message assistant answer)
              w.store
            ≡ r
          → Settled v now user_id session_id o
              (in_store w r (kept v now user_id session_id o.question answer))
      stored_turn (ok u, s) e = inr (
          inr (record {
            answer = answer;
            run_store = w.store;
            ran = ran;
            returned = refl;
            stored =
                rw
                  ((spawn-store o.question answer (
                    update_cache_memory v now user_id session_id o.question answer
                      (record w { store = s }))).0)
                  e;
            cached =
                (spawn-store o.question answer (
                  update_cache_memory v now user_id session_id o.question answer
                    (record w { store = s }))).1
                ∙ ap
                    (Working.append_turn (key_of user_id session_id) now
                      (text_message user o.question) (text_message assistant answer))
                    same;
          }))
      stored_turn (err x, s) e = inl refl

  on_run-Settled :
      (ctx : Option SkillContext) (sys : Option String) (strategy : Strategy S) (w : World S)
      (r : Result StrategyOutcome Core.AgentError × S)
      → w.cache ≡ o.cache
      → run_it v now user_id session_id ctx
          (assemble_messages_with_context sys
            (long_term_text v user_id o.question)
            o.history
            o.question)
          (active_tool_names v ctx)
          strategy
          w.store
        ≡ r
      → Settled v now user_id session_id o (on_run v now user_id session_id ctx o.question w r)
  unfolding on_run lifted
  on_run-Settled ctx sys strategy w (ok (done answer), s) same e =
      keep-Settled answer (record w { store = s }) same
        (record { skill_ctx = ctx; sys = sys; strategy = strategy; before = w.store; came_to = e })
  on_run-Settled ctx sys strategy w (ok (interrupted i), s) same e = inr (
      inl (record {
        interrupt = i;
        run_store = s;
        ran = record {
          skill_ctx = ctx;
          sys = sys;
          strategy = strategy;
          before = w.store;
          came_to = e;
        };
        outcome = refl;
        same_cache = same;
      }))
  on_run-Settled ctx sys strategy w (err x, s) same e = inl refl

  with_strategy-Settled :
      (ctx : Option SkillContext) (summaries : Option String) (w : World S)
      (r : Result (Strategy S) AgentError)
      → w.cache ≡ o.cache
      → Settled v now user_id session_id o
          (with_strategy v now user_id session_id ctx summaries o.history o.question w r)
  unfolding with_strategy
  with_strategy-Settled ctx summaries w (err e) same = inl refl
  with_strategy-Settled ctx summaries w (ok strategy) same =
      on_run-Settled ctx (assemble_system v.base_prompt ctx summaries) strategy w _ same refl

  ask-Settled :
      (ctx : Option SkillContext) (summaries : Option String) (w : World S)
      → w.cache ≡ o.cache
      → Settled v now user_id session_id o
          (ask v now user_id session_id ctx summaries o.history o.question w)
  unfolding ask
  ask-Settled ctx summaries w =
      with_strategy-Settled ctx summaries w
        (strategy_for_invoke v o.question (active_tool_names v ctx))

  bind_skill-Settled :
      (w : World S) (r : Result SkillContext AgentError)
      → w.cache ≡ o.cache
      → Settled v now user_id session_id o
          (bind_skill v now user_id session_id o.history o.question w r)
  unfolding bind_skill
  bind_skill-Settled w (err e) same = inl refl
  bind_skill-Settled w (ok ctx) same =
      in_store-Settled w (v.set_skill_context session_id (some (v.to_context_json ctx)) w.store)
        (ask v now user_id session_id (some ctx) none o.history o.question) same
        (ask-Settled (some ctx) none)

  route_skill-Settled :
      (skills : Skills) (w : World S) (routed : Option String)
      → w.cache ≡ o.cache
      → Settled v now user_id session_id o
          (route_skill v now user_id session_id skills o.history o.question w routed)
  unfolding route_skill
  route_skill-Settled skills w none same = ask-Settled none _ w same
  route_skill-Settled skills w (some id) same = bind_skill-Settled w (skills.compile id) same

  unbound-Settled :
      (input : String) (w : World S) (k : Option Skills)
      → w.cache ≡ o.cache
      → Settled v now user_id session_id o
          (unbound v now user_id session_id input o.history o.question w k)
  unfolding unbound
  unbound-Settled input w none same = ask-Settled none none w same
  unbound-Settled input w (some skills) same =
      route_skill-Settled skills w (skills.route input) same

  with_skill-Settled :
      (input : String) (w : World S) (r : Result (Option String) SessionMemoryError)
      → w.cache ≡ o.cache
      → Settled v now user_id session_id o
          (with_skill v now user_id session_id input o.history o.question w r)
  unfolding with_skill
  with_skill-Settled input w (err e) same = inl refl
  with_skill-Settled input w (ok (some j)) same = elim (Option-cases (v.agent.of_skill_json j)) [
    | inl e ↦ rw (e, with_skill) (inl refl)
    | inr (ctx, e) ↦ rw (e, with_skill) (ask-Settled (some ctx) none w same)
  ]
  with_skill-Settled input w (ok none) same = unbound-Settled input w v.skills same

  resolve_skill-Settled :
      (input : String) (w : World S)
      → w.cache ≡ o.cache
      → Settled v now user_id session_id o
          (resolve_skill v now user_id session_id input o.history o.question w)
  unfolding resolve_skill
  resolve_skill-Settled input w =
      with_skill-Settled input w (v.get_skill_context session_id w.store)

module _ {S : Type 0} (v : Invoker S) (now : ℕ) (user_id : String) (session_id : ℕ) where
  with_history-Settled :
      (input : String) (w : World S) (loaded : Option (List Message))
      (r : Result (List Message) SessionMemoryError)
      → Settled v now user_id session_id (opening_with v now user_id session_id input w loaded r) (
          with_history v now user_id session_id input (elim loaded [
            | some messages ↦ (ok messages, w)
            | none ↦ rehydrate v now user_id session_id r w
          ]))
  unfolding with_history opening_with rehydrate
  with_history-Settled input w (some ms) r =
      resolve_skill-Settled v now user_id session_id _ input w refl
  with_history-Settled input w none (ok ms) =
      resolve_skill-Settled v now user_id session_id
        (opening_with v now user_id session_id input w none (ok ms)) input
        (record w { cache = Working.store (key_of user_id session_id) now ms w.cache }) refl
  with_history-Settled input w none (err e) = inl refl

  with_phase-Settled :
      (input : String) (w : World S) (r : Result (Option String) SessionMemoryError)
      → Settled v now user_id session_id
          (opening v now user_id session_id input w r)
          (with_phase v now user_id session_id input w r)
  unfolding with_phase opening get_cache_memory evicted
  with_phase-Settled input w (err e) = inl refl
  with_phase-Settled input w (ok none) =
      with_history-Settled input w (Working.load (key_of user_id session_id) now w.cache)
        (v.load_messages session_id w.store)
  with_phase-Settled input w (ok (some ctx)) =
      in_store-Settled v now user_id session_id
        (opening v now user_id session_id input w (ok (some ctx)))
        (evicted v now user_id session_id w) (v.set_phase_opening_context session_id none w.store)
        (resolve_skill v now user_id session_id input [] (ctx <> ("\n\n" <> input))) refl
        (resolve_skill-Settled v now user_id session_id
          (opening v now user_id session_id input w (ok (some ctx))) input)

  pub invoke-Settled :
      (input : String) (w : World S)
      → Settled v now user_id session_id
          (opening_of v now user_id session_id input w)
          (invoke v now user_id session_id input w)
  unfolding invoke opening_of
  invoke-Settled input w = elim (Result-cases (assert_owner v.agent user_id session_id w.store)) [
    | inl (u, e) ↦ rw (e, invoke) (with_phase-Settled input w _)
    | inr (x, e) ↦ rw (e, invoke) (inl refl)
  ]
