-- ===== src/Lib.antt =====
-- A model of agentverse, a Rust workspace for agents that call language models and tools, and proofs
-- about it. Paths are from the root of the repository.
--
-- How the parts interact. The strategy of avs-react asks a model through the runner of avs-core, which
-- calls a provider through a connection manager; it runs the calls of the answer with the tool registry
-- of avs-tools, behind a hook of avs-hitl that keeps some calls for a person, and goes round until the
-- model answers. Guardrails look at what goes in and comes out, and the working memory of avs-memory
-- keeps the recent turns of a session.
--
-- Base: shared helpers. `Base.Map` is `HashMap` as an association list, `Base.Fallible` is `Result`,
--   `Base.Text` has the functions of `str` that the source calls.
-- Core: the data types of avs-core/src (memory/mod.rs, model.rs, tool.rs, hitl.rs, strategy.rs,
--   error.rs).
-- Provider.Breaker, Provider.Connection, Provider.Connection.Generate: avs-core/src/model/
--   connection_manager.rs. A breaker that several managers share is an address in `World`, which also
--   holds the clock, the number of requests sent and a log of effects. `attempts` recurses on the
--   rounds that are left, `max_retries + 1` at first, so that no fuel is chosen. What the network
--   answers to the n-th request is a parameter.
-- Provider.Registry, Provider.Runner: avs-core/src/model/registry.rs and avs-core/src/llm_runner.rs.
-- Skill.Types: avs-skill/src/types.rs.
-- Hitl.Types, Hitl.Policy, Hitl.Queue, Hitl.Context: avs-hitl/src (types.rs, policy.rs, memory.rs,
--   context.rs). An operation of the queue holds its lock throughout, so a use of the queue by many
--   tasks is a list of operations. New identifiers are arguments.
-- Tools.Index, Tools.Registry, Tools.Execute: avs-tools/src (search.rs, registry.rs). A tool is a
--   function of its arguments that returns or panics. Tasks run at once and end in an order that a
--   parameter gives; what is known of it is that no task is lost or invented.
-- React.Cycle, React.Strategy, React.Hitl: avs-react/src (cycle.rs, react.rs). A turn of the loop is
--   a function on the messages and a `State`, which logs the requests to the model and the calls that
--   were run; the loop recurses on the iterations that are left, `max_iterations` at first.
-- Guardrails.Patterns, Guardrails.RateLimiter, Guardrails.ActionGuard: avs-guardrails/src
--   (prompt_guard.rs, output_guard.rs, rate_limiter.rs, action_guard.rs), with the regular expression
--   matcher as a parameter.
-- Memory.Working: avs-memory/src/working.rs.
-- Memory.Session: avs-memory/src/session (types.rs, store.rs, sqlite.rs, sqlite_maintenance.rs) and
--   avs-session/src/manager.rs. `Memory.Session.Sql` has the rows of the two tables of
--   avs-memory/migrations and what each kind of statement does to them; an operation of the store is a
--   sequence of statements, any of which may fail as the parameter `Engine` says, and a transaction
--   that fails is rolled back. `Memory.Session.Contract` is one session as the trait documents it, on
--   its own: its messages in order and its columns.
-- Tools.Schema: avs-tools/src/strict_schema.rs, by recursion on the schema.
-- Agent.Types, Agent.Calls, Agent.Resume: avs-agent/src/agent (mod.rs, resume.rs), with `assert_owner`
--   of avs-session/src/manager.rs. The session store, the strategy, the skill registry and the JSON
--   encodings are parameters over one state; an encoder does not fail.
-- Agent.Invoke, Agent.Phases: avs-agent/src/agent (invoke.rs, routing.rs), over the same parameters and
--   the working memory.
-- Agent.Sessions: avs-agent/src/agent/sessions.rs, over the SQL store and the working memory.
-- Agent.Workers: the workers of avs-agent/src/workers.rs for cleanup and consolidation, over the SQL
--   store.
-- Planning: avs-plan/src (planner.rs, plan.rs, hierarchical.rs). A tool that panics ends the run, which
--   is then `none`.
-- Subagent: avs-subagent/src (executor.rs, spec.rs, context.rs, result.rs). The loop recurses on the
--   steps that are left, `max_steps` at first.
-- Examples: concrete inputs at which the theorems are applied.
--
-- Numbers are natural numbers. The count of failures of a breaker wraps at 2 ^ 64 and milliseconds
-- saturate there, and the tokens that a sub-agent counts wrap at 2 ^ 32, as in the source; clocks,
-- columns of the tables and counters of the logs are not bounded. `HashMap` order
-- is left open by the source and no theorem depends on it. Logging, metrics but for the gauge of the
-- queue and the effects of a call, JSON encodings, HTTP, files, the scores of searches and skills, which
-- are floating point, the PostgreSQL store and the routes of the service are not modelled.
pub mod Core
pub mod Provider
pub mod Skill
pub mod Hitl
pub mod Tools
pub mod Base
pub mod React
pub mod Guardrails
pub mod Memory
pub mod Examples
pub mod Agent
pub mod Planning
pub mod Subagent
