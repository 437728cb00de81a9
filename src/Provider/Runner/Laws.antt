-- ===== src/Provider/Runner/Laws.antt =====
-- The request of the runner, and the runner under the loop.
use agentverse.Base.{◌+◌, true, not, ◌≡◌, refl, List, [], ◌∷◌, all, length, arith}
use agentverse.Core.Message.{Message}
use agentverse.Provider.Runner.{is_system, system_parts, conversation}

-- Every message of a run goes into the request once: one of the system as a part of the system text,
-- any other in the conversation, which holds none of the system.
conversation_lem :
    (messages : List Message)
    → (length (system_parts messages) + length (conversation messages) ≡ length messages)
      × (all (λ m. not (is_system m)) (conversation messages) ≡ true)
unfolding system_parts conversation
conversation_lem [] = (omega arith, refl)
conversation_lem (m ∷ ms) =
    (ground (arith, (conversation_lem ms).0), ground (arith, (conversation_lem ms).1))
