-- ===== src/Examples/Tables.antt =====
-- The theorems on the store of sessions at concrete inputs: Ann's session with one turn.
use agentverse.Base.{
  ℕ, ◌-◌, ◌≡◌, refl, none, some, List, [], ◌∷◌, ◌++◌, ok, string_eq, nat_eq, ◌==◌, ◌&&◌,
  if◌then◌else◌,
}
use agentverse.Core.Message.{text, Message, user, assistant, text_message}
use agentverse.Memory.Session.Sql.{Db, Engine, ◌>>=◌, return, execute, find_session}
use agentverse.Memory.Session.Store.{Codec, create, append_turn, load_messages}
use agentverse.Memory.Session.Maintenance.{
  cleanup_expired_messages, load_messages_above_watermark, delete_ended_sessions_before,
}
use agentverse.Memory.Session.Contract.{Op, view, creates, takes_turn, advances, cleans_up, deletes}
use agentverse.Memory.Session.Laws.{
  empty_db, run, run-IsKeyed, promised_run, run-promised, load_messages-append_turn,
}
use agentverse.Memory.Session.Retention.{load_above-cleanup}
use agentverse.Memory.Session.Atomic.{IsUnchanged, append_turn-IsAtomic}
use agentverse.Memory.Working as Working
use agentverse.Memory.Working.{Key, key_eq, load, new}
use agentverse.Agent.Workers.{CleanupConfig, tick}
use agentverse.Agent.Workers.Laws.{tick-spares}
use agentverse.Agent.Sessions.{Layers, delete_all_user_data}
use agentverse.Agent.Sessions.Laws.{has_session, delete_all_user_data-forgets}

abbrev sound : Engine
sound = record {
  fault = λ n. none;
  constraint_failed = "constraint failed";
  row_not_found = "no rows";
}

-- a database that fails at the end of the first transaction behind `created`
abbrev failing : Engine
failing = record sound { fault = λ n. if n == 6 then some "disk full" else none }

abbrev codec : Codec
codec = record {
  to_json = λ blocks. elim blocks [ [] ↦ "" | b ∷ bs ↦ elim b [ text t ↦ t | _ ↦ "" ] ];
  from_json = λ t. some (text t ∷ []);
}

abbrev question : Message
question = text_message user "what is new?"

abbrev answer : Message
answer = text_message assistant "nothing"

abbrev day : List (ℕ × Op)
day =
    (10, creates 1 "ann")
    ∷ (11, creates 2 "bob")
    ∷ (12, takes_turn 1 question answer)
    ∷ (13, advances 1 1)
    ∷ (20, takes_turn 1 question answer)
    ∷ (30, cleans_up 1 15 9)
    ∷ (31, deletes 2)
    ∷ []

abbrev created : Db
created = (create sound 1 "ann" 10 empty_db).1

abbrev db : Db
db = run sound codec day empty_db

run-promised_example : view 1 (run sound codec day empty_db) ≡ promised_run codec 1 day none
run-promised_example = run-promised sound codec 1 (λ n. refl) day

load_messages-append_turn_example :
    (load_messages sound codec 1 (append_turn sound codec 1 question answer 12 created).1).0
    ≡ ok (([] ++ question ∷ []) ++ answer ∷ [])
unfolding create execute load_messages find_session ◌>>=◌ return nat_eq
load_messages-append_turn_example =
    load_messages-append_turn sound codec 1 question answer 12 _ created [] (λ n. refl) refl refl
      refl refl

append_turn-IsAtomic_example :
    IsUnchanged created (append_turn failing codec 1 question answer 12 created)
unfolding create execute append_turn find_session ◌>>=◌ return nat_eq
append_turn-IsAtomic_example = append_turn-IsAtomic failing codec 1 question answer 12 created refl

load_above-cleanup_example :
    (load_messages_above_watermark sound codec 1 (cleanup_expired_messages sound 1 100 9 db).1).0
    ≡ (load_messages_above_watermark sound codec 1 db).0
load_above-cleanup_example = load_above-cleanup sound codec 1 100 9 1 db (λ n. refl)

abbrev ann : Key
ann = record { user_id = "ann"; session_id = 1 }

abbrev layers : Layers
layers = record { layer_1 = Working.append_turn ann 5 question answer (new 60); layer_2 = db }

delete_all_user_data-forgets_example :
    ((delete_all_user_data sound codec "ann" layers).0 ≡ ok tt)
    × (view 1 (delete_all_user_data sound codec "ann" layers).1.layer_2
        ≡ (if has_session "ann" 1 db then none else view 1 db))
    × (load ann 6 (delete_all_user_data sound codec "ann" layers).1.layer_1 ≡ (
        if (ann.user_id == "ann") && has_session "ann" 1 db
        then none
        else load ann 6 layers.layer_1))
delete_all_user_data-forgets_example =
    delete_all_user_data-forgets sound codec (λ n. refl) "ann" layers 1 ann 6
      (run-IsKeyed sound codec (λ n. refl) day empty_db (tt, λ k e. refl))

abbrev cleanup : CleanupConfig
cleanup = record { message_retention = 15; session_retention = 100 }

tick-spares_example :
    (load_messages_above_watermark sound codec 1 (tick sound cleanup 40 41 42 db).1).0
    ≡ (load_messages_above_watermark sound codec 1
        (delete_ended_sessions_before sound (40 - cleanup.session_retention) db).1).0
tick-spares_example = tick-spares sound codec (λ n. refl) 1 cleanup 40 41 42 db
