-- ===== src/Memory/Session/Laws.antt =====
-- The store of sessions over its whole life, and what its clients rely on.
use agentverse.Base.{
  ℕ, suc, ◌+◌, string_eq, nat_eq, ◌≡◌, refl, ap, sym, ◌∙◌, inl, inr, Option, none, some, List, [],
  ◌∷◌, ◌++◌, Result, ok, Result-cases, arith,
}
use agentverse.Core.Message.{MessageRole, user, assistant, system, tool, Message}
use agentverse.Memory.Session.Types.{SessionMemoryError}
use agentverse.Memory.Session.Sql.{
  SessionRow, MessageRow, Db, Engine, ◌>>=◌, and_run, execute, find_session, rows_of, by_sequence,
  max_sequence,
}
use agentverse.Memory.Session.Store.{
  Codec, role_to_str, str_to_role, decode_content, message_row, message_of_row, collect, lift,
  append_turn, load_messages,
}
use agentverse.Memory.Session.Tables.{by_sequence-last, rows_of-append, max_sequence-append}
use agentverse.Memory.Session.Runs.{Works, append_turn-found}
use agentverse.Memory.Session.Contract.{View, view, Op, step, promised}
use agentverse.Memory.Session.Keyed.{IsKeyed, step-IsKeyed}
use agentverse.Memory.Session.Refinement.{step-promised}

abbrev pub empty_db : Db
empty_db = record { sessions = []; messages = []; executed = 0 }

module _ (engine : Engine) (codec : Codec) where
  -- a sequence of operations, each at its time
  unfoldable pub run : List (ℕ × Op) → Db → Db
  run [] db = db
  run ((now, op) ∷ ops) db = run ops (step engine codec now op db)

unfoldable pub promised_run : Codec → ℕ → List (ℕ × Op) → Option View → Option View
promised_run codec j [] v = v
promised_run codec j ((now, op) ∷ ops) v = promised_run codec j ops (promised codec now j op v)

pub run-IsKeyed :
    (engine : Engine) (codec : Codec)
    → Works engine
    → (ops : List (ℕ × Op)) (db : Db) → IsKeyed db
    → IsKeyed (run engine codec ops db)
unfolding run
run-IsKeyed engine codec works [] db keyed = keyed
run-IsKeyed engine codec works ((now, op) ∷ ops) db keyed =
    run-IsKeyed engine codec works ops _ (step-IsKeyed engine works codec now db keyed op)

run-keyed :
    (engine : Engine) (codec : Codec) (j : ℕ)
    → Works engine
    → (ops : List (ℕ × Op)) (db : Db) → IsKeyed db
    → view j (run engine codec ops db) ≡ promised_run codec j ops (view j db)
unfolding run promised_run
run-keyed engine codec j works [] db keyed = refl
run-keyed engine codec j works ((now, op) ∷ ops) db keyed =
    run-keyed engine codec j works ops _ (step-IsKeyed engine works codec now db keyed op)
    ∙ ap (promised_run codec j ops) (step-promised engine works codec now j db op keyed)

-- From empty tables, and as long as the database answers every statement, every sequence of
-- operations leaves under each identifier the session that the contract of the trait promises, made
-- of the operations on that session alone.
pub run-promised :
    (engine : Engine) (codec : Codec) (j : ℕ)
    → Works engine
    → (ops : List (ℕ × Op)) → view j (run engine codec ops empty_db) ≡ promised_run codec j ops none
unfolding find_session
run-promised engine codec j works ops =
    run-keyed engine codec j works ops empty_db (tt, λ k e. refl)

role_known : (r : MessageRole) → str_to_role (role_to_str r) ≡ ok r
unfolding str_to_role role_to_str string_eq
role_known user = refl
role_known assistant = refl
role_known system = refl
role_known tool = refl

message_of_row-message_row :
    (codec : Codec) (id n now : ℕ) (m : Message)
    → codec.from_json (codec.to_json m.content) ≡ some m.content
    → message_of_row codec (message_row codec id m n now) ≡ ok m
unfolding message_of_row message_row decode_content
message_of_row-message_row codec id n now m e = rw (role_known m.role, decode_content, e) refl

module _ {A B : Type 0} (f : A → Result B SessionMemoryError) where
  collect-append :
      (xs : List A) (y : A) (bs : List B) (b : B)
      → collect f xs ≡ ok bs
      → f y ≡ ok b
      → collect f (xs ++ y ∷ []) ≡ ok (bs ++ b ∷ [])
  unfolding collect
  collect-append [] y bs b e ey = ground (arith, ey)
  collect-append (x ∷ xs) y bs b e ey = elim (Result-cases (collect f xs)) [
    | inl (rest, er) ↦ ground (arith, collect-append xs y rest b er ey, er)
    | inr (z, er) ↦ ground (arith, er)
  ]

-- what is read of the messages of a session
history : Codec → ℕ → Db → Result (List Message) SessionMemoryError
unfolding collect
history codec id db = collect (message_of_row codec) (by_sequence (rows_of id db.messages))

load-history :
    (engine : Engine) (codec : Codec) (id : ℕ) (db : Db)
    → Works engine
    → load_messages engine codec id db
      ≡ (history codec id db, record db { executed = suc db.executed })
unfolding history load_messages execute ◌>>=◌ and_run lift
load-history engine codec id db works = rw (works db.executed) refl

module _ (codec : Codec) (id now : ℕ) (u a : Message) (ms : List MessageRow) where
  abbrev number : ℕ
  number = max_sequence (rows_of id ms) + 1

  abbrev first : MessageRow
  first = message_row codec id u number now

  abbrev second : MessageRow
  second = message_row codec id a (number + 1) now

  turn-rows :
      by_sequence (rows_of id ((ms ++ first ∷ []) ++ second ∷ []))
      ≡ (by_sequence (rows_of id ms) ++ first ∷ []) ++ second ∷ []
  unfolding message_row
  turn-rows = ground (
    arith,
    rows_of-append id ms first,
    rows_of-append id (ms ++ first ∷ []) second,
    by_sequence-last (rows_of id ms) first,
    by_sequence-last (rows_of id ms ++ first ∷ []) second,
    max_sequence-append (rows_of id ms) first,
  )

-- A turn of messages that can be encoded is what is read back behind the messages of its session, on
-- a database that answers every statement. The session exists and its messages can be read.
pub load_messages-append_turn :
    (engine : Engine) (codec : Codec) (id : ℕ) (u a : Message) (now : ℕ) (s : SessionRow) (db : Db)
    (old : List Message)
    → Works engine
    → codec.from_json (codec.to_json u.content) ≡ some u.content
    → codec.from_json (codec.to_json a.content) ≡ some a.content
    → find_session id db.sessions ≡ some s
    → (load_messages engine codec id db).0 ≡ ok old
    → (load_messages engine codec id (append_turn engine codec id u a now db).1).0
      ≡ ok ((old ++ u ∷ []) ++ a ∷ [])
unfolding history
load_messages-append_turn engine codec id u a now s db old works eu ea found before =
    ap (λ x. x.0) (load-history engine codec id (append_turn engine codec id u a now db).1 works)
    ∙ ap (λ x. history codec id x.1) (append_turn-found engine works codec id u a now s db found)
    ∙ rw (turn-rows codec id now u a db.messages) (
        collect-append (message_of_row codec) _ (second codec id now u a db.messages) _ a
          (collect-append (message_of_row codec) _ (first codec id now u a db.messages) old u
            (sym (ap (λ x. x.0) (load-history engine codec id db works)) ∙ before)
            (message_of_row-message_row codec id _ now u eu))
          (message_of_row-message_row codec id _ now a ea))
