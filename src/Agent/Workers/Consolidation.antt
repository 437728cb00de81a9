-- ===== src/Agent/Workers/Consolidation.antt =====
-- avs-agent/src/workers.rs: one tick of the worker that writes the messages of a session to the
-- long-term memory. The memory is a parameter over its own state.
use agentverse.Base.{
  ℕ, ◌+◌, String, Bool, true, false, ◌&&◌, ltb, if◌then◌else◌, ◌≡◌, refl, ◌∙◌, List, [], ◌∷◌,
  length, Result, ok, err, arith,
}
use agentverse.Core.Message.{Message, as_text}
use agentverse.Memory.Session.Types.{Session, SessionMemoryError}
use agentverse.Memory.Session.Sql.{Db, Engine, ◌>>=◌, and_run, return, fail, execute}
use agentverse.Memory.Session.Store.{Codec, update, lift}
use agentverse.Memory.Session.Maintenance.{
  get_watermark, advance_watermark, load_messages_above_watermark,
  list_sessions_needing_maintenance,
}

pub record ConsolidationConfig : Type 0 where
  pub batch_size : ℕ
  pub idle_timeout : ℕ

pub data TickError : Type 0 where
  in_store : SessionMemoryError → TickError
  in_memory : String → TickError

-- the tables and the long-term memory
pub record Stores (L : Type 0) : Type 0 where
  pub db : Db
  pub longterm : L

abbrev Tick : Type 0 → Type 0
Tick L = Result (Unit {0}) TickError × Stores L

unfoldable then_db :
    {A L : Type 0} → Stores L → Result A SessionMemoryError × Db → (A → Stores L → Tick L) → Tick L
then_db w (ok a, t) next = next a (record w { db = t })
then_db w (err e, t) next = (err (in_store e), record w { db = t })

-- whether a session is written now: enough messages have come, or it is idle
abbrev is_due : ConsolidationConfig → ℕ → Session → List (ℕ × Message) → Bool
is_due config now s msgs =
    if ltb (length msgs) config.batch_size && ltb now (s.updated_at + config.idle_timeout)
    then false
    else true

module _ {L : Type 0} (engine : Engine) (codec : Codec)
    (write : String → String → L → Result (Unit {0}) String × L) where
  -- the watermark moves behind each message that was written
  after_write : ℕ → ℕ → (Stores L → Tick L) → Stores L → Result (Unit {0}) String × L → Tick L
  unfolding then_db advance_watermark
  after_write id sequence next w (ok u, l) =
      then_db (record w { longterm = l }) (advance_watermark engine id sequence w.db)
        (λ _ t. next t)
  after_write id sequence next w (err e, l) = (err (in_memory e), record w { longterm = l })

  write_each : Session → List (ℕ × Message) → Stores L → Tick L
  unfolding after_write
  write_each s [] w = (ok tt, w)
  write_each s ((sequence, m) ∷ rest) w =
      after_write s.id sequence (write_each s rest) w (write s.user_id (as_text m) w.longterm)

  consolidate : ConsolidationConfig → ℕ → Session → List (ℕ × Message) → Stores L → Tick L
  unfolding write_each
  consolidate config now s [] w = (ok tt, w)
  consolidate config now s (m ∷ ms) w =
      if is_due config now s (m ∷ ms) then write_each s (m ∷ ms) w else (ok tt, w)

  and_then_each : Tick L → (Stores L → Tick L) → Tick L
  and_then_each (ok u, w) next = next w
  and_then_each (err e, w) next = (err e, w)

  -- the sessions in their order; `clock` tells the time at which each is looked at
  consolidate_each : ConsolidationConfig → (ℕ → ℕ) → List Session → Stores L → Tick L
  unfolding then_db load_messages_above_watermark consolidate and_then_each
  consolidate_each config clock [] w = (ok tt, w)
  consolidate_each config clock (s ∷ rest) w =
      and_then_each
        (then_db w (load_messages_above_watermark engine codec s.id w.db)
          (consolidate config (clock s.id) s))
        (consolidate_each config clock rest)

  unfoldable pub tick : ConsolidationConfig → (ℕ → ℕ) → (list_now : ℕ) → Stores L → Tick L
  unfolding then_db list_sessions_needing_maintenance consolidate_each
  tick config clock list_now w =
      then_db w (list_sessions_needing_maintenance engine list_now w.db)
        (consolidate_each config clock)

  advance-messages :
      (id n : ℕ) (db : Db) → (advance_watermark engine id n db).1.messages ≡ db.messages
  unfolding advance_watermark update execute ◌>>=◌ and_run return fail
  advance-messages id n db = ground arith

  load_above-messages :
      (id : ℕ) (db : Db)
      → (load_messages_above_watermark engine codec id db).1.messages ≡ db.messages
  unfolding load_messages_above_watermark get_watermark execute ◌>>=◌ and_run return fail lift
  load_above-messages id db = ground arith

  list-messages :
      (now : ℕ) (db : Db)
      → (list_sessions_needing_maintenance engine now db).1.messages ≡ db.messages
  unfolding list_sessions_needing_maintenance execute ◌>>=◌ and_run return
  list-messages now db = ground arith

  then_db-messages :
      {A : Type 0} (w : Stores L) (x : Result A SessionMemoryError × Db)
      (next : A → Stores L → Tick L)
      → x.1.messages ≡ w.db.messages
      → ((a : A) (t : Stores L) → (next a t).1.db.messages ≡ t.db.messages)
      → (then_db w x next).1.db.messages ≡ w.db.messages
  unfolding then_db
  then_db-messages w (ok a, t) next same rest = rest a (record w { db = t }) ∙ same
  then_db-messages w (err e, t) next same rest = same

  after_write-messages :
      (id n : ℕ) (next : Stores L → Tick L) (w : Stores L) (r : Result (Unit {0}) String × L)
      → ((t : Stores L) → (next t).1.db.messages ≡ t.db.messages)
      → (after_write id n next w r).1.db.messages ≡ w.db.messages
  unfolding after_write
  after_write-messages id n next w (ok u, l) rest =
      then_db-messages (record w { longterm = l }) (advance_watermark engine id n w.db) _
        (advance-messages id n w.db) (λ _ t. rest t)
  after_write-messages id n next w (err e, l) rest = refl

  write_each-messages :
      (s : Session) (ms : List (ℕ × Message)) (w : Stores L)
      → (write_each s ms w).1.db.messages ≡ w.db.messages
  unfolding write_each
  write_each-messages s [] w = refl
  write_each-messages s ((n, m) ∷ rest) w =
      after_write-messages s.id n (write_each s rest) w _ (write_each-messages s rest)

  consolidate-messages :
      (config : ConsolidationConfig) (now : ℕ) (s : Session) (ms : List (ℕ × Message))
      (w : Stores L)
      → (consolidate config now s ms w).1.db.messages ≡ w.db.messages
  unfolding consolidate
  consolidate-messages config now s [] w = refl
  consolidate-messages config now s (m ∷ ms) w = ground (arith, write_each-messages s (m ∷ ms) w)

  and_then_each-messages :
      (x : Tick L) (next : Stores L → Tick L)
      → ((t : Stores L) → (next t).1.db.messages ≡ t.db.messages)
      → (and_then_each x next).1.db.messages ≡ x.1.db.messages
  unfolding and_then_each
  and_then_each-messages (ok u, w) next rest = rest w
  and_then_each-messages (err e, w) next rest = refl

  consolidate_each-messages :
      (config : ConsolidationConfig) (clock : ℕ → ℕ) (ss : List Session) (w : Stores L)
      → (consolidate_each config clock ss w).1.db.messages ≡ w.db.messages
  unfolding consolidate_each
  consolidate_each-messages config clock [] w = refl
  consolidate_each-messages config clock (s ∷ rest) w =
      and_then_each-messages _ (consolidate_each config clock rest)
        (consolidate_each-messages config clock rest)
      ∙ then_db-messages w (load_messages_above_watermark engine codec s.id w.db) _
          (load_above-messages s.id w.db) (consolidate-messages config (clock s.id) s)

  -- A tick of the consolidation worker never changes the messages of the store, wherever it fails.
  tick-messages :
      (config : ConsolidationConfig) (clock : ℕ → ℕ) (list_now : ℕ) (w : Stores L)
      → (tick config clock list_now w).1.db.messages ≡ w.db.messages
  unfolding tick
  tick-messages config clock list_now w =
      then_db-messages w (list_sessions_needing_maintenance engine list_now w.db) _
        (list-messages list_now w.db) (consolidate_each-messages config clock)
