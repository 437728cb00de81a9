-- ===== src/Memory/Session/Atomic.antt =====
-- What a failed statement or transaction leaves behind, whatever the database answers.
use agentverse.Base.{ℕ, false, ◌≡◌, refl, sym, Option, none, some, Result, ok, err, is_ok, arith}
use agentverse.Core.Message.{Message}
use agentverse.Memory.Session.Types.{Session, SessionMemoryError}
use agentverse.Memory.Session.Sql.{
  Db, Engine, Query, return, fail, ◌>>=◌, and_run, execute, in_transaction, rolled_back,
  begin_or_commit,
}
use agentverse.Memory.Session.Store.{Codec, get, unless_known, append_turn}
use agentverse.Memory.Session.Runs.{Tables}

-- The tables are as they were.
abbrev pub IsUnchanged : {A : Type 0} → Db → Result A SessionMemoryError × Db → Type 0
IsUnchanged db x = Tables x.1 db.sessions db.messages

-- A failure changes nothing.
abbrev pub IsAtomic : {A : Type 0} → Query A → Type 0
IsAtomic q = (db : Db) → is_ok (q db).0 ≡ false → IsUnchanged db (q db)

rolled_back-keeps :
    {A : Type 0} (before : Db) (x : Result A SessionMemoryError × Db)
    → is_ok (rolled_back before x).0 ≡ false
    → IsUnchanged before (rolled_back before x)
unfolding rolled_back
rolled_back-keeps before (ok a, t) failed = ground arith
rolled_back-keeps before (err e, t) failed = (refl, refl)

-- a query that changes nothing, and then one that is atomic
bind-IsAtomic :
    {A B : Type 0} (q : Query A) (next : A → Query B)
    → ((db : Db) → IsUnchanged db (q db))
    → ((a : A) → IsAtomic (next a))
    → IsAtomic (q >>= next)
unfolding ◌>>=◌ and_run
bind-IsAtomic q next keeps atomic db failed = run_on (q db) (keeps db) failed
  where
    run_on :
        (x : Result _ SessionMemoryError × Db)
        → IsUnchanged db x
        → is_ok (and_run x next).0 ≡ false
        → IsUnchanged db (and_run x next)
    run_on (ok a, t) same failed = rw (sym same.0, sym same.1) (atomic a t failed)
    run_on (err e, t) same failed = same

module _ (engine : Engine) where
  begin-IsUnchanged : (db : Db) → IsUnchanged db (begin_or_commit engine db)
  unfolding begin_or_commit execute
  begin-IsUnchanged db = ground arith

  in_transaction-IsAtomic : {A : Type 0} (body : Query A) → IsAtomic (in_transaction engine body)
  unfolding in_transaction
  in_transaction-IsAtomic body =
      bind-IsAtomic (begin_or_commit engine) _ begin-IsUnchanged
        (λ _ db failed. rolled_back-keeps db _ failed)

  get-IsUnchanged : (id : ℕ) (db : Db) → IsUnchanged db (get engine id db)
  unfolding get execute ◌>>=◌ and_run return
  get-IsUnchanged id db = ground arith

  unless_known-IsUnchanged :
      (id : ℕ) (found : Option Session) (db : Db) → IsUnchanged db (unless_known engine id found db)
  unfolding unless_known fail return
  unless_known-IsUnchanged id none db = (refl, refl)
  unless_known-IsUnchanged id (some s) db = (refl, refl)

  -- A turn that is reported as failed has left the sessions and the messages as they were, whichever
  -- of its statements fails, also the one that ends the transaction.
  pub append_turn-IsAtomic :
      (codec : Codec) (id : ℕ) (u a : Message) (now : ℕ) (db : Db)
      → is_ok (append_turn engine codec id u a now db).0 ≡ false
      → IsUnchanged db (append_turn engine codec id u a now db)
  unfolding append_turn
  append_turn-IsAtomic codec id u a now =
      bind-IsAtomic (get engine id) _ (get-IsUnchanged id) λ found.
        bind-IsAtomic (unless_known engine id found) _ (unless_known-IsUnchanged id found)
          λ _. in_transaction-IsAtomic _
