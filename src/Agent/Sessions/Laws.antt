-- ===== src/Agent/Sessions/Laws.antt =====
-- What `delete_all_user_data` leaves behind in both layers.
use agentverse.Base.{
  ℕ, suc, String, Bool, ◌&&◌, ◌||◌, ◌==◌, string_eq, nat_eq, leb, if◌then◌else◌, ◌≡◌, refl, ◌∙◌,
  sym, none, List, [], ◌∷◌, map, retain, any, Result, ok, err, arith, Option-cases,
}
use agentverse.Memory.Session.Types.{Session, SessionMemoryError}
use agentverse.Memory.Session.Sql.{
  SessionRow, Db, Engine, ◌>>=◌, and_run, return, execute, order_by, insert_by, delete_sessions,
}
use agentverse.Memory.Session.Store.{Codec, session_of_row, list_by_user}
use agentverse.Memory.Session.Maintenance as Maintenance
use agentverse.Memory.Session.Manager as Manager
use agentverse.Memory.Session.Runs.{Works}
use agentverse.Memory.Session.Contract.{view, deletes, step, promised, on_view}
use agentverse.Memory.Session.Keyed.{IsKeyed, step-IsKeyed}
use agentverse.Memory.Session.Refinement.{step-promised}
use agentverse.Memory.Working.{Key, key_eq, load}
use agentverse.Agent.Types.{AgentError}
use agentverse.Memory.Working.Laws.{load-evict}
use agentverse.Agent.Sessions.{Layers, then_in, evicted, delete_each, delete_all_user_data}

any-insert_by :
    {A : Type 0} (before : A → A → Bool) (p : A → Bool) (a : A) (xs : List A)
    → any p (insert_by before a xs) ≡ (p a || any p xs)
unfolding insert_by
any-insert_by before p a [] = refl
any-insert_by before p a (x ∷ xs) = ground (arith, any-insert_by before p a xs)

any-order_by :
    {A : Type 0} (before : A → A → Bool) (p : A → Bool) (xs : List A)
    → any p (order_by before xs) ≡ any p xs
unfolding order_by
any-order_by before p [] = refl
any-order_by before p (x ∷ xs) =
    ground (arith, any-order_by before p xs, any-insert_by before p x (order_by before xs))

any-session_of_row :
    (j : ℕ) (rs : List SessionRow)
    → any (λ s. s.id == j) (map session_of_row rs) ≡ any (λ r. r.id == j) rs
unfolding session_of_row
any-session_of_row j [] = refl
any-session_of_row j (r ∷ rs) = ground (arith, any-session_of_row j rs)

then_in-ok :
    {B : Type 0} (w : Layers) (r : Result (Unit {0}) SessionMemoryError × Db)
    (next : Unit {0} → Layers → Result B AgentError × Layers)
    → r.0 ≡ ok tt
    → then_in w r next ≡ next tt (record w { layer_2 = r.1 })
unfolding then_in
then_in-ok w (ok u, db) next e = refl
then_in-ok w (err x, db) next e = ground (arith, e)

-- whether a session stands under an identifier and belongs to a user
abbrev pub has_session : String → ℕ → Db → Bool
has_session user_id j db = any (λ r. r.id == j) (retain (λ r. r.user_id == user_id) db.sessions)

module _ (engine : Engine) (codec : Codec) (works : Works engine) (user_id : String) where
  delete-ok : (id : ℕ) (db : Db) → (Manager.delete_session engine codec id db).0 ≡ ok tt
  unfolding Manager.delete_session Maintenance.delete_session execute delete_sessions ◌>>=◌ and_run
      return
  delete-ok id db = ground (arith, works db.executed)

  delete_each-step :
      (s : Session) (rest : List Session) (w : Layers)
      → delete_each engine codec user_id (s ∷ rest) w
        ≡ delete_each engine codec user_id rest (
            evicted user_id s.id
              (record w { layer_2 = step engine codec 0 (deletes s.id) w.layer_2 }))
  unfolding delete_each then_in step
  delete_each-step s rest w = then_in-ok w _ _ (delete-ok s.id w.layer_2)

  delete_each-ok :
      (ss : List Session) (w : Layers) → (delete_each engine codec user_id ss w).0 ≡ ok tt
  unfolding delete_each
  delete_each-ok [] w = refl
  delete_each-ok (s ∷ ss) w = rw (delete_each-step s ss w) (delete_each-ok ss _)

  delete_each-view :
      (j : ℕ) (ss : List Session) (w : Layers)
      → IsKeyed w.layer_2
      → view j (delete_each engine codec user_id ss w).1.layer_2
        ≡ (if any (λ s. s.id == j) ss then none else view j w.layer_2)
  unfolding delete_each promised on_view evicted
  delete_each-view j [] w keyed = refl
  delete_each-view j (s ∷ ss) w keyed = rw (delete_each-step s ss w) (
      delete_each-view j ss
        (evicted user_id s.id (record w { layer_2 = step engine codec 0 (deletes s.id) w.layer_2 }))
        (step-IsKeyed engine works codec 0 w.layer_2 keyed (deletes s.id))
      ∙ ground (
        arith,
        step-promised engine works codec 0 j w.layer_2 (deletes s.id) keyed,
        Option-cases (view j w.layer_2),
      ))

  delete_each-load :
      (k : Key) (later : ℕ) (ss : List Session) (w : Layers)
      → load k later (delete_each engine codec user_id ss w).1.layer_1 ≡ (
          if (k.user_id == user_id) && any (λ s. s.id == k.session_id) ss
          then none
          else load k later w.layer_1)
  unfolding delete_each evicted
  delete_each-load k later [] w = ground arith
  delete_each-load k later (s ∷ ss) w = rw (delete_each-step s ss w) (
      delete_each-load k later ss
        (evicted user_id s.id (record w { layer_2 = step engine codec 0 (deletes s.id) w.layer_2 }))
      ∙ ground (arith, load-evict k user_id s.id later w.layer_1))

  listed :
      (w : Layers)
      → delete_all_user_data engine codec user_id w
        ≡ delete_each engine codec user_id
            (map session_of_row (
              order_by
                (λ a b. leb b.created_at a.created_at)
                (retain (λ r. r.user_id == user_id) w.layer_2.sessions)))
            (record w { layer_2 = record w.layer_2 { executed = suc w.layer_2.executed } })
  unfolding delete_all_user_data then_in Manager.list_sessions list_by_user execute ◌>>=◌ and_run
      return
  listed w = rw (works w.layer_2.executed) refl

  any-listed :
      (j : ℕ) (db : Db)
      → any
          (λ s. s.id == j)
          (map session_of_row (
            order_by
              (λ a b. leb b.created_at a.created_at)
              (retain (λ r. r.user_id == user_id) db.sessions)))
        ≡ has_session user_id j db
  any-listed j db =
      any-session_of_row j _ ∙ any-order_by _ _ (retain (λ r. r.user_id == user_id) db.sessions)

  -- Deleting all data of a user succeeds on a database that answers every statement and whose keys
  -- hold. From then on the store holds nothing under the identifier of any session that the user had,
  -- and the session it held before under any other; and the working memory loads nothing for the user
  -- and such a session, and what it loaded before for any other key.
  pub delete_all_user_data-forgets :
      (w : Layers) (j : ℕ) (k : Key) (later : ℕ)
      → IsKeyed w.layer_2
      → ((delete_all_user_data engine codec user_id w).0 ≡ ok tt)
        × (view j (delete_all_user_data engine codec user_id w).1.layer_2
            ≡ (if has_session user_id j w.layer_2 then none else view j w.layer_2))
        × (load k later (delete_all_user_data engine codec user_id w).1.layer_1 ≡ (
            if (k.user_id == user_id) && has_session user_id k.session_id w.layer_2
            then none
            else load k later w.layer_1))
  delete_all_user_data-forgets w j k later keyed =
      rw (listed w, sym (any-listed j w.layer_2), sym (any-listed k.session_id w.layer_2))
        (delete_each-ok _ _, delete_each-view j _ _ keyed, delete_each-load k later _ _)
