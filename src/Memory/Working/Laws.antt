-- ===== src/Memory/Working/Laws.antt =====
-- What `load` returns behind each operation, for every key and every later time.
use agentverse.Base.{
  ℕ, String, ◌-◌, ◌≤◌, ◌&&◌, string_eq, nat_eq, leb, ◌==◌, if◌then◌else◌, ◌≡◌, refl, none, some,
  List, [], ◌∷◌, ◌++◌, arith, inl, inr, Option-cases, Bool-cases,
}
use agentverse.Base.Map.{Map, get, insert, remove, get-insert, get-remove}
use agentverse.Core.Message.{Message}
use agentverse.Memory.Working.{
  Key, key_eq, Entry, CacheMemory, new, is_fresh, fresh_messages, load, sweep, store, appended,
  append_turn, evict, Op, stores, appends, evicts, step, run,
}

-- each key stands in the map once
abbrev UniqueKeys : Map Key Entry → Type 0
UniqueKeys [] = Unit
UniqueKeys ((k, e) ∷ es) = (get k es ≡ none) × UniqueKeys es

get-sweep :
    (ttl now : ℕ) (j : Key) (es : Map Key Entry) → get j es ≡ none → get j (sweep ttl now es) ≡ none
unfolding get sweep
get-sweep ttl now j [] h = refl
get-sweep ttl now j ((k, e) ∷ es) h = ground (arith, h, get-sweep ttl now j es)

-- what is swept at one time is stale at every later one
fresh-sweep :
    (ttl now later : ℕ) (j : Key) (es : Map Key Entry)
    → now ≤ later
    → UniqueKeys es
    → fresh_messages ttl later (get j (sweep ttl now es)) ≡ fresh_messages ttl later (get j es)
unfolding get sweep fresh_messages is_fresh
fresh-sweep ttl now later j [] h u = refl
fresh-sweep ttl now later j ((k, e) ∷ es) h u =
    ground (arith, h, u.0, fresh-sweep ttl now later j es h u.1, get-sweep ttl now j es)

insert-UniqueKeys :
    (k : Key) (e : Entry) (es : Map Key Entry) → UniqueKeys es → UniqueKeys (insert k e es)
unfolding get insert
insert-UniqueKeys k e [] u = (refl, u)
insert-UniqueKeys k e ((j, f) ∷ es) u = elim (Bool-cases (j == k)) [
  | inl same ↦ rw same (ground (arith, same, u.0), u.1)
  | inr other ↦
      rw other (ground (arith, other, u.0, get-insert j k e es), insert-UniqueKeys k e es u.1)
]

sweep-UniqueKeys :
    (ttl now : ℕ) (es : Map Key Entry) → UniqueKeys es → UniqueKeys (sweep ttl now es)
unfolding sweep
sweep-UniqueKeys ttl now [] u = u
sweep-UniqueKeys ttl now ((k, e) ∷ es) u = elim (Bool-cases (is_fresh ttl now e)) [
  | inl fresh ↦ rw fresh (get-sweep ttl now k es u.0, sweep-UniqueKeys ttl now es u.1)
  | inr stale ↦ rw stale (sweep-UniqueKeys ttl now es u.1)
]

remove-UniqueKeys : (k : Key) (es : Map Key Entry) → UniqueKeys es → UniqueKeys (remove k es)
unfolding remove
remove-UniqueKeys k [] u = u
remove-UniqueKeys k ((j, f) ∷ es) u = elim (Bool-cases (j == k)) [
  | inl same ↦ rw same (remove-UniqueKeys k es u.1)
  | inr other ↦ rw other (ground (arith, u.0, get-remove j k es), remove-UniqueKeys k es u.1)
]

step-UniqueKeys :
    (now : ℕ) (op : Op) (m : CacheMemory)
    → UniqueKeys m.entries
    → UniqueKeys (step now op m).entries
unfolding step
step-UniqueKeys now (stores k messages) m u =
    insert-UniqueKeys k (record { messages = messages; last_used = now })
      (sweep m.ttl now m.entries) (sweep-UniqueKeys m.ttl now m.entries u)
step-UniqueKeys now (appends k user_msg assistant_msg) m u =
    insert-UniqueKeys k (appended now user_msg assistant_msg (get k m.entries)) m.entries u
step-UniqueKeys now (evicts k) m u = remove-UniqueKeys k m.entries u

run-UniqueKeys :
    (ops : List (ℕ × Op)) (m : CacheMemory) → UniqueKeys m.entries → UniqueKeys (run ops m).entries
unfolding run
run-UniqueKeys [] m u = u
run-UniqueKeys ((now, op) ∷ ops) m u =
    run-UniqueKeys ops (step now op m) (step-UniqueKeys now op m u)

-- an eviction takes what its key loads, and nothing else
pub load-evict :
    (k : Key) (user_id : String) (id later : ℕ) (m : CacheMemory)
    → load k later (evict (record { user_id = user_id; session_id = id }) m)
      ≡ (if (k.user_id == user_id) && (id == k.session_id) then none else load k later m)
unfolding load evict fresh_messages
load-evict k user_id id later m =
    ground (arith, get-remove k (record { user_id = user_id; session_id = id }) m.entries)

-- the turns that an entry holds, also one that is stale and not swept yet
abbrev pub held : Key → CacheMemory → List Message
held k m = elim (get k m.entries) [ none ↦ [] | some e ↦ e.messages ]

module _ (ops : List (ℕ × Op)) (ttl : ℕ) (j k : Key) (now later : ℕ) where
  abbrev cache : CacheMemory
  cache = run ops (new ttl)

  -- After a store, the stored messages are what their key loads until they are older than the time to
  -- live, and nothing afterwards; no other key loads anything else than before, for all that the
  -- store sweeps.
  pub load-store :
      (messages : List Message)
      → now ≤ later
      → load j later (store k now messages cache) ≡ (
          if k == j
          then (if leb (later - now) cache.ttl then some messages else none)
          else load j later cache)
  unfolding load store fresh_messages is_fresh
  load-store messages h =
      let m : CacheMemory = cache in
      ground (
        arith,
        h,
        fresh-sweep m.ttl now later j m.entries h (run-UniqueKeys ops (new ttl) tt),
        get-insert j k (record { messages = messages; last_used = now })
            (sweep m.ttl now m.entries),
      )

  -- After an appended turn, its key loads what the entry held and the turn, until they are older than
  -- the time to live; no other key loads anything else than before.
  load-append_turn :
      (user_msg assistant_msg : Message)
      → load j later (append_turn k now user_msg assistant_msg cache) ≡ (
          if k == j
          then (if leb (later - now) cache.ttl
              then some (held k cache ++ user_msg ∷ assistant_msg ∷ [])
              else none)
          else load j later cache)
  unfolding load append_turn fresh_messages is_fresh appended
  load-append_turn user_msg assistant_msg =
      let m : CacheMemory = cache in
      elim (Option-cases (get k m.entries)) [
        | inl h ↦ ground (
          arith,
          h,
          get-insert j k (appended now user_msg assistant_msg (get k m.entries)) m.entries,
        )
        | inr (e, h) ↦ ground (
          arith,
          h,
          get-insert j k (appended now user_msg assistant_msg (get k m.entries)) m.entries,
        )
      ]
