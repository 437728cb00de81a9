-- ===== src/Memory/Working.antt =====
-- `CacheMemory` of avs-memory/src/working.rs, one entry per user and session. Times are those of the
-- monotone clock; `elapsed` at a time is an argument's difference that stops at 0.
pub mod Laws
use agentverse.Base.{
  ℕ, ◌-◌, String, Bool, leb, Eq, ◌==◌, string_eq, nat_eq, if◌then◌else◌, ◌≡◌, ap, Option, none,
  some, List, [], ◌∷◌, ◌++◌,
}
use agentverse.Base.Map.{Map, get, insert, remove}
use agentverse.Core.Message.{Message}

-- the keys of the map: a user and a session (a `Uuid`)
pub record Key : Type 0 where
  pub user_id : String
  pub session_id : ℕ

instance unfoldable pub key_eq : Eq Key
unfolding string_eq nat_eq
key_eq = record {
  dec = λ a b. elim (string_eq.dec a.user_id b.user_id) [
    | no p ↦ no (λ e. p (ap (λ c. c.user_id) e))
    | yes p ↦ elim (nat_eq.dec a.session_id b.session_id) [
      | no q ↦ no (λ e. q (ap (λ c. c.session_id) e))
      | yes q ↦ yes (λ i. record { user_id = p i; session_id = q i })
    ]
  ];
}

pub record Entry : Type 0 where
  pub messages : List Message
  pub last_used : ℕ

pub record CacheMemory : Type 0 where
  pub entries : Map Key Entry
  pub ttl : ℕ

abbrev pub new : ℕ → CacheMemory
new ttl = record { entries = []; ttl = ttl }

is_fresh : ℕ → ℕ → Entry → Bool
is_fresh ttl now e = leb (now - e.last_used) ttl

fresh_messages : ℕ → ℕ → Option Entry → Option (List Message)
unfolding is_fresh
fresh_messages ttl now none = none
fresh_messages ttl now (some e) = if is_fresh ttl now e then some e.messages else none

unfoldable pub load : Key → ℕ → CacheMemory → Option (List Message)
unfolding fresh_messages
load key now m = fresh_messages m.ttl now (get key m.entries)

-- `entries.retain`
sweep : ℕ → ℕ → Map Key Entry → Map Key Entry
unfolding is_fresh
sweep ttl now [] = []
sweep ttl now ((k, e) ∷ es) =
    let rest = sweep ttl now es in if is_fresh ttl now e then (k, e) ∷ rest else rest

unfoldable pub store : Key → ℕ → List Message → CacheMemory → CacheMemory
unfolding sweep
store key now messages m = record m {
  entries =
      insert key (record { messages = messages; last_used = now }) (sweep m.ttl now m.entries);
}

appended : ℕ → Message → Message → Option Entry → Entry
appended now user_msg assistant_msg none = record {
  messages = user_msg ∷ assistant_msg ∷ [];
  last_used = now;
}
appended now user_msg assistant_msg (some e) = record {
  messages = e.messages ++ user_msg ∷ assistant_msg ∷ [];
  last_used = now;
}

unfoldable pub append_turn : Key → ℕ → Message → Message → CacheMemory → CacheMemory
unfolding appended
append_turn key now user_msg assistant_msg m = record m {
  entries = insert key (appended now user_msg assistant_msg (get key m.entries)) m.entries;
}

unfoldable pub evict : Key → CacheMemory → CacheMemory
evict key m = record m { entries = remove key m.entries }

-- the operations that change the cache, and a sequence of them, each at its time
pub data Op : Type 0 where
  stores : Key → List Message → Op
  appends : Key → Message → Message → Op
  evicts : Key → Op

unfoldable pub step : ℕ → Op → CacheMemory → CacheMemory
unfolding store append_turn evict
step now (stores key messages) = store key now messages
step now (appends key user_msg assistant_msg) = append_turn key now user_msg assistant_msg
step now (evicts key) = evict key

unfoldable pub run : List (ℕ × Op) → CacheMemory → CacheMemory
unfolding step
run [] m = m
run ((now, op) ∷ ops) m = run ops (step now op m)
