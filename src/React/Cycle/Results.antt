-- ===== src/React/Cycle/Results.antt =====
-- The results that go back to the model: one per call, in the order of the calls.
use agentverse.Base.{
  ◌≤◌, String, false, string_eq, ◌≡◌, refl, sym, ◌∙◌, Option, none, some, List, [], ◌∷◌, map,
  contains, arith, Reordered, Option-cases, inl, inr,
}
use agentverse.Base.Map.{Map, get, insert, remove, get-insert, get-remove}
use agentverse.Core.Tool.{ToolCall, ToolCallResult}
use agentverse.Tools.Execute.{Joined, returned, join_error, drain}
use agentverse.Tools.Execute.Join.{
  is_join_error, has_id, count, find, count-Reordered, find-Reordered, find-absent,
}
use agentverse.React.Cycle.{collect, result_or_lost, take_results, reconcile_and_order_results}

abbrev pub order_of : List ToolCall → List (String × String)
order_of [] = []
order_of (c ∷ calls) = (c.id, c.name) ∷ order_of calls

abbrev pub ids : List (String × String) → List String
ids [] = []
ids ((id, name) ∷ calls) = id ∷ ids calls

abbrev pub result_ids : List ToolCallResult → List String
result_ids [] = []
result_ids (r ∷ rs) = r.id ∷ result_ids rs

-- every result stands under its own identifier
abbrev Keyed : Map String ToolCallResult → Type 0
Keyed m = (id : String) (r : ToolCallResult) → get id m ≡ some r → r.id ≡ id

insert-Keyed :
    (r : ToolCallResult) (m : Map String ToolCallResult) → Keyed m → Keyed (insert r.id r m)
insert-Keyed r m k id s h = ground (arith, h, get-insert id r.id r m, k id s)

collect-Keyed :
    (rs : List ToolCallResult) (m : Map String ToolCallResult) → Keyed m → Keyed (collect rs m)
unfolding collect
collect-Keyed [] m k = k
collect-Keyed (r ∷ rs) m k = collect-Keyed rs (insert r.id r m) (insert-Keyed r m k)

remove-Keyed : (j : String) (m : Map String ToolCallResult) → Keyed m → Keyed (remove j m)
remove-Keyed j m k id s h = ground (arith, h, get-remove id j m, k id s)

take_results-ids :
    (m : Map String ToolCallResult) (calls : List (String × String))
    → Keyed m
    → result_ids (take_results m calls) ≡ ids calls
unfolding take_results result_or_lost
take_results-ids m [] k = refl
take_results-ids m ((id, name) ∷ calls) k = elim (Option-cases (get id m)) [
  | inl h ↦ ground (arith, h, take_results-ids (remove id m) calls (remove-Keyed id m k))
  | inr (r, h) ↦
      ground (arith, h, k id r h, take_results-ids (remove id m) calls (remove-Keyed id m k))
]

-- Whatever results come back, the reconciled ones are one per call, under the identifiers of the calls
-- and in their order.
pub reconcile-ids :
    (results : List ToolCallResult) (calls : List (String × String))
    → result_ids (reconcile_and_order_results results calls) ≡ ids calls
unfolding reconcile_and_order_results get
reconcile-ids results calls =
    take_results-ids (collect results []) calls (collect-Keyed results [] (λ id r h. cc h))

abbrev pick : Option Joined → Option ToolCallResult → Option ToolCallResult
pick none o = o
pick (some (returned r)) o = some r
pick (some join_error) o = o

get-collect :
    (id : String) (js : List Joined) (m : Map String ToolCallResult)
    → count is_join_error js ≡ 0
    → count (has_id id) js ≤ 1
    → get id (collect (drain js) m) ≡ pick (find (has_id id) js) (get id m)
unfolding collect drain
get-collect id [] m sound once = refl
get-collect id (join_error ∷ js) m sound once = ground (arith, sound)
get-collect id (returned r ∷ js) m sound once = ground (
  arith,
  sound,
  once,
  get-collect id js (insert r.id r m),
  get-insert id r.id r m,
  find-absent (has_id id) js,
)

abbrev pub Distinct : List String → Type 0
Distinct [] = Unit
Distinct (id ∷ ids) = (contains ids id ≡ false) × Distinct ids

abbrev pub named : List ToolCallResult → List (String × String)
named [] = []
named (r ∷ rs) = (r.id, r.name) ∷ named rs

sound_tasks : (rs : List ToolCallResult) → count is_join_error (map returned rs) ≡ 0
sound_tasks [] = refl
sound_tasks (r ∷ rs) = ground (arith, sound_tasks rs)

absent_task :
    (id : String) (rs : List ToolCallResult)
    → contains (result_ids rs) id ≡ false
    → count (has_id id) (map returned rs) ≡ 0
absent_task id [] h = refl
absent_task id (r ∷ rs) h = ground (arith, h, absent_task id rs)

single_task :
    (id : String) (rs : List ToolCallResult)
    → Distinct (result_ids rs)
    → count (has_id id) (map returned rs) ≤ 1
single_task id [] d = omega arith
single_task id (r ∷ rs) d =
    ground (arith, d.0, single_task id rs d.1, absent_task id rs, absent_task r.id rs d.0)

-- each result is found among the tasks under its identifier
abbrev Found : List Joined → List ToolCallResult → Type 0
Found js [] = Unit
Found js (r ∷ rs) = (find (has_id r.id) js ≡ some (returned r)) × Found js rs

Found-cons :
    (js : List Joined) (s : ToolCallResult) (rs : List ToolCallResult)
    → contains (result_ids rs) s.id ≡ false
    → Found js rs
    → Found (returned s ∷ js) rs
Found-cons js s [] h f = f
Found-cons js s (r ∷ rs) h f = (ground (arith, h, f.0), Found-cons js s rs (ground (arith, h)) f.1)

find_each : (rs : List ToolCallResult) → Distinct (result_ids rs) → Found (map returned rs) rs
find_each [] d = d
find_each (r ∷ rs) d = (ground arith, Found-cons (map returned rs) r rs d.0 (find_each rs d.1))

abbrev Held : Map String ToolCallResult → List ToolCallResult → Type 0
Held m [] = Unit
Held m (r ∷ rs) = (get r.id m ≡ some r) × Held m rs

Held-remove :
    (m : Map String ToolCallResult) (id : String) (rs : List ToolCallResult)
    → contains (result_ids rs) id ≡ false
    → Held m rs
    → Held (remove id m) rs
Held-remove m id [] h f = f
Held-remove m id (r ∷ rs) h f =
    (ground (arith, h, f.0, get-remove r.id id m), Held-remove m id rs (ground (arith, h)) f.1)

take_results-Held :
    (m : Map String ToolCallResult) (rs : List ToolCallResult)
    → Distinct (result_ids rs)
    → Held m rs
    → take_results m (named rs) ≡ rs
unfolding take_results result_or_lost
take_results-Held m [] d f = refl
take_results-Held m (r ∷ rs) d f =
    ground (arith, f.0, take_results-Held (remove r.id m) rs d.1 (Held-remove m r.id rs d.0 f.1))

Found-Held :
    (js ks : List Joined) (rs : List ToolCallResult)
    → Reordered js ks
    → count is_join_error ks ≡ 0
    → ((id : String) → count (has_id id) js ≤ 1)
    → Found js rs
    → Held (collect (drain ks) []) rs
unfolding get
Found-Held js ks [] p sound once f = f
Found-Held js ks (r ∷ rs) p sound once f = (
  ground (
    arith,
    f.0,
    find-Reordered (has_id r.id) js ks p (once r.id),
    get-collect r.id ks [] sound,
    count-Reordered (has_id r.id) js ks p,
    once r.id,
  ),
  Found-Held js ks rs p sound once f.1,
)

-- The tasks of results with distinct identifiers, joined in any order and reconciled, are the results
-- in the order of the calls.
pub reconcile-drain :
    (rs : List ToolCallResult) (js : List Joined)
    → Distinct (result_ids rs)
    → Reordered (map returned rs) js
    → reconcile_and_order_results (drain js) (named rs) ≡ rs
unfolding reconcile_and_order_results
reconcile-drain rs js d p = take_results-Held (collect (drain js) []) rs d (
    Found-Held (map returned rs) js rs p
      (sym (count-Reordered is_join_error (map returned rs) js p) ∙ sound_tasks rs)
      (λ id. single_task id rs d) (find_each rs d))
