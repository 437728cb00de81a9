-- ===== src/Hitl/Queue/Gauge.antt =====
-- The gauge of pending approvals.
use agentverse.Base.{
  ℕ, ◌+◌, nat_eq, ◌≡◌, ap, Option, none, some, List, [], ◌∷◌, arith, Option-cases, inl, inr,
}
use agentverse.Base.Map.{Map, get, insert}
use agentverse.Core.Strategy.{ApprovalId}
use agentverse.Hitl.Types.{ApprovalRequest, ApprovalDecision, ApprovalStatus, pending, resolved}
use agentverse.Hitl.Queue.{
  Entry, InMemoryQueue, submit, resolve, sweep_status, sweeps, sweep_entries, sweep_expired, Op,
  submits, resolves, sweeps_at, step, run,
}

abbrev weight : ApprovalStatus → ℕ
weight pending = 1
weight _ = 0

-- How many approvals are pending.
abbrev pub pending_count : Map ApprovalId Entry → ℕ
pending_count [] = 0
pending_count ((id, e) ∷ m) = weight e.status + pending_count m

abbrev weight_of : Option Entry → ℕ
weight_of none = 0
weight_of (some e) = weight e.status

-- The gauge shows the number of pending approvals.
abbrev pub IsAccurate : InMemoryQueue → Type 0
IsAccurate q = q.gauge_up ≡ q.gauge_down + pending_count q.entries

pending_count-insert :
    (id : ApprovalId) (e : Entry) (m : Map ApprovalId Entry)
    → pending_count (insert id e m) + weight_of (get id m) ≡ pending_count m + weight e.status
unfolding get insert
pending_count-insert id e [] = omega arith
pending_count-insert id e ((j, f) ∷ m) = ground (arith, pending_count-insert id e m)

pending_count-sweep :
    (now : ℕ) (m : Map ApprovalId Entry)
    → pending_count (sweep_entries now m).0 + (sweep_entries now m).1 ≡ pending_count m
unfolding sweep_entries sweep_status sweeps
pending_count-sweep now [] = omega arith
pending_count-sweep now ((j, e) ∷ m) = ground (arith, pending_count-sweep now m)

-- A submission is of a request whose identifier is not in the queue.
abbrev pub IsFresh : Op → InMemoryQueue → Type 0
IsFresh (submits req) q = get req.id q.entries ≡ none
IsFresh _ q = Unit

submit-IsAccurate :
    (req : ApprovalRequest) (q : InMemoryQueue)
    → get req.id q.entries ≡ none
    → IsAccurate q
    → IsAccurate (submit req q).1
unfolding submit
submit-IsAccurate req q fresh a =
    let e : Entry = record { request = req; status = pending } in
    omega (arith, pending_count-insert req.id e q.entries, ap weight_of fresh)

resolve-IsAccurate :
    (id : ApprovalId) (d : ApprovalDecision) (q : InMemoryQueue)
    → IsAccurate q
    → IsAccurate (resolve id d q).1
unfolding resolve
resolve-IsAccurate id d q a = elim (Option-cases (get id q.entries)) [
  | inl absent ↦ ground arith
  | inr (e, found) ↦
      ground (arith, pending_count-insert id (record e { status = resolved d }) q.entries)
]

sweep-IsAccurate : (now : ℕ) (q : InMemoryQueue) → IsAccurate q → IsAccurate (sweep_expired now q).1
unfolding sweep_expired
sweep-IsAccurate now q a = omega (arith, pending_count-sweep now q.entries)

step-IsAccurate : (o : Op) (q : InMemoryQueue) → IsFresh o q → IsAccurate q → IsAccurate (step o q)
unfolding step
step-IsAccurate (submits req) q fresh a = submit-IsAccurate req q fresh a
step-IsAccurate (resolves id d) q fresh a = resolve-IsAccurate id d q a
step-IsAccurate (sweeps_at now) q fresh a = sweep-IsAccurate now q a

-- Every submission of a run is fresh where it is made.
abbrev pub RunsFresh : List Op → InMemoryQueue → Type 0
RunsFresh [] q = Unit
RunsFresh (o ∷ os) q = IsFresh o q × RunsFresh os (step o q)

-- Through every sequence of operations whose submissions have new identifiers, the gauge shows the
-- number of approvals that are pending.
pub run-IsAccurate :
    (os : List Op) (q : InMemoryQueue) → RunsFresh os q → IsAccurate q → IsAccurate (run os q)
unfolding run
run-IsAccurate [] q fresh a = a
run-IsAccurate (o ∷ os) q fresh a =
    run-IsAccurate os (step o q) fresh.1 (step-IsAccurate o q fresh.0 a)
