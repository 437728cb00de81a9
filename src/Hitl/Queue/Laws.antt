-- ===== src/Hitl/Queue/Laws.antt =====
-- The life of one approval: the first decision stands, and a sweep expires exactly what is due.
use agentverse.Base.{
  ℕ, Bool, true, false, nat_eq, if◌then◌else◌, ◌≡◌, ◌≢◌, ◌⊎◌, ◌∙◌, ◌&&◌, refl, Option, none, some,
  List, [], ◌∷◌, All, ok, err, arith, Option-cases, inl, inr,
}
use agentverse.Base.Map.{Map, get, get-insert}
use agentverse.Core.Strategy.{ApprovalId}
use agentverse.Hitl.Types.{
  ApprovalRequest, ApprovalDecision, ApprovalStatus, pending, resolved, expired, not_found,
  already_resolved,
}
use agentverse.Hitl.Queue.{
  Entry, InMemoryQueue, submit, resolve, resolve_found, poll, status_of, is_due, sweep_status,
  sweep_entries, sweep_expired, Op, submits, resolves, sweeps_at, step, run,
}

abbrev pub is_pending : ApprovalStatus → Bool
is_pending pending = true
is_pending _ = false

pending-cases : (s : ApprovalStatus) → (s ≡ pending) ⊎ (s ≢ pending)
pending-cases pending = inl refl
pending-cases (resolved d) = inr (λ e. cc)
pending-cases expired = inr (λ e. cc)

swept : ℕ → Option Entry → Option Entry
swept now none = none
swept now (some e) = some (record e { status = sweep_status now e.request.expires_at e.status })

get-sweep_entries :
    (now : ℕ) (id : ApprovalId) (m : Map ApprovalId Entry)
    → get id (sweep_entries now m).0 ≡ swept now (get id m)
unfolding get sweep_entries swept
get-sweep_entries now id [] = refl
get-sweep_entries now id ((j, e) ∷ m) = ground (arith, get-sweep_entries now id m)

poll-sweep :
    (now : ℕ) (id : ApprovalId) (q : InMemoryQueue) (s : ApprovalStatus)
    → poll id q ≡ ok s
    → s ≢ pending
    → poll id (sweep_expired now q).1 ≡ ok s
unfolding poll sweep_expired swept sweep_status
poll-sweep now id q s h final = ground (arith, get-sweep_entries now id q.entries)

poll-resolve :
    (id j : ApprovalId) (d : ApprovalDecision) (q : InMemoryQueue) (s : ApprovalStatus)
    → poll id q ≡ ok s
    → s ≢ pending
    → poll id (resolve j d q).1 ≡ ok s
unfolding poll resolve
poll-resolve id j d q s h final = elim (Option-cases (get j q.entries)) [
  | inl absent ↦ ground arith
  | inr (e, found) ↦ ground (arith, get-insert id j (record e { status = resolved d }) q.entries)
]

poll-submit :
    (id : ApprovalId) (req : ApprovalRequest) (q : InMemoryQueue)
    → req.id ≢ id
    → poll id (submit req q).1 ≡ poll id q
unfolding poll submit
poll-submit id req q other =
    ground (arith, get-insert id req.id (record { request = req; status = pending }) q.entries)

abbrev Spares : ApprovalId → Op → Type 0
Spares id (submits req) = req.id ≢ id
Spares id _ = Unit

step-final :
    (id : ApprovalId) (o : Op) (q : InMemoryQueue) (s : ApprovalStatus)
    → Spares id o
    → poll id q ≡ ok s
    → s ≢ pending
    → poll id (step o q) ≡ ok s
unfolding step
step-final id (submits req) q s apart h final = poll-submit id req q apart ∙ h
step-final id (resolves j d) q s apart h final = poll-resolve id j d q s h final
step-final id (sweeps_at now) q s apart h final = poll-sweep now id q s h final

-- An approval that is resolved or has expired keeps its status through every later sequence of
-- operations that does not submit a request with its identifier again.
pub run-final :
    (id : ApprovalId) (os : List Op) (q : InMemoryQueue) (s : ApprovalStatus)
    → All (Spares id) os
    → poll id q ≡ ok s
    → s ≢ pending
    → poll id (run os q) ≡ ok s
unfolding run
run-final id [] q s apart h final = h
run-final id (o ∷ os) q s apart h final =
    run-final id os (step o q) s apart.1 (step-final id o q s apart.0 h final) final

resolve_known :
    (id : ApprovalId) (d : ApprovalDecision) (q : InMemoryQueue) (e : Entry)
    → get id q.entries ≡ some e
    → ((poll id q ≡ ok pending)
        × ((resolve id d q).0 ≡ ok tt)
        × (poll id (resolve id d q).1 ≡ ok (resolved d)))
      ⊎ (((poll id q ≡ err (not_found id)) × (resolve id d q ≡ (err (not_found id), q)))
          ⊎ ((s : ApprovalStatus) × (poll id q ≡ ok s)
              × (s ≢ pending)
              × (resolve id d q ≡ (err (already_resolved id), q))))
unfolding poll resolve
resolve_known id d q e found = elim (pending-cases e.status) [
  | inl same ↦ inl (
    ground arith,
    ground arith,
    ground (arith, get-insert id id (record e { status = resolved d }) q.entries),
  )
  | inr other ↦ inr (inr (e.status, ground arith, other, ground arith))
]

-- Resolving answers "ok" exactly when the approval was pending, and then its status is the decision;
-- it answers "not found" for an identifier that the queue does not know, "already resolved" for one
-- that is resolved or has expired, and an error changes nothing.
pub resolve_outcomes :
    (id : ApprovalId) (d : ApprovalDecision) (q : InMemoryQueue)
    → ((poll id q ≡ ok pending)
        × ((resolve id d q).0 ≡ ok tt)
        × (poll id (resolve id d q).1 ≡ ok (resolved d)))
      ⊎ (((poll id q ≡ err (not_found id)) × (resolve id d q ≡ (err (not_found id), q)))
          ⊎ ((s : ApprovalStatus) × (poll id q ≡ ok s)
              × (s ≢ pending)
              × (resolve id d q ≡ (err (already_resolved id), q))))
unfolding poll resolve
resolve_outcomes id d q = elim (Option-cases (get id q.entries)) [
  | inl absent ↦ inr (inl (rw (absent, status_of), rw (absent, resolve_found)))
  | inr (e, found) ↦ resolve_known id d q e found
]

-- A sweep expires the pending approvals whose time of expiry lies before `now`, and changes the status
-- of no other.
pub poll-sweep_expired :
    (now : ℕ) (id : ApprovalId) (q : InMemoryQueue) (e : Entry)
    → get id q.entries ≡ some e
    → poll id (sweep_expired now q).1
      ≡ ok (if is_pending e.status && is_due now e.request.expires_at then expired else e.status)
unfolding poll sweep_expired swept sweep_status
poll-sweep_expired now id q e found = ground (arith, get-sweep_entries now id q.entries)
