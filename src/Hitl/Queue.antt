-- ===== src/Hitl/Queue.antt =====
-- `InMemoryQueue` of avs-hitl/src/memory.rs. Each operation runs under the one lock of the entries,
-- so that a run of the queue is a sequence of operations. The gauge of pending approvals is kept as
-- what was added to it and what was taken from it.
pub mod Laws
pub mod Gauge
use agentverse.Base.{
  ℕ, suc, ◌+◌, Bool, true, false, ltb, nat_eq, if◌then◌else◌, Option, none, some, List, [], ◌∷◌,
  Result, ok, err,
}
use agentverse.Base.Map.{Map, get, insert}
use agentverse.Core.Strategy.{ApprovalId}
use agentverse.Hitl.Types.{
  ApprovalRequest, ApprovalDecision, ApprovalStatus, pending, resolved, expired, HitlError,
  not_found, already_resolved,
}

pub record Entry : Type 0 where
  pub request : ApprovalRequest
  pub status : ApprovalStatus

pub record InMemoryQueue : Type 0 where
  pub entries : Map ApprovalId Entry
  pub gauge_up : ℕ
  pub gauge_down : ℕ

abbrev pub new : InMemoryQueue
new = record { entries = []; gauge_up = 0; gauge_down = 0 }

unfoldable pub submit :
    ApprovalRequest → InMemoryQueue → Result ApprovalId HitlError × InMemoryQueue
submit req q = (
  ok req.id,
  record {
    entries = insert req.id (record { request = req; status = pending }) q.entries;
    gauge_up = q.gauge_up + 1;
    gauge_down = q.gauge_down;
  },
)

-- `entry.status != ApprovalStatus::Pending` and the write behind it
resolve_entry :
    ApprovalId
    → ApprovalDecision
    → Entry
    → ApprovalStatus
    → InMemoryQueue
    → Result (Unit {0}) HitlError × InMemoryQueue
resolve_entry id decision entry pending q = (
  ok tt,
  record {
    entries = insert id (record entry { status = resolved decision }) q.entries;
    gauge_up = q.gauge_up;
    gauge_down = q.gauge_down + 1;
  },
)
resolve_entry id decision entry _ q = (err (already_resolved id), q)

resolve_found :
    ApprovalId
    → ApprovalDecision
    → Option Entry
    → InMemoryQueue
    → Result (Unit {0}) HitlError × InMemoryQueue
unfolding resolve_entry
resolve_found id decision none q = (err (not_found id), q)
resolve_found id decision (some entry) q = resolve_entry id decision entry entry.status q

unfoldable pub resolve :
    ApprovalId → ApprovalDecision → InMemoryQueue → Result (Unit {0}) HitlError × InMemoryQueue
unfolding resolve_found
resolve id decision q = resolve_found id decision (get id q.entries) q

status_of : ApprovalId → Option Entry → Result ApprovalStatus HitlError
status_of id none = err (not_found id)
status_of id (some e) = ok e.status

unfoldable pub poll : ApprovalId → InMemoryQueue → Result ApprovalStatus HitlError
unfolding status_of
poll id q = status_of id (get id q.entries)

-- `if let Some(exp) = entry.request.expires_at { if exp < now`
unfoldable pub is_due : ℕ → Option ℕ → Bool
is_due now none = false
is_due now (some exp) = ltb exp now

sweep_status : ℕ → Option ℕ → ApprovalStatus → ApprovalStatus
unfolding is_due
sweep_status now expires_at pending = if is_due now expires_at then expired else pending
sweep_status now expires_at s = s

sweeps : ℕ → Option ℕ → ApprovalStatus → ℕ
unfolding is_due
sweeps now expires_at pending = if is_due now expires_at then 1 else 0
sweeps now expires_at s = 0

sweep_entries : ℕ → Map ApprovalId Entry → Map ApprovalId Entry × ℕ
unfolding sweep_status sweeps
sweep_entries now [] = ([], 0)
sweep_entries now ((id, e) ∷ m) =
    let (m', count) = sweep_entries now m in
    (
      (id, record e { status = sweep_status now e.request.expires_at e.status }) ∷ m',
      sweeps now e.request.expires_at e.status + count,
    )

-- `sweep_expired` at the time `now`
unfoldable pub sweep_expired : ℕ → InMemoryQueue → ℕ × InMemoryQueue
unfolding sweep_entries
sweep_expired now q =
    let (entries, count) = sweep_entries now q.entries in
    (count, record { entries = entries; gauge_up = q.gauge_up; gauge_down = q.gauge_down + count })

pub data Op : Type 0 where
  submits : ApprovalRequest → Op
  resolves : ApprovalId → ApprovalDecision → Op
  sweeps_at : ℕ → Op

unfoldable pub step : Op → InMemoryQueue → InMemoryQueue
unfolding submit resolve sweep_expired
step (submits req) q = (submit req q).1
step (resolves id decision) q = (resolve id decision q).1
step (sweeps_at now) q = (sweep_expired now q).1

unfoldable pub run : List Op → InMemoryQueue → InMemoryQueue
unfolding step
run [] q = q
run (o ∷ os) q = run os (step o q)
