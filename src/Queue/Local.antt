-- ===== src/Queue/Local.antt =====
-- gleanflow/queue/local.py: the in-memory leased queue. Task objects are shared by reference
-- between the queue, the workers and the controller, and `attempt` is changed in place, so a task
-- is a reference into `heap`. Each method runs under the lock and reads the clock once: it is a
-- function of the state and of the time `now`, in clock ticks.
pub mod Places
pub mod Valid
pub mod Lease
pub mod Redelivery
pub mod Steps
pub mod Methods
pub mod Reach
pub mod Stale
use gleanflow.Prelude.{
  ℕ, zero, suc, ◌+◌, ◌≤◌, ◌<◌, String, Option, none, some, Bool, List, [], ◌∷◌, ◌++◌, map, filter,
  length, ltb, leb, nat_beq, if◌then◌else◌,
}
use gleanflow.Prelude.Dict.{Dict, get, put, remove}
use gleanflow.Task.{Task}

pub record LocalQueue (W : Type 0) : Type 0 where
  pub heap : ℕ → Task W
  pub max_redeliveries : ℕ
  pub ready : List ℕ
  -- key -> (task, deadline)
  pub inflight : Dict (ℕ × ℕ)
  pub dlq : List ℕ

module _ {W : Type 0} where
  abbrev pub key_of : LocalQueue W → ℕ → String
  key_of q r = (q.heap r).key

  abbrev pub attempt_of : LocalQueue W → ℕ → ℕ
  attempt_of q r = (q.heap r).attempt

  -- `task.attempt += 1`, seen by everyone who holds the task
  unfoldable pub bump : ℕ → LocalQueue W → LocalQueue W
  bump r q = record q {
    heap =
        λ s. if nat_beq r s then record (q.heap s) { attempt = attempt_of q s + 1 } else q.heap s;
  }

  -- The tail of `_sweep` and of `fail`.
  unfoldable pub redeliver : ℕ → LocalQueue W → LocalQueue W
  redeliver r q =
      let q' = bump r q in
      if ltb q'.max_redeliveries (attempt_of q' r)
      then record q' { dlq = q'.dlq ++ r ∷ [] }
      else record q' { ready = q'.ready ++ r ∷ [] }

  unfoldable pub expired : ℕ → LocalQueue W → List String
  expired now q = map (λ e. e.0) (filter (λ e. leb e.1.1 now) q.inflight)

  -- The body of the loop of `_sweep`; an expired key is in `_inflight`.
  unfoldable pub sweep_key : String → LocalQueue W → LocalQueue W
  sweep_key k q = elim (get k q.inflight) [
    | none ↦ q
    | some (r, deadline) ↦ redeliver r (record q { inflight = remove k q.inflight })
  ]

  unfoldable pub sweep_keys : List String → LocalQueue W → LocalQueue W
  sweep_keys [] q = q
  sweep_keys (k ∷ ks) q = sweep_keys ks (sweep_key k q)

  -- `_sweep`
  unfoldable pub sweep : ℕ → LocalQueue W → LocalQueue W
  sweep now q = sweep_keys (expired now q) q

  unfoldable pub enqueue : ℕ → LocalQueue W → LocalQueue W
  enqueue r q = record q { ready = q.ready ++ r ∷ [] }

  -- `claim` behind its `_sweep`, by the cases of `self._ready`.
  unfoldable pub claim_ready : List ℕ → ℕ → LocalQueue W → LocalQueue W × Option ℕ
  claim_ready [] deadline q = (q, none)
  claim_ready (r ∷ rest) deadline q =
      (record q { ready = rest; inflight = put (key_of q r) (r, deadline) q.inflight }, some r)

  unfoldable pub claim : ℕ → ℕ → LocalQueue W → LocalQueue W × Option ℕ
  claim now lease q = let q' = sweep now q in claim_ready q'.ready (now + lease) q'

  unfoldable pub extend : ℕ → ℕ → ℕ → LocalQueue W → LocalQueue W
  extend now r lease q = elim (get (key_of q r) q.inflight) [
    | none ↦ q
    | some (t, _) ↦ record q { inflight = put (key_of q r) (t, now + lease) q.inflight }
  ]

  unfoldable pub ack : ℕ → LocalQueue W → LocalQueue W
  ack r q = record q { inflight = remove (key_of q r) q.inflight }

  unfoldable pub fail : ℕ → LocalQueue W → LocalQueue W
  fail r q = redeliver r (ack r q)

  unfoldable pub depth : ℕ → LocalQueue W → LocalQueue W × ℕ
  depth now q = let q' = sweep now q in (q', length q'.ready + length q'.inflight)
