-- ===== src/Queue/Local/Reach.antt =====
-- Every sequence of calls keeps the invariant of the local queue.
use gleanflow.Prelude.{ℕ, ◌+◌, ◌≤◌, ◌≡◌, sym, [], String, ◌==◌, if◌then◌else◌, arith}
use mathlib.Core.Path.{subst}
use gleanflow.Task.{Task}
use gleanflow.Queue.Local.{LocalQueue, key_of, attempt_of, enqueue, claim, extend, ack, fail, depth}
use gleanflow.Queue.Local.Places.{one_if, places, places-enqueue, count_refs, count_key}
use gleanflow.Queue.Local.Valid.{IsValid, enqueue-IsValid}
use gleanflow.Queue.Local.Steps.{sweep-IsValid, places-sweep}
use gleanflow.Queue.Local.Methods.{
  Leased, claim-IsValid, places-claim, extend-IsValid, places-extend, ack-IsValid, places-ack,
  fail-IsValid, places-fail,
}

module _ {W : Type 0} where
  -- One call of a method. A task is enqueued under a key that stands nowhere, as keys are globally
  -- unique, and a worker fails only a task whose lease it holds; any task may be acknowledged.
  -- Tasks that are created later stand in the heap from the start, where no list refers to them.
  pub data Step (q q' : LocalQueue W) : Type 0 where
    enqueued :
        (r : ℕ)
        → places (key_of q r) q ≡ 0
        → attempt_of q r ≤ q.max_redeliveries
        → q' ≡ enqueue r q
        → Step q q'
    claimed : (now lease : ℕ) → q' ≡ (claim now lease q).0 → Step q q'
    extended : (now r lease : ℕ) → q' ≡ extend now r lease q → Step q q'
    acked : (r : ℕ) → q' ≡ ack r q → Step q q'
    failed : (r : ℕ) → Leased r q → q' ≡ fail r q → Step q q'
    measured : (now : ℕ) → q' ≡ (depth now q).0 → Step q q'

  pub data Reach (q : LocalQueue W) : LocalQueue W → Type 0 where
    here : Reach q q
    next : {p p' : LocalQueue W} → Reach q p → Step p p' → Reach q p'

  Step-IsValid : {q q' : LocalQueue W} → Step q q' → IsValid q → IsValid q'
  Step-IsValid {q} (enqueued r h left e) v = subst IsValid (sym e) (enqueue-IsValid r q h left v)
  Step-IsValid {q} (claimed now lease e) v = subst IsValid (sym e) (claim-IsValid now lease q v)
  Step-IsValid {q} (extended now r lease e) v =
      subst IsValid (sym e) (extend-IsValid now r lease q v)
  Step-IsValid {q} (acked r e) v = subst IsValid (sym e) (ack-IsValid r q v)
  Step-IsValid {q} (failed r held e) v = subst IsValid (sym e) (fail-IsValid r q held v)
  Step-IsValid {q} (measured now e) v =
      subst IsValid (sym e) (unfold depth in sweep-IsValid now q v)

  -- After any calls from a valid queue, in which tasks are enqueued under keys that stand nowhere and
  -- are failed under a held lease, each key stands in one place at most (ready, in flight or
  -- dead), a task in flight stands under its own key, tasks that are ready or in flight have at most
  -- `max_redeliveries` attempts, and dead ones have more.
  pub Reach-IsValid : {q q' : LocalQueue W} → Reach q q' → IsValid q → IsValid q'
  Reach-IsValid here v = v
  Reach-IsValid (next r s) v = Step-IsValid s (Reach-IsValid r v)

  -- `LocalQueue(max_redeliveries)`
  unfoldable pub init : (ℕ → Task W) → ℕ → LocalQueue W
  init heap n = record { heap = heap; max_redeliveries = n; ready = []; inflight = []; dlq = [] }

  pub init-IsValid : (heap : ℕ → Task W) (n : ℕ) → IsValid (init heap n)
  unfolding init places count_refs count_key
  init-IsValid heap n = record {
    keyed = tt;
    once = λ k. omega arith;
    ready_left = tt;
    inflight_left = tt;
    dead_over = tt;
  }

  -- In a valid queue `claim`, `extend` and `depth` neither lose nor copy a task: they leave the
  -- number of places at which each key stands; `enqueue` adds one place for its task's key.
  pub accounts_delivery :
      (j : String) (now lease r : ℕ) (q : LocalQueue W)
      → IsValid q
      → (places j (claim now lease q).0 ≡ places j q)
        × (places j (extend now r lease q) ≡ places j q)
        × (places j (depth now q).0 ≡ places j q)
        × (places j (enqueue r q) ≡ one_if (key_of q r) j + places j q)
  unfolding depth
  accounts_delivery j now lease r q v = (
    places-claim j now lease q v,
    places-extend j now r lease q,
    places-sweep j now q v,
    places-enqueue j r q,
  )

  -- Under a held lease `fail` leaves the number of places at which each key stands, and `ack` takes
  -- away the only place of its task's key and no other.
  pub accounts_settlement :
      (j : String) (r : ℕ) (q : LocalQueue W)
      → IsValid q
      → Leased r q
      → (places j (fail r q) ≡ places j q)
        × (places j (ack r q) ≡ (if key_of q r == j then 0 else places j q))
  accounts_settlement j r q v held = (places-fail j r q held v, places-ack j r q held v)
