-- ===== src/Controller/Cloud.antt =====
-- `_drain` of controller.py on the aws backend: the SQS queue, the fleet on AWS Batch, the store and
-- the tracker. Between two turns the workers and AWS run: `others i` is what they make of all this
-- before turn `i`, and `clock i` is the time then. It runs on fuel: `turns`.
pub mod Unattended
use gleanflow.Prelude.{
  ℕ, zero, suc, ◌+◌, min, String, Option, none, some, Bool, true, false, not, ◌&&◌, List, [], ◌∷◌,
  length, map, filter, leb, nat_beq, if◌then◌else◌,
}
use gleanflow.Prelude.Dict.{Dict, get, keys, values}
use gleanflow.Float.{FloatOps}
use gleanflow.Json.{Json, null, int, str, object}
use gleanflow.Task.{Task}
use gleanflow.Store.{Store}
use gleanflow.Markers.{has_result}
use gleanflow.Tracker.{Tracker, emit}
use gleanflow.Queue.Sqs.{SqsOps, SqsQueue, depth}
use gleanflow.Fleet.Batch.{
  BatchOps, BatchFleet, Job, Container, running, ensure, failed_count, last_failure,
}
use gleanflow.Controller.Event.{refresh_from_markers}
use gleanflow.Controller.Drain.{all_done}

pub record Cloud (Q B W : Type 0) : Type 0 where
  pub queue : SqsQueue Q
  pub fleet : BatchFleet B
  pub store : Store W
  pub tracker : Tracker W

-- How the drain ends: it returns, raises for dead chunks, for dying workers or at the deadline; or it
-- is still running.
pub data CloudEnd (Q B W : Type 0) : Type 0 where
  returned : Cloud Q B W → CloudEnd Q B W
  chunks_dead : Cloud Q B W → CloudEnd Q B W
  workers_dying : Cloud Q B W → CloudEnd Q B W
  too_late : Cloud Q B W → CloudEnd Q B W
  waiting : CloudEnd Q B W

-- `getattr(queue, "dlq", [])`: `SqsQueue` has no such attribute.
unfoldable pub dlq_of : {Q W : Type 0} → SqsQueue Q → List (Task W)
dlq_of q = []

module _ {W : Type 0} where
  -- `[active[t.key] for t in list(dlq) if t.key in active]`
  unfoldable pub add_dead : Option (Task W) → List (Task W) → List (Task W)
  add_dead none ts = ts
  add_dead (some t) ts = t ∷ ts

  unfoldable pub dead_in : Dict (Task W) → List (Task W) → List (Task W)
  dead_in active [] = []
  dead_in active (t ∷ ts) = add_dead (get t.key active) (dead_in active ts)

  -- `done` is empty.
  unfoldable pub none_done : Store W → List String → Bool
  none_done store [] = true
  none_done store (k ∷ ks) = not (has_result store k) && none_done store ks

  -- The event of the crash guard; the field `reason` of the job is `statusReason`.
  unfoldable pub failure_json : Option (Job W × Container W) → Json W
  failure_json none = object []
  failure_json (some (j, c)) = object (
      ("jobId", str j.job_id)
      ∷ ("reason", j.status_reason)
      ∷ ("exitCode", c.exit_code)
      ∷ ("logStreamName", c.log_stream)
      ∷ [])

  unfoldable pub dying_event : Json W → String → ℕ → Option (Job W × Container W) → Dict (Json W)
  dying_event now stage nfail info =
      ("type", str "workers_dying")
      ∷ ("stage", str stage)
      ∷ ("failed", int nfail)
      ∷ ("last", failure_json info)
      ∷ ("ts", now)
      ∷ []

module _ {Q B W : Type 0} ⦃f : FloatOps W⦄ (sqs : SqsOps Q W) (batch : BatchOps B W)
    (stage : String) (max_workers : ℕ) (stamp : ℕ → Json W) where
  -- `if depth: fleet.ensure(min(self.max_workers, depth + fleet.running()))`
  unfoldable pub size_fleet : Cloud Q B W → Cloud Q B W
  size_fleet c =
      let n = depth sqs c.queue in
      if nat_beq n 0
      then c
      else record c { fleet = ensure batch (min max_workers (n + running batch c.fleet)) c.fleet }

  unfoldable pub refresh : ℕ → Dict (Task W) → Cloud Q B W → Cloud Q B W
  refresh now active c = record c {
    tracker = refresh_from_markers (stamp now) stage c.store (values active) c.tracker;
  }

  -- The crash guard.
  unfoldable pub guard_crash : ℕ → Dict (Task W) → Cloud Q B W → CloudEnd Q B W → CloudEnd Q B W
  guard_crash now active c go_on =
      let nfail = failed_count batch c.fleet in
      let event = dying_event (stamp now) stage nfail (last_failure batch c.fleet) in
      if none_done c.store (keys active) && leb c.fleet.cfg.worker_failure_cap nfail
      then workers_dying (record c { tracker = emit event c.tracker })
      else go_on

  -- One turn; `remedied` is what follows where there are dead chunks, with `_handle_failures`.
  unfoldable pub cloud_turn :
      ℕ
      → ℕ
      → Dict (Task W)
      → (List (Task W) → Cloud Q B W → CloudEnd Q B W)
      → Cloud Q B W
      → (Cloud Q B W → CloudEnd Q B W)
      → CloudEnd Q B W
  cloud_turn now deadline active remedied c go_on =
      let c1 = refresh now active (size_fleet c) in
      let dead = dead_in active (dlq_of c1.queue) in
      let next = go_on c1 in
      if leb deadline now
      then too_late c
      else if not (nat_beq (length dead) 0)
      then remedied dead c1
      else if all_done c1.store (keys active)
      then returned c1
      else guard_crash now active c1 next

  module _ (clock : ℕ → ℕ) (others : ℕ → Cloud Q B W → Cloud Q B W) (deadline : ℕ)
      (remedied : List (Task W) → Cloud Q B W → CloudEnd Q B W) where
    unfoldable pub cloud_drain : ℕ → ℕ → Dict (Task W) → Cloud Q B W → CloudEnd Q B W
    cloud_drain zero i active c = waiting
    cloud_drain (suc turns) i active c =
        cloud_turn (clock i) deadline active remedied (others i c)
          (λ c'. cloud_drain turns (suc i) active c')
