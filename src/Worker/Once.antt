-- ===== src/Worker/Once.antt =====
-- Deliveries of a task of worker.py that has a result already.
use gleanflow.Prelude.{ℕ, ◌≡◌, sym, String, none, some, Bool, true, false}
use gleanflow.Prelude.Dict.{get}
use gleanflow.Json.{Json}
use gleanflow.Config.{PipelineConfig}
use gleanflow.Pipeline.{Pipeline}
use gleanflow.Markers.{has_result}
use gleanflow.Queue.Local.{ack}
use gleanflow.World.{World}
use gleanflow.Worker.{Outcome, task_of, run_task}
use gleanflow.Worker.Outcomes.{ran, run_task_succeeds, run_task_resumes, inflight-ack}

-- Once `run_task` has returned True for a task, no delivery of it is computed again: in any later world
-- that has kept the results, by whichever worker and for whichever object with the task's key, a
-- `run_task` that is not forced returns True whatever the compute would do, leaves the store as it is,
-- and takes the task out of flight.
pub run_task_once :
    {W F : Type 0} (pipe : Pipeline W F) (cfg : PipelineConfig) (began now began' now' : Json W)
    (worker_id worker_id' : String) (force : Bool) (r r' : ℕ)
    (compute compute' : World W → World W × Outcome W) (w w' later : World W)
    → (task_of r (ran began worker_id r compute w)).key ≡ (task_of r w).key
    → run_task pipe cfg began now worker_id force r compute w ≡ some (w', true)
    → ((k : String) → has_result w'.store k ≡ true → has_result later.store k ≡ true)
    → (task_of r' later).key ≡ (task_of r w).key
    → (end : World W) × (run_task pipe cfg began' now' worker_id' false r' compute' later
        ≡ some (end, true))
      × (end.store ≡ later.store)
      × (end.queue ≡ ack r' later.queue)
      × (get (task_of r w).key end.queue.inflight ≡ none)
run_task_once pipe cfg began now began' now' worker_id worker_id' force r r' compute compute' w w'
      later own done keep same =
    let has =
      keep (task_of r w).key
        (run_task_succeeds pipe cfg began now worker_id force r compute w w' own done).0 in
    let (end, resumed, store, queue) =
      run_task_resumes pipe cfg began' now' worker_id' r' compute' later (rw same has) in
    (end, resumed, store, queue, rw (queue, sym same) (inflight-ack r' later.queue))
