-- ===== src/Worker.antt =====
-- gleanflow/worker.py: `run_task`. The stage's compute is user code: `compute` takes the world to
-- the world in which it ended, with what the heartbeat and the other workers did meanwhile, and to
-- its outcome. `began` and `now` are the clock when the run begins and when it ends, and `stats` is what
-- the monitor returned.
pub mod Outcomes
pub mod Poll
pub mod Entry
pub mod Once
use gleanflow.Prelude.{
  ℕ, String, Option, none, some, Bool, true, false, not, ◌&&◌, List, [], ◌∷◌, map, if◌then◌else◌,
}
use gleanflow.Prelude.Dict.{Dict, get, get_or, put}
use gleanflow.Json.{Json, null, int, str, array, object, ◌>>=◌}
use gleanflow.Task.{Task, skipped, running, success, failed}
use gleanflow.Config.{PipelineConfig}
use gleanflow.Stage.{Stage, Resources, resources}
use gleanflow.Pipeline.{Pipeline}
use gleanflow.Markers.{has_result, write_result, write_failure, write_running, clear_running}
use gleanflow.Queue.Local.{LocalQueue, ack, fail}
use gleanflow.World.{World, track}

-- How a stage function with `ctx.finalize()` ends.
pub data Outcome (W : Type 0) : Type 0 where
  finished : List String → Dict (Json W) → Outcome W
  raised : String → String → Dict (Json W) → Outcome W

module _ {W : Type 0} where
  abbrev pub task_of : ℕ → World W → Task W
  task_of r w = w.queue.heap r

  -- `info.get(k)`
  abbrev pub field_of : String → Dict (Json W) → Json W
  field_of k info = get_or null (get k info)

  unfoldable pub resources_json : Resources → Json W
  resources_json r = object (("vcpu", int r.vcpu) ∷ ("mem", int r.mem) ∷ ("omp", int r.omp) ∷ [])

  -- the skip at the top of `run_task`
  unfoldable pub skip : Json W → ℕ → World W → World W
  skip now r w =
      let t = task_of r w in
      let w1 = track now t.stage t.key skipped [] w in record w1 { queue = ack r w1.queue }

  -- up to the call of the stage function
  unfoldable pub start : Json W → String → ℕ → World W → World W
  start now worker_id r w =
      let t = task_of r w in
      let w1 = track now t.stage t.key running (("worker", str worker_id) ∷ []) w in
      record w1 { store = write_running now t worker_id w1.store }

  -- the end of the `try` block
  unfoldable pub complete : Json W → String → ℕ → List String → Dict (Json W) → World W → World W
  complete now worker_id r outputs stats w =
      let t = task_of r w in
      let info =
        put "ts" now
          (put "worker" (str worker_id) (put "outputs" (array (map str outputs)) stats)) in
      let w1 = record w { store = clear_running t.key (write_result now t info w.store) } in
      let w2 =
        track now t.stage t.key success
          (("peak_mem_mb", field_of "peak_mem_mb" info)
            ∷ ("cpu_seconds", field_of "cpu_seconds" info)
            ∷ [])
          w1 in
      record w2 { queue = ack r w2.queue }

  -- the `except` block; `last` is the last line of the traceback
  unfoldable pub abandon :
      {F : Type 0}
      → Json W
      → Stage W F
      → PipelineConfig
      → ℕ
      → String
      → String
      → Dict (Json W)
      → World W
      → World W
  abandon now stage cfg r last traceback stats w =
      let t = task_of r w in
      let info =
        ("error", str last)
        ∷ ("traceback", str traceback)
        ∷ ("peak_mem_mb", field_of "peak_mem_mb" stats)
        ∷ ("limit_mb", field_of "limit_mb" stats)
        ∷ ("cpu_seconds", field_of "cpu_seconds" stats)
        ∷ ("resources", resources_json (resources stage cfg))
        ∷ [] in
      let w1 = record w { store = clear_running t.key (write_failure now t info w.store) } in
      let w2 = track now t.stage t.key failed (("error", str last) ∷ []) w1 in
      record w2 { queue = fail r w2.queue }

  unfoldable pub finish :
      {F : Type 0}
      → Json W
      → Stage W F
      → PipelineConfig
      → String
      → ℕ
      → World W
      → Outcome W
      → World W × Bool
  finish now stage cfg worker_id r w (finished outputs stats) =
      (complete now worker_id r outputs stats w, true)
  finish now stage cfg worker_id r w (raised last traceback stats) =
      (abandon now stage cfg r last traceback stats w, false)

  -- `none` where the task's stage is not in the pipeline (KeyError)
  unfoldable pub run_task :
      {F : Type 0}
      → Pipeline W F
      → PipelineConfig
      → Json W
      → Json W
      → String
      → Bool
      → ℕ
      → (World W → World W × Outcome W)
      → World W
      → Option (World W × Bool)
  run_task pipe cfg began now worker_id force r compute w =
      if not force && has_result w.store (task_of r w).key then some (skip began r w, true) else do
        stage ← get (task_of r w).stage pipe.stages
        let after = compute (start began worker_id r w)
        some (finish now stage cfg worker_id r after.0 after.1)
