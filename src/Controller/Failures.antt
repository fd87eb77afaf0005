-- ===== src/Controller/Failures.antt =====
-- `_handle_failures` of controller.py. `handler` is the failure handler on the event that the
-- controller builds from the task and the state.
pub mod Budget
use Prim.Native.String.{◌++◌ as append}
use gleanflow.Prelude.{
  ℕ, zero, suc, ◌+◌, ◌*◌, String, Option, none, some, Bool, true, false, not, ◌&&◌, ◌||◌, List, [],
  ◌∷◌, ◌++◌, map, length, nat_beq, leb, ◌==◌, if◌then◌else◌,
}
use gleanflow.Prelude.Dict.{Dict, get, get_or}
use gleanflow.Decimal
use gleanflow.Float.{FloatOps}
use gleanflow.Json.{
  Json, bool, float, str, array, object, as_str, as_dict, as_list, required, optional, ◌>>=◌,
}
use gleanflow.Config.{PipelineConfig, FailurePolicy, off, report, remediate, or_else}
use gleanflow.Stage.{Stage, Resources, round_up, resources}
use gleanflow.Task.{Task, TaskState, queued, failed, skipped}
use gleanflow.Tracker.{Tracker, set_tasks}
use gleanflow.Queue.Local.{LocalQueue, enqueue}
use gleanflow.World.{World, track}
use gleanflow.Agent.{Remediation}
use gleanflow.Controller.Manifest.{manifest_replace}
use gleanflow.Controller.Plan.{task_key}
use gleanflow.Controller.Remedy.{Run, apply}

unfoldable pub is_remediate : FailurePolicy → Bool
is_remediate remediate = true
is_remediate report = false
is_remediate off = false

abbrev pub report_only : Remediation
report_only = record {
  action = "report";
  mem = none;
  vcpu = none;
  factor = 0;
  diagnosis = "";
  fix = "";
}

unfoldable pub refuses : PipelineConfig → ℕ → Remediation → Bool
refuses cfg budget rem =
    not (is_remediate cfg.failure_policy)
    || nat_beq budget 0
    || rem.action == "report"
    || rem.action == "abort"

-- the transition to FAILED
unfoldable pub note_failed : {W : Type 0} → Json W → String → ℕ → Run W → Run W
note_failed now stage r run =
    let key = (run.world.queue.heap r).key in
    record run {
      world = track now stage key failed (("error", str "dead-lettered") ∷ []) run.world;
    }

module _ {W F : Type 0} ⦃f : FloatOps W⦄ where
  -- the loop of `_handle_failures`, with the tasks so far
  unfoldable pub handle_dead :
      Json W
      → Stage W F
      → PipelineConfig
      → (ℕ → Run W → Option Remediation)
      → ℕ
      → List ℕ
      → List ℕ
      → Run W
      → Option (Run W × Option (List ℕ))
  handle_dead now st cfg handler budget new [] run = some (run, some new)
  handle_dead now st cfg handler budget new (r ∷ rs) run =
      let noted = note_failed now st.name r run in
      let rem = get_or report_only (handler r noted) in
      let go_on = λ (after : Run W) (ts : List ℕ).
        handle_dead now st cfg handler budget (new ++ ts) rs after in
      if refuses cfg budget rem
      then some (noted, none)
      else (apply now st cfg r rem noted >>= λ p. elim p.1 [
        | none ↦ some (p.0, none)
        | some ts ↦ go_on p.0 ts
      ])

  unfoldable pub handle_failures :
      Json W
      → Stage W F
      → PipelineConfig
      → Option (ℕ → Run W → Option Remediation)
      → ℕ
      → List ℕ
      → Run W
      → Option (Run W × Option (List ℕ))
  handle_failures now st cfg none budget dead run = some (run, none)
  handle_failures now st cfg (some handler) budget dead run =
      handle_dead now st cfg handler budget [] dead run
