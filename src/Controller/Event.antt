-- ===== src/Controller/Event.antt =====
-- `_failure_event` and `_refresh_from_markers` of controller.py: what the controller reads of a task
-- from the markers in the store.
use gleanflow.Prelude.{ℕ, String, Option, none, some, List, [], ◌∷◌, if◌then◌else◌}
use gleanflow.Prelude.Dict.{Dict, get, get_or}
use gleanflow.Float.{FloatOps}
use gleanflow.Json.{
  Json, null, obj, to_dict, as_str, as_nat, as_float, as_dict, as_list, optional, ◌>>=◌,
}
use gleanflow.Config.{PipelineConfig}
use gleanflow.Stage.{Stage, Resources, resources}
use gleanflow.Task.{Task, running, success, value}
use gleanflow.Store.{Store, exists}
use gleanflow.Markers.{has_result, read_result, has_failure, read_failure, running_key}
use gleanflow.Tracker.{Tracker, set_state}
use gleanflow.Agent.{FailureEvent}
use gleanflow.Agent.Tools.{peer_stats}

-- `stage.resources(self.cfg)` as the dict that it is
unfoldable pub resource_dict : Resources → Dict ℕ
resource_dict res = ("vcpu", res.vcpu) ∷ ("mem", res.mem) ∷ ("omp", res.omp) ∷ []

module _ {W : Type 0} where
  -- `f`: the failure marker, or an empty dict where there is none or it cannot be read.
  unfoldable pub failure_info : Store W → String → Dict (Json W)
  failure_info store key = if has_failure store key then get_or [] (read_failure store key) else []

  unfoldable pub nat_values : Dict (Json W) → Option (Dict ℕ)
  nat_values [] = some []
  nat_values ((k, v) ∷ d) = do n ← as_nat v; rest ← nat_values d; some ((k, n) ∷ rest)

  unfoldable pub or_default : Dict ℕ → Dict (Json W) → Option (Dict ℕ)
  or_default default [] = some default
  or_default default (e ∷ d) = nat_values (e ∷ d)

  -- `f.get("resources") or stage.resources(self.cfg)`
  unfoldable pub resources_or : Resources → Option (Json W) → Option (Dict ℕ)
  resources_or default none = some (resource_dict default)
  resources_or default (some null) = some (resource_dict default)
  resources_or default (some (obj d)) = or_default (resource_dict default) (to_dict d)
  resources_or default (some _) = none

  -- `task.params.get("_in", {}).get("members", [])`
  unfoldable pub input_members : Dict (Json W) → Option (List (Json W))
  input_members params = do
    input ← optional as_dict "_in" [] params
    optional as_list "members" [] input

  -- One task of `_refresh_from_markers`.
  unfoldable pub refresh_task : Json W → String → Store W → String → Tracker W → Tracker W
  refresh_task now stage store key t =
      let info = get_or [] (read_result store key) in
      if has_result store key
      then set_state now stage key (value success)
          (("peak_mem_mb", get_or null (get "peak_mem_mb" info))
            ∷ ("cpu_seconds", get_or null (get "cpu_seconds" info))
            ∷ [])
          t
      else if exists (running_key key) store
      then set_state now stage key (value running) [] t
      else t

  unfoldable pub refresh_from_markers :
      Json W → String → Store W → List (Task W) → Tracker W → Tracker W
  refresh_from_markers now stage store [] t = t
  refresh_from_markers now stage store (task ∷ tasks) t =
      refresh_from_markers now stage store tasks (refresh_task now stage store task.key t)

module _ {W : Type 0} ⦃f : FloatOps W⦄ where
  -- `f.get(k)` of a number or null
  unfoldable pub number_or_none : String → Dict (Json W) → Option (Option W)
  number_or_none k d = elim (get k d) [
    | none ↦ some none
    | some v ↦ elim v [ null ↦ some none | other ↦ (as_float other >>= λ x. some (some x)) ]
  ]

module _ {W F : Type 0} ⦃f : FloatOps W⦄ where
  -- `none` stands for a marker or parameters with a value of another kind than the program writes.
  unfoldable pub failure_event :
      PipelineConfig → Stage W F → Task W → Store W → Option (FailureEvent W)
  failure_event cfg st task store = do
    let d = failure_info store task.key
    error ← optional as_str "error" "" d
    traceback ← optional as_str "traceback" "" d
    peak ← number_or_none "peak_mem_mb" d
    limit ← number_or_none "limit_mb" d
    cpu ← number_or_none "cpu_seconds" d
    members ← input_members task.params
    res ← resources_or (resources st cfg) (get "resources" d)
    some (record {
      stage = st.name;
      task_key = task.key;
      params = task.params;
      attempt = task.attempt;
      error = error;
      traceback = traceback;
      peak_mem_mb = peak;
      limit_mb = limit;
      cpu_seconds = cpu;
      members = members;
      resources = res;
      peer_peak_mem_mb = (peer_stats store st.name).max_peak_mem_mb;
      log_tail = "";
    })
