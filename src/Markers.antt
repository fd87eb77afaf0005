-- ===== src/Markers.antt =====
-- gleanflow/markers.py: completion, heartbeat and failure markers. `now` is `time.time()`, and an
-- `info` argument is a dictionary of JSON values.
pub mod Laws
use gleanflow.Prelude.{ℕ, String, Option, none, some, Bool, true, List, [], ◌∷◌, if◌then◌else◌}
use gleanflow.Prelude.Dict.{Dict, get, get_or}
use Prim.Native.String.{◌++◌ as append}
use gleanflow.Text.{wrap, ends_with, drop_chars, cut_end}
use gleanflow.Json.{Json, null, bool, int, str, array, object, as_dict, ◌>>=◌}
use gleanflow.Task.{Task}
use gleanflow.Store.{Store, put_bytes, get_bytes, exists, list_keys}

unfoldable pub result_key : String → String
result_key task_key = wrap "results/" task_key

unfoldable pub running_key : String → String
running_key task_key = wrap "running/" task_key

unfoldable pub failure_key : String → String
failure_key task_key = wrap "failures/" task_key

-- The task key in a marker's key: `k[len("failures/"):-len(".json")]`.
unfoldable pub failure_names : List String → List String
failure_names [] = []
failure_names (k ∷ ks) =
    let rest = failure_names ks in
    if ends_with ".json" k then cut_end 5 (drop_chars 9 k) ∷ rest else rest

module _ {W : Type 0} where
  unfoldable pub has_result : Store W → String → Bool
  has_result store task_key = exists (result_key task_key) store

  -- `none` where Python raises: no such object, or no JSON object
  unfoldable pub read_result : Store W → String → Option (Dict (Json W))
  read_result store task_key = do j ← get_bytes (result_key task_key) store; as_dict j

  unfoldable pub result_body : Json W → Task W → Dict (Json W) → Dict (Json W)
  result_body now task info =
      ("job_key", str task.key)
      ∷ ("stage", str task.stage)
      ∷ ("params", object task.params)
      ∷ ("ts", get_or now (get "ts" info))
      ∷ ("peak_mem_mb", get_or null (get "peak_mem_mb" info))
      ∷ ("cpu_seconds", get_or null (get "cpu_seconds" info))
      ∷ ("outputs", get_or (array []) (get "outputs" info))
      ∷ ("worker", get_or null (get "worker" info))
      ∷ ("attempt", int task.attempt)
      ∷ []

  unfoldable pub write_result : Json W → Task W → Dict (Json W) → Store W → Store W
  write_result now task info = put_bytes (result_key task.key) (object (result_body now task info))

  unfoldable pub has_failure : Store W → String → Bool
  has_failure store task_key = exists (failure_key task_key) store

  unfoldable pub read_failure : Store W → String → Option (Dict (Json W))
  read_failure store task_key = do j ← get_bytes (failure_key task_key) store; as_dict j

  unfoldable pub failure_body : Json W → Task W → Dict (Json W) → Dict (Json W)
  failure_body now task info =
      ("job_key", str task.key)
      ∷ ("stage", str task.stage)
      ∷ ("params", object task.params)
      ∷ ("ts", get_or now (get "ts" info))
      ∷ ("attempt", int task.attempt)
      ∷ ("error", get_or (str "") (get "error" info))
      ∷ ("traceback", get_or (str "") (get "traceback" info))
      ∷ ("peak_mem_mb", get_or null (get "peak_mem_mb" info))
      ∷ ("limit_mb", get_or null (get "limit_mb" info))
      ∷ ("cpu_seconds", get_or null (get "cpu_seconds" info))
      ∷ ("resources", get_or (object []) (get "resources" info))
      ∷ []

  unfoldable pub write_failure : Json W → Task W → Dict (Json W) → Store W → Store W
  write_failure now task info =
      put_bytes (failure_key task.key) (object (failure_body now task info))

  unfoldable pub write_running : Json W → Task W → String → Store W → Store W
  write_running now task worker_id = put_bytes (running_key task.key) (
      object (
        ("job_key", str task.key)
        ∷ ("stage", str task.stage)
        ∷ ("worker", str worker_id)
        ∷ ("ts", now)
        ∷ []))

  -- The store does not fail here, so the `except` is not reached.
  unfoldable pub clear_running : String → Store W → Store W
  clear_running task_key = put_bytes (running_key task_key) (object (("cleared", bool true) ∷ []))

  unfoldable pub list_failures : Store W → String → List String
  list_failures store stage =
      failure_names (list_keys (append "failures/" (append stage "/")) store)
