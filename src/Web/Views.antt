-- ===== src/Web/Views.antt =====
-- gleanflow/web/server.py: the JSON of the run that the routes answer with.
use gleanflow.Prelude.{
  ℕ, String, Option, none, some, Bool, true, false, List, [], ◌∷◌, ◌++◌, map, if◌then◌else◌, ◌==◌,
}
use gleanflow.Prelude.Dict.{Dict, get, get_or, put}
use gleanflow.Json.{Json, null, int, str, array, object, ◌>>=◌}
use gleanflow.Store.{Store}
use gleanflow.Markers.{has_result, read_result, has_failure, read_failure, list_failures}
use gleanflow.Tracker.Snapshot.{StageView, key_of_view}

module _ {W : Type 0} where
  unfoldable pub count_json : Dict ℕ → Json W
  count_json c = object (map (λ e. (e.0, int e.1)) c)

  unfoldable pub view_json : StageView W → Json W
  view_json v = object (
      ("name", str v.name)
      ∷ ("deps", array (map (λ d. str d) v.deps))
      ∷ ("kind", str v.kind)
      ∷ ("counts", count_json v.counts)
      ∷ ("tasks", array (map (λ t. object t) v.tasks))
      ∷ [])

  unfoldable pub state_json : Json W → Json W → Json W → List (StageView W) → Json W
  state_json run_id started_at now views = object (
      ("run_id", run_id)
      ∷ ("started_at", started_at)
      ∷ ("now", now)
      ∷ ("stages", array (map view_json views))
      ∷ [])

  -- The loop of `_failures`: the failures that can be read, of the keys of a stage.
  unfoldable pub read_failures : Store W → List String → List (Json W)
  read_failures store [] = []
  read_failures store (k ∷ ks) =
      let rest = read_failures store ks in
      elim (read_failure store k) [ none ↦ rest | some d ↦ object d ∷ rest ]

  unfoldable pub failures_of : Store W → List (StageView W) → List (Json W)
  failures_of store [] = []
  failures_of store (v ∷ vs) =
      read_failures store (list_failures store v.name) ++ failures_of store vs

  -- `d["state"] = t.get("state")` for each task with the key
  unfoldable pub find_state : String → List (Dict (Json W)) → Dict (Json W) → Dict (Json W)
  find_state key [] d = d
  find_state key (t ∷ ts) d =
      if key_of_view t == key
      then find_state key ts (put "state" (get_or null (get "state" t)) d)
      else find_state key ts d

  unfoldable pub find_states : String → List (StageView W) → Dict (Json W) → Dict (Json W)
  find_states key [] d = d
  find_states key (v ∷ vs) d = find_states key vs (find_state key v.tasks d)

  -- The markers of `_task`; `none` where one is there and cannot be read.
  unfoldable pub with_marker :
      Bool → Option (Dict (Json W)) → String → Dict (Json W) → Option (Dict (Json W))
  with_marker false body name d = some d
  with_marker true none name d = none
  with_marker true (some body) name d = some (put name (object body) d)

  unfoldable pub with_markers : Option (Store W) → String → Dict (Json W) → Option (Dict (Json W))
  with_markers none key d = some d
  with_markers (some store) key d = do
    d' ← with_marker (has_result store key) (read_result store key) "result" d
    with_marker (has_failure store key) (read_failure store key) "failure" d'

  -- `_task`
  unfoldable pub task_info : Option (Store W) → List (StageView W) → String → Option (Dict (Json W))
  task_info store views key = do
    d ← with_markers store key (("key", str key) ∷ [])
    some (find_states key views d)

  unfoldable pub with_view : String → List (StageView W) → Dict (Json W) → Dict (Json W)
  with_view name [] d = d
  with_view name (v ∷ vs) d =
      let found =
        put "deps" (array (map (λ s. str s) v.deps)) (put "counts" (count_json v.counts) d) in
      if v.name == name then with_view name vs found else with_view name vs d

  -- `_stage`; `source_of` is `inspect.getsource` on a stage of the pipeline, where there is one, and
  -- "" where it raises.
  unfoldable pub stage_info : (String → Option String) → List (StageView W) → String → Dict (Json W)
  stage_info source_of views name =
      let d = with_view name views (("name", str name) ∷ []) in
      elim (source_of name) [ none ↦ d | some code ↦ put "source" (str code) d ]
