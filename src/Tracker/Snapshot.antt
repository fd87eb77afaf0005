-- ===== src/Tracker/Snapshot.antt =====
-- gleanflow/tracker.py: `snapshot`, what the dashboard shows of a run.
use gleanflow.Prelude.{ℕ, String, Option, some, List, [], ◌∷◌, map}
use gleanflow.Prelude.Dict.{Dict, get, get_or, update}
use gleanflow.Json.{Json, str, as_str, ◌>>=◌}
use gleanflow.Store.Listing.{sorted_by}
use gleanflow.Tracker.{StageEntry, Tracker, tally}

-- One stage of a snapshot; its tasks have their key among their entries.
pub record StageView (W : Type 0) : Type 0 where
  pub name : String
  pub deps : List String
  pub kind : String
  pub counts : Dict ℕ
  pub tasks : List (Dict (Json W))

module _ {W : Type 0} where
  -- `{"key": k, **v}`
  unfoldable pub keyed : String × Dict (Json W) → Dict (Json W)
  keyed e = update (("key", str e.0) ∷ []) e.1

  -- `x["key"]`
  unfoldable pub key_of_view : Dict (Json W) → String
  key_of_view x = get_or "" (get "key" x >>= as_str)

  unfoldable pub task_views : StageEntry W → List (Dict (Json W))
  task_views st = sorted_by key_of_view (map keyed st.tasks)

  unfoldable pub stage_view : String → StageEntry W → Option (StageView W)
  stage_view name st = do
    counts ← tally (task_views st) []
    some (record {
      name = name;
      deps = st.deps;
      kind = st.kind;
      counts = counts;
      tasks = task_views st;
    })

  -- The stages of `snapshot`, in their order; `none` stands for a KeyError.
  unfoldable pub stage_views : List String → Dict (StageEntry W) → Option (List (StageView W))
  stage_views [] stages = some []
  stage_views (name ∷ order) stages = do
    st ← get name stages
    view ← stage_view name st
    rest ← stage_views order stages
    some (view ∷ rest)

  unfoldable pub snapshot : Tracker W → Option (List (StageView W))
  snapshot t = stage_views t.order t.stages
