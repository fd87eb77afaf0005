-- ===== src/Task.antt =====
-- gleanflow/task.py: the unit on the task plane, and its queue message.
pub mod Message
use gleanflow.Prelude.{ℕ, String, Option, none, some, [], ◌∷◌}
use gleanflow.Prelude.Dict.{Dict, get}
use gleanflow.Float.{FloatOps}
use gleanflow.Json.{
  Json, int, float, str, object, as_str, as_nat, as_dict, as_float, required, optional, ◌>>=◌,
}

pub data TaskState : Type 0 where
  pending queued running success failed skipped : TaskState

-- `TaskState.value`
unfoldable pub value : TaskState → String
value pending = "pending"
value queued = "queued"
value running = "running"
value success = "success"
value failed = "failed"
value skipped = "skipped"

pub record Task (W : Type 0) : Type 0 where
  pub stage : String
  pub key : String
  pub params : Dict (Json W)
  pub weight : W
  pub attempt : ℕ

module _ {W : Type 0} where
  -- `to_json`, before the text is printed
  unfoldable pub to_json : Task W → Json W
  to_json t = object (
      ("stage", str t.stage)
      ∷ ("key", str t.key)
      ∷ ("params", object t.params)
      ∷ ("weight", float t.weight)
      ∷ ("attempt", int t.attempt)
      ∷ [])

  -- `from_json`, after the text is read; `none` where Python raises on a missing or ill-typed entry
  unfoldable pub from_json : ⦃f : FloatOps W⦄ → Json W → Option (Task W)
  from_json ⦃f⦄ j = do
    d ← as_dict j
    stage ← required as_str "stage" d
    key ← required as_str "key" d
    params ← optional as_dict "params" [] d
    weight ← optional as_float "weight" f.fone d
    attempt ← optional as_nat "attempt" 0 d
    some (record { stage = stage; key = key; params = params; weight = weight; attempt = attempt })
