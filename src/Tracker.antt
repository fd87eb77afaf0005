-- ===== src/Tracker.antt =====
-- gleanflow/tracker.py: the live state of a run. `now` is `time.time()`; a subscriber is known by a
-- number, and `sent` lists the calls that were made; what a subscriber raises is swallowed.
pub mod States
pub mod Counts
pub mod Snapshot
use gleanflow.Prelude.{
  ℕ, zero, suc, ◌+◌, ◌-◌, String, Option, none, some, Bool, true, false, List, [], ◌∷◌, ◌++◌, map,
  length, drop, ltb, nat_beq, if◌then◌else◌,
}
use gleanflow.Prelude.Dict.{Dict, get, has, put, setdefault, get_or, update, values}
use gleanflow.Json.{Json, str, as_str, ◌>>=◌}
use gleanflow.Task.{pending, value}

pub record StageEntry (W : Type 0) : Type 0 where
  pub deps : List String
  pub kind : String
  pub tasks : Dict (Dict (Json W))

pub record Event (W : Type 0) : Type 0 where
  pub ts : Json W
  pub stage : String
  pub key : String
  pub state : String

pub record Tracker (W : Type 0) : Type 0 where
  pub stages : Dict (StageEntry W)
  pub order : List String
  pub events : List (Event W)
  pub subs : List ℕ
  pub sent : List (ℕ × Dict (Json W))

-- `events[-n:]`
unfoldable pub keep_last {ℓ} : {A : Type ℓ} → ℕ → List A → List A
keep_last n xs = drop (length xs - n) xs

-- `subs.remove(fn) if fn in subs`
unfoldable pub remove_first : ℕ → List ℕ → List ℕ
remove_first i [] = []
remove_first i (j ∷ js) = let rest = remove_first i js in if nat_beq j i then js else j ∷ rest

module _ {W : Type 0} where
  unfoldable pub subscribe : ℕ → Tracker W → Tracker W
  subscribe i t = record t { subs = t.subs ++ i ∷ [] }

  unfoldable pub unsubscribe : ℕ → Tracker W → Tracker W
  unsubscribe i t = record t { subs = remove_first i t.subs }

  unfoldable pub emit : Dict (Json W) → Tracker W → Tracker W
  emit event t = record t { sent = t.sent ++ map (λ i. (i, event)) t.subs }

  unfoldable pub add_stage : String → List String → String → Tracker W → Tracker W
  add_stage name deps kind t = if has name t.stages then t else record t {
    stages = put name (record { deps = deps; kind = kind; tasks = [] }) t.stages;
    order = t.order ++ name ∷ [];
  }

  -- `tasks.setdefault(k, {...})` for each key
  unfoldable pub default_tasks : Json W → List String → Dict (Dict (Json W)) → Dict (Dict (Json W))
  default_tasks now [] tasks = tasks
  default_tasks now (k ∷ ks) tasks =
      default_tasks now ks (setdefault k (("state", str (value pending)) ∷ ("ts", now) ∷ []) tasks)

  -- `none` where the stage is unknown (KeyError)
  unfoldable pub set_tasks : Json W → String → List String → Tracker W → Option (Tracker W)
  set_tasks now stage keys t = do
    entry ← get stage t.stages
    some (record t {
      stages = put stage (record entry { tasks = default_tasks now keys entry.tasks }) t.stages;
    })

  -- A task's entry with its new state and `info`.
  unfoldable pub changed : Json W → String → Dict (Json W) → Dict (Json W) → Dict (Json W)
  changed now s info task = update (put "ts" now (put "state" (str s) task)) info

  -- `{k: info[k] for k in (...) if k in info}`
  unfoldable pub selected : List String → Dict (Json W) → Dict (Json W)
  selected [] info = []
  selected (k ∷ ks) info = elim (get k info) [
    | none ↦ selected ks info
    | some v ↦ (k, v) ∷ selected ks info
  ]

  unfoldable pub log_event : Event W → List (Event W) → List (Event W)
  log_event e events =
      let grown = events ++ e ∷ [] in
      if ltb 5000 (length grown) then keep_last 2000 grown else grown

  abbrev pub no_entry : StageEntry W
  no_entry = record { deps = []; kind = "stage"; tasks = [] }

  -- `info` is empty where the source passes `None`.
  unfoldable pub set_state :
      Json W → String → String → String → Dict (Json W) → Tracker W → Tracker W
  set_state now stage key s info t =
      let entry = get_or no_entry (get stage t.stages) in
      let task = get_or [] (get key entry.tasks) in
      let tasks = put key (changed now s info task) entry.tasks in
      let event =
        update
          (("type", str "task")
            ∷ ("stage", str stage)
            ∷ ("key", str key)
            ∷ ("state", str s)
            ∷ ("ts", now)
            ∷ [])
          (selected ("peak_mem_mb" ∷ "error" ∷ []) info) in
      emit event (record t {
        stages = put stage (record entry { tasks = tasks }) t.stages;
        events = log_event (record { ts = now; stage = stage; key = key; state = s }) t.events;
      })

  -- `t["state"]`
  unfoldable pub state_of : Dict (Json W) → Option String
  state_of task = do v ← get "state" task; as_str v

  unfoldable pub tally : List (Dict (Json W)) → Dict ℕ → Option (Dict ℕ)
  tally [] c = some c
  tally (task ∷ tasks) c = do s ← state_of task; tally tasks (put s (get_or 0 (get s c) + 1) c)

  -- `none` where a task has no state (KeyError)
  unfoldable pub counts : String → Tracker W → Option (Dict ℕ)
  counts stage t = tally (values (get_or no_entry (get stage t.stages)).tasks) []
