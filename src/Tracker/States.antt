-- ===== src/Tracker/States.antt =====
-- The states that tracker.py holds after its updates, and its event log.
use gleanflow.Prelude.{
  ◌-◌, ◌≤◌, ◌≡◌, String, some, List, [], ◌∷◌, ◌++◌, length, length-append, length-drop, arith, ◌==◌,
  eq_iff, eq_refl, Bool-cases, inl, inr, if◌then◌else◌,
}
use gleanflow.Prelude.Dict.{Dict, get, get-put, get-setdefault, get_or}
use gleanflow.Json.{Json}
use gleanflow.Tracker.{
  Tracker, StageEntry, Event, keep_last, no_entry, emit, changed, log_event, set_state, set_tasks,
  default_tasks,
}

module _ {W : Type 0} where
  -- The entry of a task, empty if there is none.
  abbrev pub task_entry : String → String → Tracker W → Dict (Json W)
  task_entry stage key t = get_or [] (get key (get_or no_entry (get stage t.stages)).tasks)

  -- `set_state` changes the entry of its task and no other.
  pub task_entry-set_state :
      (now : Json W) (stage key s : String) (info : Dict (Json W)) (t : Tracker W)
      (stage' key' : String)
      → task_entry stage' key' (set_state now stage key s info t) ≡ (
          if stage == stage'
          then if key == key'
            then changed now s info (task_entry stage key t)
            else task_entry stage' key' t
          else task_entry stage' key' t)
  unfolding set_state emit get_or
  task_entry-set_state now stage key s info t stage' key' =
      rw get-put (elim (Bool-cases (stage == stage')) [
        | inl here ↦
            rw (here, get-put) (ground (arith, eq_iff key key', (eq_iff stage stage').0 here))
        | inr there ↦ rw there
      ])

  pub length-log_event :
      (e : Event W) (events : List (Event W))
      → length events ≤ 5000
      → length (log_event e events) ≤ 5000
  unfolding log_event keep_last
  length-log_event e events h =
      let grown = events ++ e ∷ [] in
      ground (arith, length-append events (e ∷ []), length-drop (length grown - 2000) grown)

  -- However many transitions a tracker with at most 5000 events logs, it keeps at most 5000.
  pub events-set_state_bound :
      (now : Json W) (stage key s : String) (info : Dict (Json W)) (t : Tracker W)
      → length t.events ≤ 5000
      → length (set_state now stage key s info t).events ≤ 5000
  unfolding set_state emit
  events-set_state_bound now stage key s info t h =
      length-log_event (record { ts = now; stage = stage; key = key; state = s }) t.events h

  -- `set_tasks` adds pending entries for the keys that have none, and keeps every entry there is.
  default_tasks_lem :
      (now : Json W) (ks : List String) (k : String) (tasks : Dict (Dict (Json W)))
      (task : Dict (Json W))
      → get k tasks ≡ some task
      → get k (default_tasks now ks tasks) ≡ some task
  unfolding default_tasks
  default_tasks_lem now [] k tasks task h = h
  default_tasks_lem now (j ∷ ks) k tasks task h =
      default_tasks_lem now ks k _ task
        (rw get-setdefault (unfold get_or in ground (arith, eq_iff j k)))

  pub set_tasks-keeps :
      (now : Json W) (stage key : String) (ks : List String) (t t' : Tracker W)
      (entry : StageEntry W) (task : Dict (Json W))
      → get stage t.stages ≡ some entry
      → get key entry.tasks ≡ some task
      → set_tasks now stage ks t ≡ some t'
      → task_entry stage key t' ≡ task
  unfolding set_tasks get_or
  set_tasks-keeps now stage key ks t t' entry task h hk e =
      let kept = default_tasks_lem now ks key entry.tasks task hk in
      ground (
        arith,
        get-put stage stage (record entry { tasks = default_tasks now ks entry.tasks }) t.stages,
        eq_refl stage,
      )
