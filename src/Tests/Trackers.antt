-- ===== src/Tests/Trackers.antt =====
-- A tracker that has seen one stage with two tasks.
use gleanflow.Prelude.{ℕ, ◌≡◌, refl, some, [], ◌∷◌, All}
use gleanflow.Prelude.Dict.{Dict, get, get_or, put, setdefault, values}
use gleanflow.Json.{Json, int, str}
use gleanflow.Task.{value}
use gleanflow.Tracker.{StageEntry, Tracker, state_of, no_entry, set_tasks, default_tasks}
use gleanflow.Tracker.Counts.{HasState}

abbrev time : Json ℕ
time = int 7

abbrev done : Dict (Json ℕ)
done = ("state", str "success") ∷ ("ts", time) ∷ []

abbrev entry : StageEntry ℕ
entry = record {
  deps = [];
  kind = "stage";
  tasks = ("s.a", done) ∷ ("s.b", ("state", str "pending") ∷ []) ∷ [];
}

abbrev seen : Tracker ℕ
seen = record {
  stages = ("s", entry) ∷ [];
  order = "s" ∷ [];
  events = [];
  subs = 1 ∷ [];
  sent = [];
}

stated : All HasState (values (get_or no_entry (get "s" seen.stages)).tasks)
unfolding state_of get_or get
stated = (("success", refl), (("pending", refl), tt))

abbrev grown : Tracker ℕ
grown = record seen {
  stages =
      (
        "s",
        record entry {
          tasks =
              ("s.a", done)
              ∷ ("s.b", ("state", str "pending") ∷ [])
              ∷ ("s.c", ("state", str "pending") ∷ ("ts", time) ∷ [])
              ∷ [];
        },
      )
      ∷ [];
}

seen_s : get "s" seen.stages ≡ some entry
unfolding get
seen_s = refl

seen_a : get "s.a" entry.tasks ≡ some done
unfolding get
seen_a = refl

grows : set_tasks time "s" ("s.a" ∷ "s.c" ∷ []) seen ≡ some grown
unfolding set_tasks default_tasks get put setdefault value
grows = refl
