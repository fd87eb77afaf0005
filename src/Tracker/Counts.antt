-- ===== src/Tracker/Counts.antt =====
-- `counts` of tracker.py.
use gleanflow.Prelude.{
  ℕ, ◌+◌, ◌≡◌, refl, ◌∙◌, String, none, some, List, [], ◌∷◌, All, arith, ◌==◌, eq_iff,
  if◌then◌else◌,
}
use gleanflow.Prelude.Dict.{Dict, get, get-put, put, get_or, values}
use gleanflow.Json.{Json}
use gleanflow.Tracker.{Tracker, state_of, tally, counts, no_entry}

module _ {W : Type 0} where
  -- the number of tasks in the state
  abbrev pub number : String → List (Dict (Json W)) → ℕ
  number s [] = 0
  number s (task ∷ tasks) =
      elim (state_of task) [ none ↦ 0 | some r ↦ if r == s then 1 else 0 ] + number s tasks

  abbrev pub HasState : Dict (Json W) → Type 0
  HasState task = (s : String) × (state_of task ≡ some s)

  tally_lem :
      (tasks : List (Dict (Json W))) (c : Dict ℕ)
      → All HasState tasks
      → (c' : Dict ℕ) × (tally tasks c ≡ some c')
        × ((s : String) → get_or 0 (get s c') ≡ get_or 0 (get s c) + number s tasks)
  unfolding tally
  tally_lem [] c h = (c, refl, λ s. omega arith)
  tally_lem (task ∷ tasks) c h =
      let (r, e) = h.0 in
      let (c', done, counted) = tally_lem tasks (put r (get_or 0 (get r c) + 1) c) h.1 in
      (
        c',
        rw e done,
        λ s. counted s ∙ rw (get-put, e) (unfold get_or in ground (arith, eq_iff r s)),
      )

  -- Where every task of the stage has a state, `counts` answers, and the number that it gives for
  -- a state (0 for one that it leaves out) is the number of the stage's tasks in that state.
  pub counts_lem :
      (stage : String) (t : Tracker W)
      → All HasState (values (get_or no_entry (get stage t.stages)).tasks)
      → (c : Dict ℕ) × (counts stage t ≡ some c)
        × ((s : String)
            → get_or 0 (get s c) ≡ number s (values (get_or no_entry (get stage t.stages)).tasks))
  unfolding counts
  counts_lem stage t h =
      let (c, done, counted) =
        tally_lem (values (get_or no_entry (get stage t.stages)).tasks) [] h in
      (c, done, λ s. counted s ∙ (unfold get get_or in omega arith))
