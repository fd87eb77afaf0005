-- ===== src/Controller/Stages.antt =====
-- `_run_stage` of controller.py on the local backend; `drain_tasks` is `_drain` on the given tasks.
pub mod Pending
pub mod Done
pub mod Delivered
use gleanflow.Prelude.{
  ℕ, zero, suc, ◌+◌, String, Option, none, some, Bool, true, false, not, ◌&&◌, List, [], ◌∷◌, map,
  length, ltb, if◌then◌else◌,
}
use gleanflow.Prelude.Dict.{Dict}
use gleanflow.Float.{FloatOps}
use gleanflow.Json.{Json, ◌>>=◌}
use gleanflow.Partition.{Chunk, heaviest_first}
use gleanflow.Stage.{Stage, Upstream}
use gleanflow.Task.{Task, skipped}
use gleanflow.Store.{Store}
use gleanflow.Markers.{has_result}
use gleanflow.Queue.Local.{LocalQueue, key_of}
use gleanflow.World.{World, track}
use gleanflow.Controller.Plan.{plan}
use gleanflow.Controller.Remedy.{Run, set_task, queue_task, register_tasks}
use gleanflow.Controller.Drain.{
  Drained, drained, chunks_failed, timed_out, crashed, still_running, add_new,
}

module _ {W : Type 0} where
  -- The task objects that `_plan` makes.
  unfoldable pub make_tasks : List (Task W) → Run W → Run W × List ℕ
  make_tasks [] run = (run, [])
  make_tasks (t ∷ ts) run =
      let r = run.fresh in
      let (after, refs) =
        make_tasks ts (record run { world = set_task r t run.world; fresh = r + 1 }) in
      (after, r ∷ refs)

  -- The loop that skips the tasks whose results are there.
  unfoldable pub pick_pending : Json W → String → Bool → List ℕ → Run W → Run W × List ℕ
  pick_pending now stage force [] run = (run, [])
  pick_pending now stage force (r ∷ rs) run =
      let w = run.world in
      let key = (w.queue.heap r).key in
      let skips =
        pick_pending now stage force rs (record run { world = track now stage key skipped [] w }) in
      let keeps = pick_pending now stage force rs run in
      if not force && has_result w.store key then skips else (keeps.0, r ∷ keeps.1)

  unfoldable pub queue_all : Json W → String → List ℕ → Run W → Run W
  queue_all now stage [] run = run
  queue_all now stage (r ∷ rs) run =
      queue_all now stage rs (record run { world = queue_task now stage r [] run.world })

  unfoldable pub queue_and_drain :
      Json W → String → (Dict ℕ → Run W → Drained W) → List ℕ → Run W → Drained W
  queue_and_drain now stage drain_tasks rs run =
      let run' = queue_all now stage rs run in drain_tasks (add_new run'.world.queue rs []) run'

  -- The smoke test's `_drain` returns, or raises.
  unfoldable pub after_smoke : (Run W → Drained W) → Drained W → Drained W
  after_smoke rest (drained active run) = rest run
  after_smoke rest (chunks_failed run) = chunks_failed run
  after_smoke rest (timed_out run) = timed_out run
  after_smoke rest crashed = crashed
  after_smoke rest still_running = still_running

  -- The tail of `_run_stage`: the heaviest task alone first, as a smoke test.
  unfoldable pub run_pending :
      Json W → String → Bool → (Dict ℕ → Run W → Drained W) → List ℕ → Run W → Drained W
  run_pending now stage smoke drain_tasks [] run = drained [] run
  run_pending now stage smoke drain_tasks (r ∷ rs) run =
      let rest = λ (run' : Run W). queue_and_drain now stage drain_tasks rs run' in
      if smoke && ltb 0 (length rs)
      then after_smoke rest (queue_and_drain now stage drain_tasks (r ∷ []) run)
      else queue_and_drain now stage drain_tasks (r ∷ rs) run

module _ {W : Type 0} ⦃f : FloatOps W⦄ where
  -- The tasks to run, heaviest first.
  unfoldable pub pending_tasks : Json W → String → Bool → List ℕ → Run W → Run W × List ℕ
  pending_tasks now stage force refs run =
      let (after, pending) = pick_pending now stage force refs run in
      (after, heaviest_first (λ r. (after.world.queue.heap r).weight) pending)

-- What raises ends the run.
unfoldable pub or_crash : {W A : Type 0} → (A → Drained W) → Option A → Drained W
or_crash go none = crashed
or_crash go (some a) = go a

module _ {W F : Type 0} ⦃f : FloatOps W⦄ where
  unfoldable pub run_tasks :
      Json W → Stage W F → Bool → Bool → (Dict ℕ → Run W → Drained W) → List ℕ → Run W → Drained W
  run_tasks now st force smoke drain_tasks refs run =
      let (after, pending) = pending_tasks now st.name force refs run in
      run_pending now st.name smoke drain_tasks pending after

  unfoldable pub run_stage :
      Json W
      → Stage W F
      → (Upstream → Option (List (Chunk W)))
      → Bool
      → Bool
      → (Dict ℕ → Run W → Drained W)
      → Run W
      → Drained W
  run_stage now st enumerate force smoke drain_tasks run =
      or_crash
        (λ (p : Store W × List (Task W)).
          let (run1, refs) =
            make_tasks p.1 (record run { world = record run.world { store = p.0 } }) in
          or_crash
            (λ (w : World W).
              run_tasks now st force smoke drain_tasks refs (record run1 { world = w }))
            (register_tasks now st.name (map (λ t. t.key) p.1) run1.world))
        (plan enumerate st run.world.store)
