-- ===== src/Controller/Stages/Pending.antt =====
-- Which tasks `_run_stage` of controller.py runs, and in which order.
use gleanflow.Prelude.{
  ℕ, ◌≡◌, refl, ap, ◌∙◌, String, Bool, not, ◌&&◌, List, [], ◌∷◌, filter, Bool-cases, inl, inr,
}
use mathlib.Core.List.{Perm}
use mathlib.Core.Path.{subst}
use gleanflow.Float.{FloatOps, IsOrdered}
use gleanflow.Json.{Json}
use gleanflow.Task.{skipped}
use gleanflow.Store.{Store}
use gleanflow.Markers.{has_result}
use gleanflow.Partition.{heaviest_first}
use gleanflow.Partition.Heaviest.{IsHeaviestFirst, heaviest_first_sorts}
use gleanflow.Queue.Local.{LocalQueue, key_of}
use gleanflow.World.{track}
use gleanflow.Worker.Outcomes.{store-track, queue-track}
use gleanflow.Controller.Remedy.{Run}
use gleanflow.Controller.Stages.{pick_pending, pending_tasks}

module _ {W : Type 0} where
  -- The task has to run: it is forced, or has no result.
  abbrev pub must_run : Bool → Store W → LocalQueue W → ℕ → Bool
  must_run force store q r = not (not force && has_result store (key_of q r))

  pub record Picked (force : Bool) (refs : List ℕ) (run run' : Run W) (pending : List ℕ)
      : Type 0 where
    pub chosen : pending ≡ filter (must_run force run.world.store run.world.queue) refs
    pub queue : run'.world.queue ≡ run.world.queue
    pub store : run'.world.store ≡ run.world.store

  pub pick_pending_lem :
      (now : Json W) (stage : String) (force : Bool) (refs : List ℕ) (run : Run W)
      → Picked force refs run
          (pick_pending now stage force refs run).0
          (pick_pending now stage force refs run).1
  unfolding pick_pending
  pick_pending_lem now stage force [] run = record { chosen = refl; queue = refl; store = refl }
  pick_pending_lem now stage force (r ∷ rs) run =
      let w = run.world in
      let key = key_of w.queue r in
      let run1 = record run { world = track now stage key skipped [] w } in
      let same_queue : run1.world.queue ≡ w.queue = queue-track now stage key skipped [] w in
      let same_store : run1.world.store ≡ w.store = store-track now stage key skipped [] w in
      elim (Bool-cases (not force && has_result w.store key)) [
        | inl done ↦
            let rest = pick_pending_lem now stage force rs run1 in
            rw done (record {
              chosen = rest.chosen ∙ rw (same_queue, same_store, done);
              queue = rest.queue ∙ same_queue;
              store = rest.store ∙ same_store;
            })
        | inr runs ↦
            let rest = pick_pending_lem now stage force rs run in
            rw runs (record {
              chosen = ap (◌∷◌ r) rest.chosen ∙ rw runs;
              queue = rest.queue;
              store = rest.store;
            })
      ]

-- The tasks that a stage runs are those that are forced or have no result, in an order in which no
-- task stands before a heavier one; skipping the others changes neither the queue nor the store.
pub pending_tasks_lem :
    {W : Type 0} ⦃f : FloatOps W⦄ (o : IsOrdered f) (now : Json W) (stage : String) (force : Bool)
    (refs : List ℕ) (run : Run W)
    → let answer = pending_tasks now stage force refs run in
      Perm answer.1 (filter (must_run force run.world.store run.world.queue) refs)
      × IsHeaviestFirst (λ r. (run.world.queue.heap r).weight) answer.1
      × (answer.0.world.queue ≡ run.world.queue)
      × (answer.0.world.store ≡ run.world.store)
unfolding pending_tasks
pending_tasks_lem o now stage force refs run =
    let after = (pick_pending now stage force refs run).0 in
    let pending = (pick_pending now stage force refs run).1 in
    let p = pick_pending_lem now stage force refs run in
    let weight = λ (q : LocalQueue _) (r : ℕ). (q.heap r).weight in
    let sorted = heaviest_first_sorts (weight after.world.queue) o pending in
    (
      subst (λ xs. Perm (heaviest_first (weight after.world.queue) pending) xs) p.chosen sorted.0,
      subst (λ q. IsHeaviestFirst (weight q) (heaviest_first (weight after.world.queue) pending))
          p.queue sorted.1,
      p.queue,
      p.store,
    )
