-- ===== src/Controller/Stages/Done.antt =====
-- A stage of controller.py that returns has a result for each of its tasks.
use gleanflow.Prelude.{
  ℕ, ◌≡◌, sym, ◌∙◌, ap, String, Bool, true, false, ◌&&◌, List, [], ◌∷◌, All, All-map_imp, filter,
  length, ltb, arith, Bool-cases, inl, inr,
}
use mathlib.Core.Path.{subst}
use gleanflow.Prelude.Dict.{Dict}
use gleanflow.Float.{FloatOps}
use gleanflow.Json.{Json}
use gleanflow.Stage.{Stage}
use gleanflow.Task.{queued}
use gleanflow.Markers.{has_result}
use gleanflow.Partition.{insert_heavy, heaviest_first}
use gleanflow.Queue.Local.{key_of, enqueue}
use gleanflow.World.{World}
use gleanflow.World.Kept.{Keeps, Keeps-refl, Keeps-trans}
use gleanflow.Worker.Outcomes.{store-track, queue-track}
use gleanflow.Controller.Remedy.{Run, queue_task}
use gleanflow.Controller.Drain.{
  Drained, drained, chunks_failed, timed_out, crashed, still_running, add_new,
}
use gleanflow.Controller.Drain.Waits.{Waited, All-add_new}
use gleanflow.Controller.Stages.{
  pick_pending, pending_tasks, queue_all, queue_and_drain, after_smoke, run_pending, run_tasks,
}
use gleanflow.Controller.Stages.Pending.{must_run, Picked, pick_pending_lem}

-- What holds of all that a filter keeps, and of all that it drops, holds of all.
All-of_filter {ℓ} :
    {A : Type ℓ} (P : A → Type 0) (p : A → Bool) (xs : List A)
    → ((x : A) → p x ≡ false → P x)
    → All P (filter p xs)
    → All P xs
All-of_filter P p [] h a = tt
All-of_filter P p (x ∷ xs) h a = elim (Bool-cases (p x)) [
  | inl kept ↦
      let a' : P x × All P (filter p xs) = rw kept at a in (a'.0, All-of_filter P p xs h a'.1)
  | inr dropped ↦ (h x dropped, All-of_filter P p xs h (rw dropped at a))
]

module _ {W A : Type 0} ⦃f : FloatOps W⦄ (weight : A → W) (P : A → Type 0) where
  All-insert_heavy : (x : A) (ys : List A) → All P (insert_heavy weight x ys) → P x × All P ys
  unfolding insert_heavy
  All-insert_heavy x [] a = a
  All-insert_heavy x (y ∷ ys) a = elim (Bool-cases (f.lt (weight x) (weight y))) [
    | inl lighter ↦
        let a' : P y × All P (insert_heavy weight x ys) = rw lighter at a in
        let (px, pys) = All-insert_heavy x ys a'.1 in (px, (a'.0, pys))
    | inr heavier ↦ rw heavier at a
  ]

  All-heaviest_first : (xs : List A) → All P (heaviest_first weight xs) → All P xs
  unfolding heaviest_first
  All-heaviest_first [] a = tt
  All-heaviest_first (x ∷ xs) a =
      let (px, rest) = All-insert_heavy x (heaviest_first weight xs) a in
      (px, All-heaviest_first xs rest)

module _ {W : Type 0} where
  -- The run that began at `w` returned with a result for each of the tasks, and kept what was there.
  abbrev pub RanAll : List ℕ → World W → Drained W → Type 0
  RanAll rs w (drained active run) =
      All (λ r. has_result run.world.store (key_of w.queue r) ≡ true) rs × Keeps w run.world
  RanAll rs w _ = Unit

  queue_task-Keeps :
      (now : Json W) (stage : String) (r : ℕ) (info : Dict (Json W)) (w : World W)
      → Keeps w (queue_task now stage r info w)
  unfolding queue_task enqueue
  queue_task-Keeps now stage r info w =
      let w' = record w { queue = enqueue r w.queue } in
      let key = (w.queue.heap r).key in
      record {
        results = λ k h. rw store-track h;
        names = λ s. ap (λ q. key_of q s) (queue-track now stage key queued info w');
      }

  queue_all-Keeps :
      (now : Json W) (stage : String) (rs : List ℕ) (run : Run W)
      → Keeps run.world (queue_all now stage rs run).world
  unfolding queue_all
  queue_all-Keeps now stage [] run = Keeps-refl run.world
  queue_all-Keeps now stage (r ∷ rs) run =
      Keeps-trans (queue_task-Keeps now stage r [] run.world)
        (queue_all-Keeps now stage rs (record run { world = queue_task now stage r [] run.world }))

  Waited-RanAll :
      (rs : List ℕ) (w w' : World W) (d : Drained W)
      → Keeps w w'
      → Waited (add_new w'.queue rs []) w' d
      → RanAll rs w d
  Waited-RanAll rs w w' (drained active run) kept (done, rest) = (
    All-map_imp rs (λ r h. subst (λ k. has_result run.world.store k ≡ true) (kept.names r) h)
        (All-add_new w'.queue (λ k. has_result run.world.store k ≡ true) rs done),
    Keeps-trans kept rest,
  )
  Waited-RanAll rs w w' (chunks_failed run) kept h = tt
  Waited-RanAll rs w w' (timed_out run) kept h = tt
  Waited-RanAll rs w w' crashed kept h = tt
  Waited-RanAll rs w w' still_running kept h = tt

  RanAll-cons :
      (r : ℕ) (rs : List ℕ) (w w' : World W) (d : Drained W)
      → Keeps w w'
      → has_result w'.store (key_of w.queue r) ≡ true
      → RanAll rs w' d
      → RanAll (r ∷ rs) w d
  RanAll-cons r rs w w' (drained active run) kept first (done, rest) = (
    (
      rest.results (key_of w.queue r) first,
      All-map_imp rs (λ s h. subst (λ k. has_result run.world.store k ≡ true) (kept.names s) h)
          done,
    ),
    Keeps-trans kept rest,
  )
  RanAll-cons r rs w w' (chunks_failed run) kept first h = tt
  RanAll-cons r rs w w' (timed_out run) kept first h = tt
  RanAll-cons r rs w w' crashed kept first h = tt
  RanAll-cons r rs w w' still_running kept first h = tt

  after_smoke-RanAll :
      (r : ℕ) (rs : List ℕ) (w : World W) (rest : Run W → Drained W) (d : Drained W)
      → ((run : Run W) → RanAll rs run.world (rest run))
      → RanAll (r ∷ []) w d
      → RanAll (r ∷ rs) w (after_smoke rest d)
  unfolding after_smoke
  after_smoke-RanAll r rs w rest (drained active run) go (done, kept) =
      RanAll-cons r rs w run.world (rest run) kept done.0 (go run)
  after_smoke-RanAll r rs w rest (chunks_failed run) go h = tt
  after_smoke-RanAll r rs w rest (timed_out run) go h = tt
  after_smoke-RanAll r rs w rest crashed go h = tt
  after_smoke-RanAll r rs w rest still_running go h = tt

  -- The tasks left out had a result.
  RanAll-Picked :
      (force : Bool) (refs pending : List ℕ) (run after : Run W) (d : Drained W)
      → Picked force refs run after pending
      → RanAll pending after.world d
      → RanAll refs run.world d
  RanAll-Picked force refs pending run after (drained active end) p (done, kept) =
      let q = run.world.queue in
      let P = λ (r : ℕ). has_result end.world.store (key_of q r) ≡ true in
      let keeps : Keeps run.world end.world = record {
        results = λ k h. kept.results k (subst (λ s. has_result s k ≡ true) (sym p.store) h);
        names = λ r. kept.names r ∙ ap (λ q. key_of q r) p.queue;
      } in
      (
        All-of_filter P (must_run force run.world.store q) refs
            (λ r skipped. keeps.results (key_of q r) (ground arith))
            (subst (All P) p.chosen (
              subst (λ q. All (λ r. has_result end.world.store (key_of q r) ≡ true) pending) p.queue
                done)),
        keeps,
      )
  RanAll-Picked force refs pending run after (chunks_failed end) p h = tt
  RanAll-Picked force refs pending run after (timed_out end) p h = tt
  RanAll-Picked force refs pending run after crashed p h = tt
  RanAll-Picked force refs pending run after still_running p h = tt

  module _ (now : Json W) (stage : String) (drain_tasks : Dict ℕ → Run W → Drained W)
      (waits : (tasks : Dict ℕ) (run : Run W)
        → Waited tasks run.world (drain_tasks tasks run)) where
    queue_and_drain-RanAll :
        (rs : List ℕ) (run : Run W)
        → RanAll rs run.world (queue_and_drain now stage drain_tasks rs run)
    unfolding queue_and_drain
    queue_and_drain-RanAll rs run =
        let run' = queue_all now stage rs run in
        let tasks = add_new run'.world.queue rs [] in
        Waited-RanAll rs run.world run'.world (drain_tasks tasks run')
          (queue_all-Keeps now stage rs run) (waits tasks run')

    pub run_pending-RanAll :
        (smoke : Bool) (rs : List ℕ) (run : Run W)
        → RanAll rs run.world (run_pending now stage smoke drain_tasks rs run)
    unfolding run_pending
    run_pending-RanAll smoke [] run = (tt, Keeps-refl run.world)
    run_pending-RanAll smoke (r ∷ rs) run = elim (Bool-cases (smoke && ltb 0 (length rs))) [
      | inl alone ↦ rw alone (
          after_smoke-RanAll r rs run.world (queue_and_drain now stage drain_tasks rs)
            (queue_and_drain now stage drain_tasks (r ∷ []) run) (queue_and_drain-RanAll rs)
            (queue_and_drain-RanAll (r ∷ []) run))
      | inr together ↦ rw together (queue_and_drain-RanAll (r ∷ rs) run)
    ]

RanAll-heaviest :
    {W : Type 0} ⦃f : FloatOps W⦄ (weight : ℕ → W) (rs : List ℕ) (w : World W) (d : Drained W)
    → RanAll (heaviest_first weight rs) w d
    → RanAll rs w d
RanAll-heaviest weight rs w (drained active run) (done, kept) = (
  All-heaviest_first weight (λ r. has_result run.world.store (key_of w.queue r) ≡ true) rs done,
  kept,
)
RanAll-heaviest weight rs w (chunks_failed run) h = tt
RanAll-heaviest weight rs w (timed_out run) h = tt
RanAll-heaviest weight rs w crashed h = tt
RanAll-heaviest weight rs w still_running h = tt

-- The tasks that ran, and those that were skipped, have results.
pub run_tasks-RanAll :
    {W F : Type 0} ⦃f : FloatOps W⦄ (now : Json W) (st : Stage W F) (force smoke : Bool)
    (drain_tasks : Dict ℕ → Run W → Drained W) (refs : List ℕ) (run : Run W)
    → ((tasks : Dict ℕ) (run : Run W) → Waited tasks run.world (drain_tasks tasks run))
    → RanAll refs run.world (run_tasks now st force smoke drain_tasks refs run)
unfolding run_tasks pending_tasks
run_tasks-RanAll now st force smoke drain_tasks refs run waits =
    let (after, pending) = pick_pending now st.name force refs run in
    let weight = λ (r : ℕ). (after.world.queue.heap r).weight in
    let d = run_pending now st.name smoke drain_tasks (heaviest_first weight pending) after in
    RanAll-Picked force refs pending run after d (pick_pending_lem now st.name force refs run) (
      RanAll-heaviest weight pending after.world d (
        run_pending-RanAll now st.name drain_tasks waits smoke (heaviest_first weight pending)
          after))
