-- ===== src/Controller/Stages/Delivered.antt =====
-- What `_run_stage` of controller.py leaves in the store when it returns.
use gleanflow.Prelude.{
  ℕ, ◌+◌, ◌<◌, ◌≡◌, refl, sym, ◌∙◌, ap, String, Option, none, some, Bool, true, false, List, [],
  ◌∷◌, All, map, nat_beq, nat_beq_refl, arith, Option-cases, inl, inr,
}
use mathlib.Core.Path.{subst}
use gleanflow.Prelude.Dict.{Dict, has-put}
use gleanflow.Float.{FloatOps}
use gleanflow.Json.{Json}
use gleanflow.Partition.{Chunk}
use gleanflow.Stage.{Stage, Upstream}
use gleanflow.Task.{Task}
use gleanflow.Store.{Store}
use gleanflow.Markers.{has_result}
use gleanflow.Queue.Local.{key_of}
use gleanflow.World.{World}
use gleanflow.Tracker.{set_tasks}
use gleanflow.Controller.Steps.{bind_some, some_inj}
use gleanflow.Controller.Plan.{upstream_chunks, stage_chunks, plan}
use gleanflow.Controller.Remedy.{Run, set_task, register_tasks}
use gleanflow.Controller.Drain.{Drained, drained, chunks_failed, timed_out, crashed, still_running}
use gleanflow.Controller.Drain.Waits.{Waited}
use gleanflow.Controller.Stages.{make_tasks, run_tasks, run_stage, or_crash}
use gleanflow.Controller.Stages.Done.{RanAll, run_tasks-RanAll}

pub or_crash_all :
    {W A : Type 0} (P : Drained W → Type 0) (go : A → Drained W) (o : Option A)
    → P crashed
    → ((a : A) → o ≡ some a → P (go a))
    → P (or_crash go o)
unfolding or_crash
or_crash_all P go none c h = c
or_crash_all P go (some a) c h = h a refl

module _ {W : Type 0} where
  -- New task objects leave the older ones as they are.
  make_tasks_below :
      (ts : List (Task W)) (run : Run W) (s : ℕ)
      → s < run.fresh
      → (make_tasks ts run).0.world.queue.heap s ≡ run.world.queue.heap s
  unfolding make_tasks set_task
  make_tasks_below [] run s h = refl
  make_tasks_below (t ∷ ts) run s h =
      let r = run.fresh in
      let run1 = record run { world = set_task r t run.world; fresh = r + 1 } in
      let other : nat_beq r s ≡ false = ground arith in
      make_tasks_below ts run1 s (omega arith) ∙ rw other

  make_tasks-store :
      (ts : List (Task W)) (run : Run W) → (make_tasks ts run).0.world.store ≡ run.world.store
  unfolding make_tasks set_task
  make_tasks-store [] run = refl
  make_tasks-store (t ∷ ts) run =
      let r = run.fresh in
      make_tasks-store ts (record run { world = set_task r t run.world; fresh = r + 1 })

  -- What holds of the keys of the new objects holds of the tasks.
  All-make_tasks :
      (P : String → Type 0) (ts : List (Task W)) (run : Run W)
      → All (λ r. P (key_of (make_tasks ts run).0.world.queue r)) (make_tasks ts run).1
      → All (λ t. P t.key) ts
  unfolding make_tasks set_task
  All-make_tasks P [] run a = tt
  All-make_tasks P (t ∷ ts) run a =
      let r = run.fresh in
      let run1 = record run { world = set_task r t run.world; fresh = r + 1 } in
      let here : (make_tasks ts run1).0.world.queue.heap r ≡ t =
        make_tasks_below ts run1 r (omega arith) ∙ rw nat_beq_refl in
      (subst (λ (u : Task W). P u.key) here a.0, All-make_tasks P ts run1 a.1)

  register_tasks_keeps :
      (now : Json W) (stage : String) (keys : List String) (w w' : World W)
      → register_tasks now stage keys w ≡ some w'
      → (w'.store ≡ w.store) × (w'.queue ≡ w.queue)
  unfolding register_tasks
  register_tasks_keeps now stage keys w w' e = elim (Option-cases w.tracker) [
    | inl without ↦
        let same : w ≡ w' = some_inj (rw (without, register_tasks) at e) in
        (ap (λ v. v.store) (sym same), ap (λ v. v.queue) (sym same))
    | inr (t, with) ↦
        let (t', _, e') =
          bind_some (set_tasks now stage keys t) (λ t'. some (record w { tracker = some t' })) w'
            (rw (with, register_tasks) at e) in
        let same = some_inj e' in (ap (λ v. v.store) (sym same), ap (λ v. v.queue) (sym same))
  ]

module _ {W F : Type 0} ⦃f : FloatOps W⦄ (enumerate : Upstream → Option (List (Chunk W)))
    (st : Stage W F) where
  plan_keeps :
      (before after : Store W) (tasks : List (Task W))
      → plan enumerate st before ≡ some (after, tasks)
      → (k : String) → has_result before k ≡ true
      → has_result after k ≡ true
  unfolding plan has_result
  plan_keeps before after tasks e k h =
      let (members, _, e1) = bind_some (upstream_chunks enumerate before st) _ (after, tasks) e in
      let (chunks, _, e2) = bind_some (stage_chunks st members) _ (after, tasks) e1 in
      let written = ap (λ (p : Store W × List (Task W)). p.0) (some_inj e2) in
      subst (λ s. has_result s k ≡ true) written (rw (has-put, h) (ground arith))

  -- The stage that began with the store `before` returned with a result for each task that `_plan`
  -- made of it, and kept what was there.
  abbrev pub Delivered : Store W → Drained W → Type 0
  Delivered before (drained active run) =
      (after : Store W) × (tasks : List (Task W)) × (plan enumerate st before ≡ some (after, tasks))
      × All (λ t. has_result run.world.store t.key ≡ true) tasks
      × ((k : String) → has_result before k ≡ true → has_result run.world.store k ≡ true)
  Delivered before _ = Unit

  delivered :
      (before after : Store W) (tasks : List (Task W)) (run : Run W) (w : World W) (d : Drained W)
      → plan enumerate st before ≡ some (after, tasks)
      → run.world.store ≡ after
      → w.store ≡ (make_tasks tasks run).0.world.store
      → w.queue ≡ (make_tasks tasks run).0.world.queue
      → RanAll (make_tasks tasks run).1 w d
      → Delivered before d
  delivered before after tasks run w (drained active end) planned same store queue (done, kept) =
      let refs = (make_tasks tasks run).1 in
      let P = λ (k : String). has_result end.world.store k ≡ true in
      let began : w.store ≡ after = store ∙ make_tasks-store tasks run ∙ same in
      (
        after,
        tasks,
        planned,
        All-make_tasks P tasks run (subst (λ q. All (λ r. P (key_of q r)) refs) queue done),
        λ k h. kept.results k (
            subst (λ s. has_result s k ≡ true) (sym began)
              (plan_keeps before after tasks planned k h)),
      )
  delivered before after tasks run w (chunks_failed end) planned same store queue h = tt
  delivered before after tasks run w (timed_out end) planned same store queue h = tt
  delivered before after tasks run w crashed planned same store queue h = tt
  delivered before after tasks run w still_running planned same store queue h = tt

  -- Where each of its drains waits for its tasks, a stage that returns has delivered them.
  pub run_stage-Delivered :
      (now : Json W) (force smoke : Bool) (drain_tasks : Dict ℕ → Run W → Drained W) (run : Run W)
      → ((tasks : Dict ℕ) (run : Run W) → Waited tasks run.world (drain_tasks tasks run))
      → Delivered run.world.store (run_stage now st enumerate force smoke drain_tasks run)
  unfolding run_stage
  run_stage-Delivered now force smoke drain_tasks run waits =
      let before = run.world.store in
      or_crash_all (Delivered before) _ (plan enumerate st before) tt (λ p planned.
        let run0 = record run { world = record run.world { store = p.0 } } in
        let run1 = (make_tasks p.1 run0).0 in
        let refs = (make_tasks p.1 run0).1 in
        or_crash_all (Delivered before) _
          (register_tasks now st.name (map (λ t. t.key) p.1) run1.world) tt
          (λ w registered.
            let (store, queue) =
              register_tasks_keeps now st.name (map (λ t. t.key) p.1) run1.world w registered in
            delivered before p.0 p.1 run0 w
              (run_tasks now st force smoke drain_tasks refs (record run1 { world = w })) planned
              refl store queue
              (run_tasks-RanAll now st force smoke drain_tasks refs (record run1 { world = w })
                waits)))
