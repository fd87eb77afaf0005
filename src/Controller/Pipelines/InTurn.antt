-- ===== src/Controller/Pipelines/InTurn.antt =====
-- A run of controller.py that returns has run its stages in turn.
use gleanflow.Prelude.{
  ◌+◌, ◌*◌, ◌≢◌, ℕ, suc, ◌≡◌, refl, sym, ap, String, Option, none, some, Bool, true, false, List,
  [], ◌∷◌, ◌++◌, All, All-append, All-map_imp, map, Option-cases, inl, inr,
}
use mathlib.Core.Path.{subst}
use gleanflow.Prelude.Dict.{Dict}
use gleanflow.Float.{FloatOps}
use gleanflow.Json.{Json, ◌>>=◌}
use gleanflow.Config.{PipelineConfig}
use gleanflow.Partition.{Chunk}
use gleanflow.Stage.{Stage, Upstream}
use gleanflow.Pipeline.{Pipeline, topo_order}
use gleanflow.Task.{Task}
use gleanflow.Store.{Store}
use gleanflow.Markers.{has_result}
use gleanflow.Tracker.{counts, emit}
use gleanflow.Tracker.Snapshot.{StageView, snapshot}
use gleanflow.World.Kept.{Keeps}
use gleanflow.Agent.{Remediation}
use gleanflow.Controller.Steps.{bind_some, some_inj}
use gleanflow.Controller.Plan.{plan}
use gleanflow.Controller.Remedy.{Run}
use gleanflow.Controller.Failures.{is_remediate}
use gleanflow.Controller.Drain.{Drained, drained, chunks_failed, timed_out, crashed, still_running}
use gleanflow.Controller.Drain.Waits.{drain-Waited}
use gleanflow.Controller.Stages.Delivered.{or_crash_all, Delivered, run_stage-Delivered}
use gleanflow.Controller.Pipelines.{
  finished, raised, Schedule, with_tracker, tracker_of, announce_done, after_stage, run_done,
  with_views, run_order, end_run, register_stages, run_stages, run_pipeline, drain_within, run_one,
}

module _ {W : Type 0} where
  abbrev pub HasResults : Store W → List String → Type 0
  HasResults store ks = All (λ k. has_result store k ≡ true) ks

  abbrev Grows : Store W → Store W → Type 0
  Grows s t = (k : String) → has_result s k ≡ true → has_result t k ≡ true

  not_raised :
      (d : Drained W) (views : List (StageView W)) (run : Run W) → raised d ≢ finished views run
  not_raised d views run e = cc

  announce_done-store :
      (now : Json W) (name : String) (run run' : Run W)
      → announce_done now name run ≡ some run'
      → run'.world.store ≡ run.world.store
  unfolding announce_done with_tracker
  announce_done-store now name run run' e =
      let (t, _, e1) = bind_some (tracker_of run) _ run' e in
      let (c, _, e2) = bind_some (counts name t) _ run' e1 in
      ap (λ (r : Run W). r.world.store) (sym (some_inj e2))

  views_run :
      (o : Option (List (StageView W))) (views : List (StageView W)) (run run' : Run W)
      → with_views o run ≡ finished views run'
      → run ≡ run'
  unfolding with_views
  views_run none views run run' e = cc
  views_run (some v) views run run' e = cc

  All-keys :
      (store : Store W) (tasks : List (Task W))
      → All (λ t. has_result store t.key ≡ true) tasks
      → HasResults store (map (λ t. t.key) tasks)
  All-keys store [] a = tt
  All-keys store (t ∷ tasks) a = (a.0, All-keys store tasks a.1)

module _ {W F : Type 0} ⦃f : FloatOps W⦄ (enumerate : Upstream → Option (List (Chunk W)))
    (one : ℕ → Stage W F → Run W → Drained W) (stamp : ℕ → Json W) where
  -- The stages ran one after the other, from the number `i` on, from `run` to `last`: each was planned
  -- on the store that the stage before it left, in which the tasks of all earlier stages had results,
  -- and its `_run_stage` returned with results for its own tasks, which was announced. In the end all
  -- tasks have results.
  abbrev pub InTurn : ℕ → List String → List (Stage W F) → Run W → Run W → Type 0
  InTurn i earlier [] run last = (run ≡ last) × HasResults last.world.store earlier
  InTurn i earlier (st ∷ sts) run last =
      (after : Store W) × (tasks : List (Task W)) × (active : Dict ℕ) × (ended next : Run W) × (plan
          enumerate st run.world.store
        ≡ some (after, tasks))
      × HasResults run.world.store earlier
      × (one i st run ≡ drained active ended)
      × HasResults ended.world.store (map (λ t. t.key) tasks)
      × (announce_done (stamp i) st.name ended ≡ some next)
      × InTurn (suc i) (earlier ++ map (λ t. t.key) tasks) sts next last

  -- The stages ran in turn, if the run returned.
  abbrev RanInTurn : ℕ → List String → List (Stage W F) → Run W → Drained W → Type 0
  RanInTurn i earlier sts run (drained active last) = InTurn i earlier sts run last
  RanInTurn i earlier sts run _ = Unit

  first_stage :
      (i : ℕ) (earlier : List String) (st : Stage W F) (sts : List (Stage W F)) (run : Run W)
      (after : Store W) (tasks : List (Task W)) (active : Dict ℕ) (ended next : Run W)
      (d : Drained W)
      → plan enumerate st run.world.store ≡ some (after, tasks)
      → HasResults run.world.store earlier
      → one i st run ≡ drained active ended
      → HasResults ended.world.store (map (λ t. t.key) tasks)
      → announce_done (stamp i) st.name ended ≡ some next
      → RanInTurn (suc i) (earlier ++ map (λ t. t.key) tasks) sts next d
      → RanInTurn i earlier (st ∷ sts) run d
  first_stage i earlier st sts run after tasks active ended next (drained _ last) e had ran has
        announced rest =
      (after, tasks, active, ended, next, e, had, ran, has, announced, rest)
  first_stage i earlier st sts run after tasks active ended next (chunks_failed r) e had ran has a
        h =
      tt
  first_stage i earlier st sts run after tasks active ended next (timed_out r) e had ran has a h =
      tt
  first_stage i earlier st sts run after tasks active ended next crashed e had ran has a h = tt
  first_stage i earlier st sts run after tasks active ended next still_running e had ran has a h =
      tt

  after_stage-RanInTurn :
      (i : ℕ) (earlier : List String) (st : Stage W F) (sts : List (Stage W F)) (run : Run W)
      (go_on : Run W → Drained W) (d : Drained W)
      → HasResults run.world.store earlier
      → Delivered enumerate st run.world.store d
      → one i st run ≡ d
      → ((earlier : List String) (next : Run W)
          → HasResults next.world.store earlier
          → RanInTurn (suc i) earlier sts next (go_on next))
      → RanInTurn i earlier (st ∷ sts) run (after_stage (stamp i) st.name go_on d)
  unfolding after_stage
  after_stage-RanInTurn i earlier st sts run go_on (drained active ended) had
        (after, tasks, e, done, grew) ran go =
      let ks = map (λ (t : Task W). t.key) tasks in
      let has = All-keys ended.world.store tasks done in
      or_crash_all (RanInTurn i earlier (st ∷ sts) run) go_on
        (announce_done (stamp i) st.name ended) tt
        (λ next announced.
          let same = announce_done-store (stamp i) st.name ended next announced in
          let all =
            All-append (λ k. has_result ended.world.store k ≡ true) earlier ks
              (All-map_imp earlier grew had) has in
          first_stage i earlier st sts run after tasks active ended next (go_on next) e had ran has
            announced
            (go (earlier ++ ks) next (subst (λ s. HasResults s (earlier ++ ks)) (sym same) all)))
  after_stage-RanInTurn i earlier st sts run go_on (chunks_failed r) had h ran go = tt
  after_stage-RanInTurn i earlier st sts run go_on (timed_out r) had h ran go = tt
  after_stage-RanInTurn i earlier st sts run go_on crashed had h ran go = tt
  after_stage-RanInTurn i earlier st sts run go_on still_running had h ran go = tt

  module _
      (delivers : (i : ℕ) (st : Stage W F) (run : Run W)
        → Delivered enumerate st run.world.store (one i st run)) where
    run_stages-RanInTurn :
        (i : ℕ) (earlier : List String) (sts : List (Stage W F)) (run : Run W)
        → HasResults run.world.store earlier
        → RanInTurn i earlier sts run (run_stages one stamp i sts run)
    unfolding run_stages
    run_stages-RanInTurn i earlier [] run had = (refl, had)
    run_stages-RanInTurn i earlier (st ∷ sts) run had =
        after_stage-RanInTurn i earlier st sts run (λ next. run_stages one stamp (suc i) sts next)
          (one i st run) had (delivers i st run) refl
          (λ earlier' next had'. run_stages-RanInTurn (suc i) earlier' sts next had')

  -- What a finished run gives away of its stages: they ran in turn, and then its end was announced.
  ended-InTurn :
      (now : Json W) (error_of : Drained W → Json W) (name : String) (sts : List (Stage W F))
      (run : Run W) (views : List (StageView W)) (run' : Run W) (d : Drained W)
      → RanInTurn 0 [] sts run d
      → end_run now error_of name d ≡ finished views run'
      → (last : Run W) × InTurn 0 [] sts run last
        × (run' ≡ with_tracker (emit (run_done now name)) last)
  unfolding end_run
  ended-InTurn now error_of name sts run views run' (drained active last) h e =
      let run1 = with_tracker (emit (run_done now name)) last in
      (last, h, sym (views_run (tracker_of run1 >>= snapshot) views run1 run' e))
  ended-InTurn now error_of name sts run views run' (chunks_failed r) h e = cc
  ended-InTurn now error_of name sts run views run' (timed_out r) h e = cc
  ended-InTurn now error_of name sts run views run' crashed h e = cc
  ended-InTurn now error_of name sts run views run' still_running h e = cc

module _ {W F : Type 0} ⦃f : FloatOps W⦄ (cfg : PipelineConfig)
    (handler : Option (ℕ → Run W → Option Remediation)) (drain_stamp : ℕ → Json W)
    (enumerate : Upstream → Option (List (Chunk W))) (force smoke : Bool) (began stamp : ℕ → Json W)
    (schedule : ℕ → Dict ℕ → Run W → Schedule W) where
  run_one-Delivered :
      is_remediate cfg.failure_policy ≡ false
      → ((i j : ℕ) (active : Dict ℕ) (run run' : Run W)
          → Keeps run'.world ((schedule i active run).others j run').world)
      → (i : ℕ) (st : Stage W F) (run : Run W)
      → Delivered enumerate st run.world.store
          (run_one cfg handler drain_stamp enumerate force smoke began schedule i st run)
  unfolding run_one drain_within
  run_one-Delivered policy keep i st run =
      run_stage-Delivered enumerate st (began i) force smoke
        (λ active run'.
          drain_within cfg handler drain_stamp st (schedule i active run') active run')
        run
        (λ active run'.
          let s = schedule i active run' in
          drain-Waited st cfg handler drain_stamp s.clock s.others (s.start + 6 * 3600)
            (λ j run''. keep i j active run' run'') s.turns 0 active cfg.max_remediations run'
            policy)

  -- A run that returns, without the policy `remediate` and with workers that keep the results in the
  -- store and the keys of the tasks, has run the stages one after the other in their topological order:
  -- each was planned on the store that the one before it left, when all tasks of the earlier stages had
  -- results, and returned with results for its own tasks. In the end all tasks have results, and what
  -- follows the last stage is the announcement that the run is done.
  pub run_pipeline-InTurn :
      (now : Json W) (error_of : Drained W → Json W) (pipe : Pipeline W F) (limit : ℕ)
      (run run' : Run W) (views : List (StageView W))
      → is_remediate cfg.failure_policy ≡ false
      → ((i j : ℕ) (active : Dict ℕ) (run run' : Run W)
          → Keeps run'.world ((schedule i active run).others j run').world)
      → run_pipeline
          (run_one cfg handler drain_stamp enumerate force smoke began schedule)
          stamp
          now
          error_of
          pipe
          limit
          run
        ≡ finished views run'
      → (order : List (Stage W F)) × (topo_order pipe limit ≡ some order)
        × (last : Run W) × InTurn enumerate
            (run_one cfg handler drain_stamp enumerate force smoke began schedule)
            stamp
            0
            []
            order
            (with_tracker (register_stages pipe order) run)
            last
        × (run' ≡ with_tracker (emit (run_done now pipe.name)) last)
  unfolding run_pipeline run_order
  run_pipeline-InTurn now error_of pipe limit run run' views policy keep e =
      let one = run_one cfg handler drain_stamp enumerate force smoke began schedule in
      elim (Option-cases (topo_order pipe limit)) [
        | inl cyclic ↦ absurd (not_raised crashed views run' (rw cyclic at e))
        | inr (order, sorted) ↦
            let start = with_tracker (register_stages pipe order) run in
            let done =
              run_stages-RanInTurn enumerate one stamp (run_one-Delivered policy keep) 0 [] order
                start tt in
            let (last, ran, end) =
              ended-InTurn enumerate one stamp now error_of pipe.name order start views run'
                (run_stages one stamp 0 order start) done (rw sorted at e) in
            (order, sorted, last, ran, end)
      ]
