-- ===== src/Controller/Pipelines.antt =====
-- `run` of controller.py on the local backend, without the dashboard and the printing. Each stage
-- has its own times and its own drain: `run_one i` is `_run_stage` for the stage number `i`, and
-- `stamp i` the time after it. `error_of` is `str` of an exception. Stopping the threads of the
-- fleet changes nothing here, and `crashed` has no run to show its event in.
pub mod InTurn
use gleanflow.Prelude.{ℕ, ◌+◌, ◌*◌, Bool, suc, String, Option, none, some, List, [], ◌∷◌, map}
use gleanflow.Prelude.Dict.{Dict}
use gleanflow.Json.{Json, int, str, object, ◌>>=◌}
use gleanflow.Stage.{Stage, Upstream}
use gleanflow.Pipeline.{Pipeline, topo_order, deps_of}
use gleanflow.Tracker.{Tracker, add_stage, counts, emit}
use gleanflow.Tracker.Snapshot.{StageView, snapshot}
use gleanflow.Controller.Remedy.{Run}
use gleanflow.Controller.Drain.{
  Drained, drained, chunks_failed, timed_out, crashed, still_running, drain,
}
use gleanflow.Float.{FloatOps}
use gleanflow.Config.{PipelineConfig}
use gleanflow.Partition.{Chunk}
use gleanflow.Agent.{Remediation}
use gleanflow.Controller.Stages.{or_crash, run_stage}

-- How a run ends: it returns the snapshot, or raises what a stage raised.
pub data Ended (W : Type 0) : Type 0 where
  finished : List (StageView W) → Run W → Ended W
  raised : Drained W → Ended W

module _ {W : Type 0} where
  unfoldable pub with_tracker : (Tracker W → Tracker W) → Run W → Run W
  with_tracker g run =
      let w = run.world in
      record run {
        world = record w { tracker = elim w.tracker [ none ↦ none | some t ↦ some (g t) ] };
      }

  unfoldable pub tracker_of : Run W → Option (Tracker W)
  tracker_of run = run.world.tracker

  unfoldable pub stage_done : Json W → String → Dict ℕ → Dict (Json W)
  stage_done now name c =
      ("type", str "stage_done")
      ∷ ("stage", str name)
      ∷ ("counts", object (map (λ (e : String × ℕ). (e.0, int e.1)) c))
      ∷ ("ts", now)
      ∷ []

  unfoldable pub run_failed : Json W → Json W → Dict (Json W)
  run_failed now error = ("type", str "run_failed") ∷ ("error", error) ∷ ("ts", now) ∷ []

  unfoldable pub run_done : Json W → String → Dict (Json W)
  run_done now name = ("type", str "run_done") ∷ ("run_id", str name) ∷ ("ts", now) ∷ []

  -- The event after a stage; `none` where a task has no state (KeyError).
  unfoldable pub announce_done : Json W → String → Run W → Option (Run W)
  announce_done now name run = do
    t ← tracker_of run
    c ← counts name t
    some (with_tracker (emit (stage_done now name c)) run)

  -- The loop goes on after a stage that returns; what another raises ends it.
  unfoldable pub after_stage : Json W → String → (Run W → Drained W) → Drained W → Drained W
  after_stage now name go_on (drained active run) = or_crash go_on (announce_done now name run)
  after_stage now name go_on (chunks_failed run) = chunks_failed run
  after_stage now name go_on (timed_out run) = timed_out run
  after_stage now name go_on crashed = crashed
  after_stage now name go_on still_running = still_running

  -- `return self.tracker.snapshot()`
  unfoldable pub with_views : Option (List (StageView W)) → Run W → Ended W
  with_views none run = raised crashed
  with_views (some views) run = finished views run

  -- The tail of `run`: the last event, and the snapshot or the exception.
  unfoldable pub end_run : Json W → (Drained W → Json W) → String → Drained W → Ended W
  end_run now error_of name (drained active run) =
      let run' = with_tracker (emit (run_done now name)) run in
      with_views (tracker_of run' >>= snapshot) run'
  end_run now error_of name (chunks_failed run) =
      raised
        (chunks_failed (with_tracker (emit (run_failed now (error_of (chunks_failed run)))) run))
  end_run now error_of name (timed_out run) =
      raised (timed_out (with_tracker (emit (run_failed now (error_of (timed_out run)))) run))
  end_run now error_of name crashed = raised crashed
  end_run now error_of name still_running = raised still_running

module _ {W F : Type 0} where
  -- The stages and their edges, for the dashboard.
  unfoldable pub register_stages : Pipeline W F → List (Stage W F) → Tracker W → Tracker W
  register_stages pipe [] t = t
  register_stages pipe (st ∷ sts) t =
      register_stages pipe sts (add_stage st.name (deps_of pipe st) "stage" t)

  module _ (run_one : ℕ → Stage W F → Run W → Drained W) (stamp : ℕ → Json W) where
    unfoldable pub run_stages : ℕ → List (Stage W F) → Run W → Drained W
    run_stages i [] run = drained [] run
    run_stages i (st ∷ sts) run =
        after_stage (stamp i) st.name (λ run'. run_stages (suc i) sts run') (run_one i st run)

    -- `run` behind `topo_order`
    unfoldable pub run_order :
        Json W → (Drained W → Json W) → Pipeline W F → Run W → Option (List (Stage W F)) → Ended W
    run_order now error_of pipe run none = raised crashed
    run_order now error_of pipe run (some order) =
        let start = with_tracker (register_stages pipe order) run in
        end_run now error_of pipe.name (run_stages 0 order start)

    -- `limit` is the recursion limit of `topo_order`, whose exception is not announced.
    unfoldable pub run_pipeline : Json W → (Drained W → Json W) → Pipeline W F → ℕ → Run W → Ended W
    run_pipeline now error_of pipe limit run =
        run_order now error_of pipe run (topo_order pipe limit)

-- What happens during one `_drain`: when it starts, the time and the work of the others before each
-- of its turns, and for how many turns it is watched.
pub record Schedule (W : Type 0) : Type 0 where
  pub start : ℕ
  pub clock : ℕ → ℕ
  pub others : ℕ → Run W → Run W
  pub turns : ℕ

module _ {W F : Type 0} ⦃f : FloatOps W⦄ (cfg : PipelineConfig)
    (handler : Option (ℕ → Run W → Option Remediation)) (stamp : ℕ → Json W) where
  -- `_drain` with its deadline after six hours, where a tick is a second.
  unfoldable pub drain_within : Stage W F → Schedule W → Dict ℕ → Run W → Drained W
  drain_within st s active run =
      drain st cfg handler stamp s.clock s.others (s.start + 6 * 3600) s.turns 0 active
        cfg.max_remediations run

  module _ (enumerate : Upstream → Option (List (Chunk W))) (force smoke : Bool)
      (began : ℕ → Json W) (schedule : ℕ → Dict ℕ → Run W → Schedule W) where
    -- `_run_stage` for the stage number `i`, with its drains.
    unfoldable pub run_one : ℕ → Stage W F → Run W → Drained W
    run_one i st run =
        run_stage (began i) st enumerate force smoke
          (λ active run'. drain_within st (schedule i active run') active run') run
