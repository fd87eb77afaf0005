-- ===== src/Controller/Failures/Budget.antt =====
-- The bound on the remedies of controller.py.
use gleanflow.Prelude.{ℕ, ◌≡◌, refl, Option, none, some, true, false, ◌⊎◌, List, ◌∷◌, arith}
use gleanflow.Prelude.Dict.{get_or}
use gleanflow.Float.{FloatOps}
use gleanflow.Json.{Json}
use gleanflow.Config.{PipelineConfig}
use gleanflow.Stage.{Stage}
use gleanflow.Agent.{Remediation}
use gleanflow.Worker.Outcomes.{store-track, queue-track}
use gleanflow.Controller.Remedy.{Run}
use gleanflow.Controller.Failures.{
  is_remediate, refuses, note_failed, report_only, handle_dead, handle_failures,
}

refuses_bound :
    (cfg : PipelineConfig) (budget : ℕ) (rem : Remediation)
    → (is_remediate cfg.failure_policy ≡ false) ⊎ (budget ≡ 0)
    → refuses cfg budget rem ≡ true
unfolding refuses
refuses_bound cfg budget rem h = ground arith

-- Without the policy `remediate`, or with the budget used up, `_handle_failures` on dead tasks fails
-- the stage whatever the handler proposes, and has changed neither the queue nor the store nor the
-- fleet.
pub handle_failures_bounded :
    {W F : Type 0} ⦃f : FloatOps W⦄ (now : Json W) (st : Stage W F) (cfg : PipelineConfig)
    (handler : Option (ℕ → Run W → Option Remediation)) (budget r : ℕ) (rs : List ℕ) (run : Run W)
    → (is_remediate cfg.failure_policy ≡ false) ⊎ (budget ≡ 0)
    → (run' : Run W) × (handle_failures now st cfg handler budget (r ∷ rs) run ≡ some (run', none))
      × (run'.world.queue ≡ run.world.queue)
      × (run'.world.store ≡ run.world.store)
      × (run'.fleet ≡ run.fleet)
unfolding handle_failures handle_dead note_failed
handle_failures_bounded now st cfg none budget r rs run h = (run, refl, refl, refl, refl)
handle_failures_bounded now st cfg (some handler) budget r rs run h =
    let noted = note_failed now st.name r run in
    let rem = get_or report_only (handler r noted) in
    (
      noted,
      rw (refuses_bound cfg budget rem h),
      queue-track _ _ _ _ _ _,
      store-track _ _ _ _ _ _,
      refl,
    )
