-- ===== src/Controller/Drain/Waits.antt =====
-- What a drain of controller.py has waited for, when no remedy may change its tasks.
use gleanflow.Prelude.{
  ℕ, zero, suc, ◌≡◌, String, Option, true, false, List, [], ◌∷◌, All, All-In, inl, arith, eq_refl,
}
use gleanflow.Prelude.Dict.{Dict, put, has, keys, has-put, has-In}
use gleanflow.Float.{FloatOps}
use gleanflow.Json.{Json}
use gleanflow.Config.{PipelineConfig}
use gleanflow.Stage.{Stage}
use gleanflow.Markers.{has_result}
use gleanflow.Queue.Local.{LocalQueue, key_of, depth}
use gleanflow.World.{World}
use gleanflow.World.Kept.{Keeps, Keeps-trans, sweep-Keeps}
use gleanflow.Agent.{Remediation}
use gleanflow.Controller.Remedy.{Run}
use gleanflow.Controller.Failures.{is_remediate}
use gleanflow.Controller.Drain.{
  Drained, drained, chunks_failed, timed_out, crashed, still_running, add_new, measure, drain,
}
use gleanflow.Controller.Drain.Ends.{all_done_lem, turn_all, bounded_answer}

module _ {W : Type 0} where
  -- The drain that began at `w` returned with a result for each of `tasks`, and kept what was there.
  abbrev pub Waited : Dict ℕ → World W → Drained W → Type 0
  Waited tasks w (drained active run) =
      All (λ k. has_result run.world.store k ≡ true) (keys tasks) × Keeps w run.world
  Waited tasks w _ = Unit

  pub Waited-before :
      (tasks : Dict ℕ) (v w : World W) (d : Drained W)
      → Keeps v w
      → Waited tasks w d
      → Waited tasks v d
  Waited-before tasks v w (drained active run) kept (done, rest) = (done, Keeps-trans kept rest)
  Waited-before tasks v w (chunks_failed run) kept h = tt
  Waited-before tasks v w (timed_out run) kept h = tt
  Waited-before tasks v w crashed kept h = tt
  Waited-before tasks v w still_running kept h = tt

  measure-Keeps : (now : ℕ) (run : Run W) → Keeps run.world (measure now run).world
  unfolding measure depth
  measure-Keeps now run = sweep-Keeps now run.world

  has-add_new :
      (q : LocalQueue W) (rs : List ℕ) (k : String) (active : Dict ℕ)
      → has k active ≡ true
      → has k (add_new q rs active) ≡ true
  unfolding add_new
  has-add_new q [] k active h = h
  has-add_new q (r ∷ rs) k active h =
      has-add_new q rs k (put (key_of q r) r active) (rw (has-put, h) (ground arith))

  added_keys :
      (q : LocalQueue W) (P : String → Type 0) (rs : List ℕ) (active : Dict ℕ)
      → All P (keys (add_new q rs active))
      → All (λ r. P (key_of q r)) rs
  unfolding add_new
  added_keys q P [] active h = tt
  added_keys q P (r ∷ rs) active h =
      let active' = put (key_of q r) r active in
      let there : has (key_of q r) active' ≡ true = rw (has-put, eq_refl) in
      (
        All-In P (key_of q r) (keys (add_new q rs active')) h (
            has-In (key_of q r) (add_new q rs active')
              (has-add_new q rs (key_of q r) active' there)),
        added_keys q P rs active' h,
      )

  -- What holds of the keys of `{t.key: t for t in tasks}` holds of the key of each task.
  pub All-add_new :
      (q : LocalQueue W) (P : String → Type 0) (rs : List ℕ)
      → All P (keys (add_new q rs []))
      → All (λ r. P (key_of q r)) rs
  All-add_new q P rs h = added_keys q P rs [] h

module _ {W F : Type 0} ⦃f : FloatOps W⦄ (st : Stage W F) (cfg : PipelineConfig)
    (handler : Option (ℕ → Run W → Option Remediation)) (stamp : ℕ → Json W) (clock : ℕ → ℕ)
    (others : ℕ → Run W → Run W) (deadline : ℕ)
    (keep : (i : ℕ) (run : Run W) → Keeps run.world (others i run).world) where
  -- Where the others keep results and keys, so does a drain without the policy `remediate`, and it
  -- returns only when each task has a result.
  pub drain-Waited :
      (turns i : ℕ) (active : Dict ℕ) (budget : ℕ) (run : Run W)
      → is_remediate cfg.failure_policy ≡ false
      → Waited active run.world
          (drain st cfg handler stamp clock others deadline turns i active budget run)
  unfolding drain
  drain-Waited zero i active budget run h = tt
  drain-Waited (suc turns) i active budget run h =
      let go_on = drain st cfg handler stamp clock others deadline turns (suc i) in
      let counted = measure (clock i) (others i run) in
      let kept = Keeps-trans (keep i run) (measure-Keeps (clock i) (others i run)) in
      turn_all st cfg handler stamp (Waited active run.world) (clock i) deadline active budget
        (others i run) go_on (λ run. tt)
        (λ remedied ds run' d go.
          bounded_answer st cfg handler stamp clock others deadline (Waited active run.world)
            remedied (stamp (clock i)) budget ds run' (inl h) d (λ run. tt))
        (λ e. (all_done_lem counted.world.store (keys active) e, kept))
        (Waited-before active run.world counted.world (go_on active budget counted) kept
          (drain-Waited turns (suc i) active budget counted h))
