-- ===== src/Controller/Drain/Ends.antt =====
-- How `_drain` of controller.py ends.
use gleanflow.Prelude.{
  ℕ, zero, suc, ◌+◌, ◌-◌, ◌≤◌, ◌≡◌, refl, sym, Option, none, some, Bool, true, false, ◌⊎◌, inl, inr,
  List, [], ◌∷◌, All, length, leb, nat_beq, arith, Bool-cases, String,
}
use mathlib.Core.Path.{subst}
use gleanflow.Prelude.Dict.{Dict, keys}
use gleanflow.Float.{FloatOps}
use gleanflow.Json.{Json}
use gleanflow.Config.{PipelineConfig}
use gleanflow.Stage.{Stage}
use gleanflow.Store.{Store}
use gleanflow.Markers.{has_result}
use gleanflow.Agent.{Remediation}
use gleanflow.Controller.Remedy.{Run}
use gleanflow.Controller.Failures.{is_remediate, handle_failures}
use gleanflow.Controller.Failures.Budget.{handle_failures_bounded}
use gleanflow.Controller.Drain.{
  Drained, drained, chunks_failed, timed_out, crashed, still_running, dead_of, all_done, drop_dead,
  add_new, measure, after_failures, turn, drain,
}

module _ {W : Type 0} where
  pub all_done_lem :
      (store : Store W) (ks : List String)
      → all_done store ks ≡ true
      → All (λ k. has_result store k ≡ true) ks
  unfolding all_done
  all_done_lem store [] h = tt
  all_done_lem store (k ∷ ks) h = (ground arith, all_done_lem store ks (ground arith))

  -- A drain that has returned has a result for every task that it waited for.
  abbrev pub Complete : Drained W → Type 0
  Complete (drained active run) = All (λ k. has_result run.world.store k ≡ true) (keys active)
  Complete _ = Unit

  -- It waited for the given tasks.
  abbrev pub CompleteFor : Dict ℕ → Drained W → Type 0
  CompleteFor tasks (drained active run) =
      (active ≡ tasks) × All (λ k. has_result run.world.store k ≡ true) (keys active)
  CompleteFor tasks _ = Unit

  abbrev pub ended : Drained W → Bool
  ended still_running = false
  ended _ = true

  after_failures_all :
      (P : Drained W → Type 0) (remedied : Run W → List ℕ → Drained W)
      (answer : Option (Run W × Option (List ℕ)))
      → P crashed
      → ((run : Run W) → P (chunks_failed run))
      → ((run : Run W) (new : List ℕ) → P (remedied run new))
      → P (after_failures remedied answer)
  unfolding after_failures
  after_failures_all P remedied none c h r = c
  after_failures_all P remedied (some (run, none)) c h r = h run
  after_failures_all P remedied (some (run, some new)) c h r = r run new

module _ {W F : Type 0} ⦃f : FloatOps W⦄ (st : Stage W F) (cfg : PipelineConfig)
    (handler : Option (ℕ → Run W → Option Remediation)) (stamp : ℕ → Json W) where
  -- What holds of all ends of a turn, and of the turns that follow it.
  pub turn_all :
      (P : Drained W → Type 0) (now deadline : ℕ) (active : Dict ℕ) (budget : ℕ) (run : Run W)
      (go_on : Dict ℕ → ℕ → Run W → Drained W)
      → ((run : Run W) → P (timed_out run))
      → ((remedied : Run W → List ℕ → Drained W) (ds : List ℕ) (run : Run W)
          → nat_beq (length ds) 0 ≡ false
          → ((run : Run W) (new : List ℕ)
              → (active : Dict ℕ) × (after : Run W) × (remedied run new
                  ≡ go_on active (budget - 1) after))
          → P (after_failures remedied (handle_failures (stamp now) st cfg handler budget ds run)))
      → (all_done (measure now run).world.store (keys active) ≡ true
          → P (drained active (measure now run)))
      → P (go_on active budget (measure now run))
      → P (turn st cfg handler stamp now deadline active budget run go_on)
  unfolding turn
  turn_all P now deadline active budget run go_on late dead done next =
      let run1 = measure now run in
      let q = run1.world.queue in
      let ds = dead_of q active q.dlq in
      elim (Bool-cases (leb deadline now)) [
        | inl over ↦ rw over (late run)
        | inr runs ↦ elim (Bool-cases (nat_beq (length ds) 0)) [
          | inr some_dead ↦
              rw (runs, some_dead)
                (dead _ ds run1 some_dead (λ run2 new.
                  let left = drop_dead ds active run2 in
                  (add_new left.1.world.queue new left.0, left.1, refl)))
          | inl none_dead ↦ elim (Bool-cases (all_done run1.world.store (keys active))) [
            | inl all ↦ rw (runs, none_dead, all) (done all)
            | inr not_all ↦ rw (runs, none_dead, not_all) next
          ]
        ]
      ]

  turn-late :
      (now deadline : ℕ) (active : Dict ℕ) (budget : ℕ) (run : Run W)
      (go_on : Dict ℕ → ℕ → Run W → Drained W)
      → deadline ≤ now
      → turn st cfg handler stamp now deadline active budget run go_on ≡ timed_out run
  unfolding turn
  turn-late now deadline active budget run go_on h =
      let over : leb deadline now ≡ true = ground arith in rw over

  module _ (clock : ℕ → ℕ) (others : ℕ → Run W → Run W) (deadline : ℕ) where
    -- The run at turn `i`, behind the workers and the count of the queue.
    abbrev counted : ℕ → Run W → Run W
    counted i run = measure (clock i) (others i run)

    -- What holds of every end, and of a drain that is still running, holds of every drain.
    drain-Complete :
        (turns i : ℕ) (active : Dict ℕ) (budget : ℕ) (run : Run W)
        → Complete (drain st cfg handler stamp clock others deadline turns i active budget run)
    unfolding drain
    drain-Complete zero i active budget run = tt
    drain-Complete (suc turns) i active budget run =
        let go_on = drain st cfg handler stamp clock others deadline turns (suc i) in
        turn_all Complete (clock i) deadline active budget (others i run) go_on (λ run. tt)
          (λ remedied ds run d go.
            after_failures_all Complete remedied
              (handle_failures (stamp (clock i)) st cfg handler budget ds run) tt (λ run. tt)
              (λ run new.
                let (a, after, e) = go run new in
                subst Complete (sym e) (drain-Complete turns (suc i) a (budget - 1) after)))
          (λ e. all_done_lem (counted i run).world.store (keys active) e)
          (drain-Complete turns (suc i) active budget (counted i run))

    drain-ended :
        (turns i : ℕ) (active : Dict ℕ) (budget : ℕ) (run : Run W)
        → deadline ≤ clock (i + turns)
        → ended (drain st cfg handler stamp clock others deadline (suc turns) i active budget run)
          ≡ true
    unfolding drain
    drain-ended zero i active budget run h =
        let same : i + 0 ≡ i = omega arith in
        rw (
          turn-late (clock i) deadline active budget (others i run) (λ a b r. still_running)
            (rw same at h))
    drain-ended (suc turns) i active budget run h =
        let moved : i + suc turns ≡ suc i + turns = omega arith in
        let h' : deadline ≤ clock (suc i + turns) = rw moved at h in
        let go_on = drain st cfg handler stamp clock others deadline (suc turns) (suc i) in
        let IsEnded = λ (d : Drained W). ended d ≡ true in
        turn_all IsEnded (clock i) deadline active budget (others i run) go_on (λ run. refl)
          (λ remedied ds run d go.
            after_failures_all IsEnded remedied
              (handle_failures (stamp (clock i)) st cfg handler budget ds run) refl (λ run. refl)
              (λ run new.
                let (a, after, e) = go run new in
                subst IsEnded (sym e) (drain-ended turns (suc i) a (budget - 1) after h')))
          (λ e. refl) (drain-ended turns (suc i) active budget (counted i run) h')

    -- A drain whose clock reaches the deadline ends within as many turns, whatever the workers do and
    -- the handler proposes: and where it returns, each task that it waited for at the end has a result.
    pub drain_ends :
        (turns i : ℕ) (active : Dict ℕ) (budget : ℕ) (run : Run W)
        → deadline ≤ clock (i + turns)
        → (ended (drain st cfg handler stamp clock others deadline (suc turns) i active budget run)
            ≡ true)
          × Complete
              (drain st cfg handler stamp clock others deadline (suc turns) i active budget run)
    drain_ends turns i active budget run h =
        (drain-ended turns i active budget run h, drain-Complete (suc turns) i active budget run)

    pub bounded_answer :
        (P : Drained W → Type 0) (remedied : Run W → List ℕ → Drained W) (now : Json W) (budget : ℕ)
        (ds : List ℕ) (run : Run W)
        → (is_remediate cfg.failure_policy ≡ false) ⊎ (budget ≡ 0)
        → nat_beq (length ds) 0 ≡ false
        → ((run : Run W) → P (chunks_failed run))
        → P (after_failures remedied (handle_failures now st cfg handler budget ds run))
    unfolding after_failures
    bounded_answer P remedied now budget [] run h some_dead p = cc
    bounded_answer P remedied now budget (r ∷ rs) run h some_dead p =
        let (run', fails, _, _, _) = handle_failures_bounded now st cfg handler budget r rs run h in
        rw fails (p run')

    -- Without the policy `remediate`, a drain that returns has waited for all the tasks that it was
    -- given, and each of them has a result.
    pub drain_waits :
        (turns i : ℕ) (active : Dict ℕ) (budget : ℕ) (run : Run W)
        → is_remediate cfg.failure_policy ≡ false
        → CompleteFor active
            (drain st cfg handler stamp clock others deadline turns i active budget run)
    unfolding drain
    drain_waits zero i active budget run h = tt
    drain_waits (suc turns) i active budget run h =
        let go_on = drain st cfg handler stamp clock others deadline turns (suc i) in
        turn_all (CompleteFor active) (clock i) deadline active budget (others i run) go_on
          (λ run. tt)
          (λ remedied ds run d go.
            bounded_answer (CompleteFor active) remedied (stamp (clock i)) budget ds run (inl h) d
              (λ run. tt))
          (λ e. (refl, all_done_lem (counted i run).world.store (keys active) e))
          (drain_waits turns (suc i) active budget (counted i run) h)
