-- ===== src/Controller/Drain.antt =====
-- `_drain` of controller.py on the local backend. Between two turns of its loop the workers run:
-- `others i` is what they make of the run before turn `i`, and `clock i` is the time then. `ensure`
-- starts threads and changes nothing here. The loop ends at its deadline, and runs on fuel: `turns`.
pub mod Ends
pub mod Waits
use gleanflow.Prelude.{
  ℕ, zero, suc, ◌+◌, ◌-◌, String, Option, none, some, Bool, true, false, not, ◌&&◌, List, [], ◌∷◌,
  ◌++◌, length, leb, nat_beq, if◌then◌else◌,
}
use gleanflow.Prelude.Dict.{Dict, get, has, put, remove, keys}
use gleanflow.Float.{FloatOps}
use gleanflow.Json.{Json}
use gleanflow.Config.{PipelineConfig}
use gleanflow.Stage.{Stage}
use gleanflow.Store.{Store}
use gleanflow.Tracker.{remove_first}
use gleanflow.Markers.{has_result}
use gleanflow.Queue.Local.{LocalQueue, key_of, depth}
use gleanflow.World.{World}
use gleanflow.Agent.{Remediation}
use gleanflow.Controller.Remedy.{Run}
use gleanflow.Controller.Failures.{handle_failures}

-- How a drain ends: it returns, raises `StageFailed` or `SmokeFailed` for dead chunks, raises
-- `StageFailed` at the deadline, or raises what a remedy raised; or it is still running.
pub data Drained (W : Type 0) : Type 0 where
  drained : Dict ℕ → Run W → Drained W
  chunks_failed : Run W → Drained W
  timed_out : Run W → Drained W
  crashed : Drained W
  still_running : Drained W

module _ {W : Type 0} where
  -- `[active[t.key] for t in dlq if t.key in active]`
  unfoldable pub dead_of : LocalQueue W → Dict ℕ → List ℕ → List ℕ
  dead_of q active [] = []
  dead_of q active (t ∷ ts) = elim (get (key_of q t) active) [
    | none ↦ dead_of q active ts
    | some r ↦ r ∷ dead_of q active ts
  ]

  unfoldable pub all_done : Store W → List String → Bool
  all_done store [] = true
  all_done store (k ∷ ks) = has_result store k && all_done store ks

  -- `active.pop(d.key, None)` and `dlq.remove(d)` for the dead
  unfoldable pub drop_dead : List ℕ → Dict ℕ → Run W → Dict ℕ × Run W
  drop_dead [] active run = (active, run)
  drop_dead (d ∷ ds) active run =
      let q = run.world.queue in
      let w = record run.world { queue = record q { dlq = remove_first d q.dlq } } in
      drop_dead ds (remove (key_of q d) active) (record run { world = w })

  -- `active[nt.key] = nt`
  unfoldable pub add_new : LocalQueue W → List ℕ → Dict ℕ → Dict ℕ
  add_new q [] active = active
  add_new q (r ∷ rs) active = add_new q rs (put (key_of q r) r active)

  -- `queue.depth()`, which sweeps
  unfoldable pub measure : ℕ → Run W → Run W
  measure now run =
      let w = run.world in record run { world = record w { queue = (depth now w.queue).0 } }

  -- How the drain goes on after `_handle_failures`.
  unfoldable pub after_failures :
      (Run W → List ℕ → Drained W) → Option (Run W × Option (List ℕ)) → Drained W
  after_failures remedied none = crashed
  after_failures remedied (some (run, none)) = chunks_failed run
  after_failures remedied (some (run, some new)) = remedied run new

module _ {W F : Type 0} ⦃f : FloatOps W⦄ (st : Stage W F) (cfg : PipelineConfig)
    (handler : Option (ℕ → Run W → Option Remediation)) (stamp : ℕ → Json W) where
  -- One turn of the loop; `go_on` is the rest of the drain.
  unfoldable pub turn : ℕ → ℕ → Dict ℕ → ℕ → Run W → (Dict ℕ → ℕ → Run W → Drained W) → Drained W
  turn now deadline active budget run go_on =
      let run1 = measure now run in
      let q = run1.world.queue in
      let dead = dead_of q active q.dlq in
      let remedied = λ (run2 : Run W) (new : List ℕ).
        let (active', run3) = drop_dead dead active run2 in
        go_on (add_new run3.world.queue new active') (budget - 1) run3 in
      if leb deadline now
      then timed_out run
      else if not (nat_beq (length dead) 0)
      then after_failures remedied (handle_failures (stamp now) st cfg handler budget dead run1)
      else if all_done run1.world.store (keys active)
      then drained active run1
      else go_on active budget run1

  module _ (clock : ℕ → ℕ) (others : ℕ → Run W → Run W) (deadline : ℕ) where
    unfoldable pub drain : ℕ → ℕ → Dict ℕ → ℕ → Run W → Drained W
    drain zero i active budget run = still_running
    drain (suc turns) i active budget run =
        turn (clock i) deadline active budget (others i run)
          (λ active budget run. drain turns (suc i) active budget run)
