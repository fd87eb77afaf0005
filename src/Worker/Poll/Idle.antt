-- ===== src/Worker/Poll/Idle.antt =====
-- When an idle worker of worker.py leaves.
use gleanflow.Prelude.{
  ℕ, zero, suc, ◌+◌, ◌-◌, ◌≤◌, ◌≡◌, String, none, some, Bool, true, false, leb, arith, Bool-cases,
  inl, inr,
}
use gleanflow.Json.{Json}
use gleanflow.Config.{PipelineConfig}
use gleanflow.Pipeline.{Pipeline}
use gleanflow.Queue.Local.{claim}
use gleanflow.World.{World}
use gleanflow.Worker.{Outcome}
use gleanflow.Worker.Poll.{Polled, left, idle_turn, poll_turn, poll_loop}

abbrev pub has_left : {W : Type 0} → Polled W → Bool
has_left (left w) = true
has_left _ = false

module _ {W F : Type 0} (pipe : Pipeline W F) (cfg : PipelineConfig) (began ended : ℕ → Json W)
    (worker_id : String) (force : Bool) (idle_timeout lease : ℕ) (stop : ℕ → Bool) (clock : ℕ → ℕ)
    (others : ℕ → World W → World W) (compute : ℕ → World W → World W × Outcome W)
    (empty : (i : ℕ) (w : World W) → (claim (clock i) lease (others i w).queue).1 ≡ none) where
  -- A worker whose claims find no task leaves within the turns in which the clock gets
  -- `idle_timeout` ahead of the time at which it became idle.
  pub poll_loop_leaves :
      (turns i since : ℕ) (w : World W)
      → 1 ≤ since
      → since + idle_timeout ≤ clock (i + turns)
      → has_left (
          poll_loop pipe cfg began ended worker_id force idle_timeout lease stop clock others
            compute
            (suc turns)
            i
            (some since)
            w)
        ≡ true
  unfolding poll_loop poll_turn idle_turn
  poll_loop_leaves zero i (suc since) w pos h =
      let same : i + 0 ≡ i = omega arith in
      let h' : suc since + idle_timeout ≤ clock i = rw same at h in
      let over : leb idle_timeout (clock i - suc since) ≡ true = ground arith in
      elim (Bool-cases (stop i)) [ inl stops ↦ rw stops | inr runs ↦ rw (runs, empty i w, over) ]
  poll_loop_leaves (suc turns) i (suc since) w pos h =
      let moved : i + suc turns ≡ suc i + turns = omega arith in
      let h' : suc since + idle_timeout ≤ clock (suc i + turns) = rw moved at h in
      elim (Bool-cases (stop i)) [
        | inl stops ↦ rw stops
        | inr runs ↦ elim (Bool-cases (leb idle_timeout (clock i - suc since))) [
          | inl over ↦ rw (runs, empty i w, over)
          | inr early ↦
              rw (runs, empty i w, early) (poll_loop_leaves turns (suc i) (suc since) _ pos h')
        ]
      ]
  poll_loop_leaves turns i zero w pos h = absurd (omega arith)
