-- ===== src/Worker/Poll.antt =====
-- `poll_loop` of gleanflow/worker.py. Before turn `i` the other threads make `others i` of the world,
-- `clock i` is the time of the claim and of the idle test, and `compute i` is the run of the claimed
-- task's stage function; `began` and `ended` stamp the run of a task that is claimed at a time. The loop
-- runs on fuel: `turns`.
pub mod Idle
pub mod Keeping
pub mod Works
use gleanflow.Prelude.{ℕ, zero, suc, ◌+◌, ◌-◌, String, Option, none, some, Bool, leb, if◌then◌else◌}
use gleanflow.Json.{Json}
use gleanflow.Config.{PipelineConfig, or_else}
use gleanflow.Pipeline.{Pipeline}
use gleanflow.Queue.Local.{LocalQueue, claim}
use gleanflow.World.{World}
use gleanflow.Worker.{Outcome, run_task}

-- The loop has left on `stop` or when idle, `run_task` has raised, or it is still running.
pub data Polled (W : Type 0) : Type 0 where
  left : World W → Polled W
  raised_in : World W → Polled W
  polling : Polled W

module _ {W F : Type 0} (pipe : Pipeline W F) (cfg : PipelineConfig) (began ended : ℕ → Json W)
    (worker_id : String) (force : Bool) (idle_timeout lease : ℕ) where
  -- A turn without a task.
  unfoldable pub idle_turn : ℕ → Option ℕ → World W → (Option ℕ → World W → Polled W) → Polled W
  idle_turn now idle_since w go_on =
      let since = or_else idle_since now in
      if leb idle_timeout (now - since) then left w else go_on (some since) w

  unfoldable pub claimed_turn :
      Option (World W × Bool) → World W → (Option ℕ → World W → Polled W) → Polled W
  claimed_turn none w go_on = raised_in w
  claimed_turn (some (w', ok)) w go_on = go_on none w'

  -- What the claim returned decides the turn.
  unfoldable pub poll_turn :
      ℕ
      → (World W → World W × Outcome W)
      → Option ℕ
      → Option ℕ
      → World W
      → (Option ℕ → World W → Polled W)
      → Polled W
  poll_turn now compute none idle_since w go_on = idle_turn now idle_since w go_on
  poll_turn now compute (some r) idle_since w go_on =
      claimed_turn (run_task pipe cfg (began now) (ended now) worker_id force r compute w) w go_on

  module _ (stop : ℕ → Bool) (clock : ℕ → ℕ) (others : ℕ → World W → World W)
      (compute : ℕ → World W → World W × Outcome W) where
    unfoldable pub poll_loop : ℕ → ℕ → Option ℕ → World W → Polled W
    poll_loop zero i idle_since w = polling
    poll_loop (suc turns) i idle_since w =
        let w1 = others i w in
        let answer = claim (clock i) lease w1.queue in
        let w2 = record w1 { queue = answer.0 } in
        let go_on = λ (since : Option ℕ) (w : World W). poll_loop turns (suc i) since w in
        if stop i then left w else poll_turn (clock i) (compute i) answer.1 idle_since w2 go_on
