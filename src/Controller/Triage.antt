-- ===== src/Controller/Triage.antt =====
-- The failure handler of controller.py by default: `LLMFailureAgent` on the event that
-- `_failure_event` makes of a dead task.
pub mod Offline
use gleanflow.Prelude.{ℕ, Option}
use gleanflow.Float.{FloatOps}
use gleanflow.Json.{◌>>=◌}
use gleanflow.Config.{PipelineConfig}
use gleanflow.Stage.{Stage}
use gleanflow.Agent.{Remediation}
use gleanflow.Agent.Llm.{Services, ask_llm}
use gleanflow.Controller.Event.{failure_event}
use gleanflow.Controller.Remedy.{Run}

-- `none` stands for an event or a reply that the model leaves out.
unfoldable pub agent_handler :
    {W F : Type 0} ⦃f : FloatOps W⦄
    → Services W
    → PipelineConfig
    → Stage W F
    → ℕ
    → Run W
    → Option Remediation
agent_handler sv cfg st r run = do
  event ← failure_event cfg st (run.world.queue.heap r) run.world.store
  ask_llm sv event
