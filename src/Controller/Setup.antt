-- ===== src/Controller/Setup.antt =====
-- The constructor and `_make_queue_fleet` of gleanflow/controller.py: what a run is made of.
use gleanflow.Prelude.{ℕ, String, Option, none, some, [], ◌==◌, if◌then◌else◌}
use gleanflow.Prelude.Dict.{get_or}
use gleanflow.Config.{PipelineConfig, FailurePolicy, off, report, remediate, or_else}
use gleanflow.Task.{Task}
use gleanflow.Tracker.{Tracker, subscribe}
use gleanflow.Queue.Local.{LocalQueue}

-- `workers or self.cfg.max_workers`
unfoldable pub max_workers_of : Option ℕ → PipelineConfig → ℕ
max_workers_of workers cfg = or_else workers cfg.max_workers

-- The handler of the given policy: the user's, or the default agent.
unfoldable pub handler_for : {H : Type 0} → FailurePolicy → Option H → H → Option H
handler_for off given agent = none
handler_for report given agent = some (get_or agent given)
handler_for remediate given agent = some (get_or agent given)

unfoldable pub handler_of : {H : Type 0} → PipelineConfig → Option H → H → Option H
handler_of cfg given agent = handler_for cfg.failure_policy given agent

module _ {W : Type 0} where
  abbrev pub empty_tracker : Tracker W
  empty_tracker = record { stages = []; order = []; events = []; subs = []; sent = [] }

  -- `Tracker(...)`, with the callback `on_event`
  unfoldable pub new_tracker : Option ℕ → Tracker W
  new_tracker none = empty_tracker
  new_tracker (some on_event) = subscribe on_event empty_tracker

  -- `LocalQueue(max_redeliveries=...)`; no task object is there yet, so the heap's values do not count.
  unfoldable pub new_queue : (ℕ → Task W) → PipelineConfig → LocalQueue W
  new_queue heap cfg = record {
    heap = heap;
    max_redeliveries = cfg.max_redeliveries;
    ready = [];
    inflight = [];
    dlq = [];
  }

pub data Backend : Type 0 where
  local aws : Backend

-- `none` stands for the ValueError of an unknown backend.
unfoldable pub backend_of : String → Option Backend
backend_of name = if name == "local" then some local else if name == "aws" then some aws else none
