-- ===== src/World.antt =====
-- What the threads of a local run share: the queue with its task objects, the store, the tracker.
pub mod Kept
use gleanflow.Prelude.{String, Option, none, some}
use gleanflow.Prelude.Dict.{Dict}
use gleanflow.Json.{Json}
use gleanflow.Task.{TaskState, value}
use gleanflow.Store.{Store}
use gleanflow.Tracker.{Tracker, set_state}
use gleanflow.Queue.Local.{LocalQueue}

pub record World (W : Type 0) : Type 0 where
  pub queue : LocalQueue W
  pub store : Store W
  -- a worker on AWS has none
  pub tracker : Option (Tracker W)

module _ {W : Type 0} where
  -- `if tracker: tracker.set_state(...)`
  unfoldable pub track : Json W → String → String → TaskState → Dict (Json W) → World W → World W
  track now stage key state info w = elim w.tracker [
    | none ↦ w
    | some t ↦ record w { tracker = some (set_state now stage key (value state) info t) }
  ]
