-- ===== src/Task/Message.antt =====
-- A task read back from its queue message.
use gleanflow.Prelude.{◌≡◌, refl, some}
use gleanflow.Prelude.Dict.{get}
use gleanflow.Float.{FloatOps}
use gleanflow.Json.{object, of_dict, to_dict, to_dict-of_dict}
use gleanflow.Task.{Task, to_json, from_json}

-- A task put on the queue by `to_json` is read back unchanged by `from_json`.
pub from_json-to_json : {W : Type 0} ⦃f : FloatOps W⦄ (t : Task W) → from_json (to_json t) ≡ some t
unfolding from_json to_json get object of_dict to_dict
from_json-to_json t = rw to_dict-of_dict refl
