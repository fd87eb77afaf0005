-- ===== src/Tests/Messages.antt =====
-- A service that lists its messages, each under the handle "h".
use gleanflow.Prelude.{ℕ, none, some, List, [], ◌∷◌, ◌++◌, ◌≡◌, refl, length}
use gleanflow.Prelude.Dict.{get_or}
use gleanflow.Float.{nat_float}
use gleanflow.Task.{Task, to_json}
use gleanflow.Task.Message.{from_json-to_json}
use gleanflow.Queue.Sqs.{Message, SqsOps, SqsQueue, task_of_message, claim}
use gleanflow.Queue.Sqs.Handles.{Settles, claim-Settles}

abbrev received : List (Message ℕ) → List (Message ℕ) × List (Message ℕ)
received [] = ([], [])
received (m ∷ ms) = (ms, m ∷ [])

abbrev mailbox : SqsOps (List (Message ℕ)) ℕ
mailbox = record {
  send_message =
      λ b ms. ms ++ record { body = b; receipt_handle = "h"; receive_count = some 2 } ∷ [];
  receive_message = λ lease ms. received ms;
  change_message_visibility = λ rh n ms. ms;
  delete_message = λ rh ms. ms;
  attributes = λ ms. (some (length ms), none);
}

abbrev job : Task ℕ
job = record { stage = "s"; key = "s.a"; params = []; weight = 1; attempt = 1 }

abbrev message : Message ℕ
message = record { body = to_json job; receipt_handle = "h"; receive_count = some 2 }

queue : SqsQueue (List (Message ℕ))
queue = record { sqs = message ∷ []; receipts = [] }

message_job : task_of_message message ≡ some job
unfolding task_of_message get_or
message_job = rw (from_json-to_json job) refl

claim-Settles_example :
    ((claim mailbox 300 queue).1 ≡ some (some job))
    × ((claim mailbox 300 queue).0.sqs ≡ [])
    × Settles mailbox job "h" 60 (claim mailbox 300 queue).0
unfolding queue
claim-Settles_example = claim-Settles mailbox 300 60 queue message [] job refl message_job refl
