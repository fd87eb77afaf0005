-- ===== src/Queue/Sqs.antt =====
-- gleanflow/queue/sqs.py: `SqsQueue`. The service SQS is a parameter: its operations on its own
-- state. A lease is a number of seconds.
pub mod Handles
use gleanflow.Prelude.{ℕ, ◌+◌, ◌-◌, String, Option, none, some, List, [], ◌∷◌, ◌==◌, if◌then◌else◌}
use gleanflow.Prelude.Dict.{Dict, get, get_or, put, remove}
use gleanflow.Float.{FloatOps}
use gleanflow.Json.{Json, ◌>>=◌}
use gleanflow.Task.{Task, to_json, from_json}

pub record Message (W : Type 0) : Type 0 where
  pub body : Json W
  pub receipt_handle : String
  -- `ApproximateReceiveCount`
  pub receive_count : Option ℕ

pub record SqsOps (S W : Type 0) : Type 0 where
  pub send_message : Json W → S → S
  pub receive_message : ℕ → S → S × List (Message W)
  pub change_message_visibility : String → ℕ → S → S
  pub delete_message : String → S → S
  -- `ApproximateNumberOfMessages` and `ApproximateNumberOfMessagesNotVisible`
  pub attributes : S → Option ℕ × Option ℕ

pub record SqsQueue (S : Type 0) : Type 0 where
  pub sqs : S
  pub receipts : Dict String

module _ {W : Type 0} ⦃f : FloatOps W⦄ where
  -- The task of a message; its attempts are counted by the service, from 1 on.
  unfoldable pub task_of_message : Message W → Option (Task W)
  task_of_message m = do
    task ← from_json m.body
    some (record task { attempt = get_or 1 m.receive_count - 1 })

  module _ {S : Type 0} where
    unfoldable pub keep_receipt :
        Message W → Option (Task W) → SqsQueue S → SqsQueue S × Option (Option (Task W))
    keep_receipt m none q = (q, none)
    keep_receipt m (some task) q =
        (record q { receipts = put task.key m.receipt_handle q.receipts }, some (some task))

    unfoldable pub take_message :
        List (Message W) → SqsQueue S → SqsQueue S × Option (Option (Task W))
    take_message [] q = (q, some none)
    take_message (m ∷ ms) q = keep_receipt m (task_of_message m) q

module _ {S : Type 0} where
  -- `if rh:`
  unfoldable pub with_handle : Option String → (String → S → S) → S → S
  with_handle none step s = s
  with_handle (some rh) step s = if rh == "" then s else step rh s

module _ {S W : Type 0} ⦃f : FloatOps W⦄ (service : SqsOps S W) where
  unfoldable pub enqueue : Task W → SqsQueue S → SqsQueue S
  enqueue task q = record q { sqs = service.send_message (to_json task) q.sqs }

  -- `none` stands for the exception of a body that is no task, `some none` for no message.
  unfoldable pub claim : ℕ → SqsQueue S → SqsQueue S × Option (Option (Task W))
  claim lease q =
      let r = service.receive_message lease q.sqs in take_message r.1 (record q { sqs = r.0 })

  unfoldable pub extend : Task W → ℕ → SqsQueue S → SqsQueue S
  extend task lease q =
      let step = λ (rh : String). service.change_message_visibility rh lease in
      record q { sqs = with_handle (get task.key q.receipts) step q.sqs }

  unfoldable pub ack : Task W → SqsQueue S → SqsQueue S
  ack task q = record q {
    sqs = with_handle (get task.key q.receipts) service.delete_message q.sqs;
    receipts = remove task.key q.receipts;
  }

  unfoldable pub fail : Task W → SqsQueue S → SqsQueue S
  fail task q =
      let step = λ (rh : String). service.change_message_visibility rh 0 in
      record q {
        sqs = with_handle (get task.key q.receipts) step q.sqs;
        receipts = remove task.key q.receipts;
      }

  unfoldable pub depth : SqsQueue S → ℕ
  depth q = let a = service.attributes q.sqs in get_or 0 a.0 + get_or 0 a.1
