-- ===== src/Queue/Sqs/Handles.antt =====
-- gleanflow/queue/sqs.py: which message a settled task's calls reach.
use gleanflow.Prelude.{
  ℕ, String, Option, none, some, false, List, [], ◌∷◌, ◌≡◌, refl, ap, ◌∙◌, ◌==◌, eq_refl, inl, inr,
  Bool-cases,
}
use gleanflow.Prelude.Dict.{Dict, get, put, remove, get-put, get-remove}
use gleanflow.Float.{FloatOps}
use gleanflow.Task.{Task}
use gleanflow.Queue.Sqs.{
  Message, SqsOps, SqsQueue, task_of_message, keep_receipt, take_message, claim, with_handle,
  extend, ack, fail,
}

remove-remove : {V : Type 0} (k : String) (d : Dict V) → remove k (remove k d) ≡ remove k d
unfolding remove
remove-remove k [] = refl
remove-remove k ((j, v) ∷ d) = elim (Bool-cases (j == k)) [
  | inl here ↦ rw here (remove-remove k d)
  | inr other ↦ rw (other, other) (ap (◌∷◌ (j, v)) (remove-remove k d))
]

module _ {S W : Type 0} ⦃f : FloatOps W⦄ (service : SqsOps S W) where
  handle_gone : (k : String) (receipts : Dict String) → get k (remove k receipts) ≡ none
  handle_gone k receipts = get-remove k k receipts ∙ rw (eq_refl k) refl

  -- The queue behind a claim of the message `m` for `task`.
  claimed :
      (lease : ℕ) (q : SqsQueue S) (m : Message W) (ms : List (Message W)) (task : Task W)
      → (service.receive_message lease q.sqs).1 ≡ m ∷ ms
      → task_of_message m ≡ some task
      → claim service lease q ≡ (
        record q {
          sqs = (service.receive_message lease q.sqs).0;
          receipts = put task.key m.receipt_handle q.receipts;
        },
        some (some task),
      )
  unfolding claim take_message keep_receipt
  claimed lease q m ms task e t = rw (e, t) refl

  -- The calls on a queue that holds the handle `rh` for a task.
  unfoldable pub Settles : Task W → String → ℕ → SqsQueue S → Type 0
  Settles task rh more q =
      ((ack service task q).sqs ≡ service.delete_message rh q.sqs)
      × ((fail service task q).sqs ≡ service.change_message_visibility rh 0 q.sqs)
      × ((extend service task more q).sqs ≡ service.change_message_visibility rh more q.sqs)
      × (ack service task (ack service task q) ≡ ack service task q)
      × (fail service task (ack service task q) ≡ ack service task q)
      × (ack service task (fail service task q) ≡ fail service task q)
      × (fail service task (fail service task q) ≡ fail service task q)
      × (extend service task more (ack service task q) ≡ ack service task q)
      × (extend service task more (fail service task q) ≡ fail service task q)

  held-Settles :
      (task : Task W) (rh : String) (more : ℕ) (q : SqsQueue S)
      → get task.key q.receipts ≡ some rh
      → (rh == "") ≡ false
      → Settles task rh more q
  unfolding Settles ack fail extend with_handle
  held-Settles task rh more q e h =
      let gone = handle_gone task.key q.receipts in
      let once = remove-remove task.key q.receipts in
      (
        rw (e, h) refl,
        rw (e, h) refl,
        rw (e, h) refl,
        rw (gone, once) refl,
        rw (gone, once) refl,
        rw (gone, once) refl,
        rw (gone, once) refl,
        rw gone refl,
        rw gone refl,
      )

  -- Where the service hands out a message whose body is a task, under a handle that is no empty text,
  -- `claim` gives the task; then `ack` deletes that message, `fail` makes it visible at once and
  -- `extend` sets its timeout, and after an `ack` or a `fail` none of the three does anything.
  pub claim-Settles :
      (lease more : ℕ) (q : SqsQueue S) (m : Message W) (ms : List (Message W)) (task : Task W)
      → (service.receive_message lease q.sqs).1 ≡ m ∷ ms
      → task_of_message m ≡ some task
      → (m.receipt_handle == "") ≡ false
      → ((claim service lease q).1 ≡ some (some task))
        × ((claim service lease q).0.sqs ≡ (service.receive_message lease q.sqs).0)
        × Settles task m.receipt_handle more (claim service lease q).0
  claim-Settles lease more q m ms task e t h =
      let c = claimed lease q m ms task e t in
      let held : get task.key (claim service lease q).0.receipts ≡ some m.receipt_handle =
        ap (λ (r : SqsQueue S × Option (Option (Task W))). get task.key r.0.receipts) c
        ∙ get-put task.key task.key m.receipt_handle q.receipts
        ∙ rw (eq_refl task.key) refl in
      (
        ap (λ r. r.1) c,
        ap (λ (r : SqsQueue S × Option (Option (Task W))). r.0.sqs) c,
        held-Settles task m.receipt_handle more (claim service lease q).0 held h,
      )
