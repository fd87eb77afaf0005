-- ===== src/Worker/Outcomes.antt =====
-- What `run_task` of worker.py leaves behind on each of its ways out.
use gleanflow.Prelude.{
  ℕ, ◌≡◌, ◌⊎◌, ap, ◌∙◌, String, none, some, Bool, true, false, not, ◌&&◌, List, arith, eq_refl,
  ◌==◌, Bool-cases, Option-cases, inl, inr, if◌then◌else◌,
}
use gleanflow.Prelude.Dict.{Dict, get, get-remove}
use gleanflow.Json.{Json}
use mathlib.Core.Path.{subst}
use gleanflow.Task.{TaskState}
use gleanflow.Config.{PipelineConfig}
use gleanflow.Stage.{Stage}
use gleanflow.Pipeline.{Pipeline}
use gleanflow.Markers.{has_result, has_failure}
use gleanflow.Markers.Laws.{
  has_result-write_result, has_result-write_failure, has_result-clear_running,
  has_failure-clear_running, has_failure-write_failure,
}
use gleanflow.Queue.Local.{LocalQueue, key_of, ack, fail}
use gleanflow.World.{World, track}
use gleanflow.Worker.{
  Outcome, finished, raised, task_of, skip, start, complete, abandon, finish, run_task,
}

some_inj {ℓ} : {A : Type ℓ} {a b : A} → some a ≡ some b → a ≡ b
some_inj e = cc

module _ {W : Type 0} where
  pub store-track :
      (now : Json W) (stage key : String) (state : TaskState) (info : Dict (Json W)) (w : World W)
      → (track now stage key state info w).store ≡ w.store
  unfolding track
  store-track now stage key state info w = ground arith

  pub queue-track :
      (now : Json W) (stage key : String) (state : TaskState) (info : Dict (Json W)) (w : World W)
      → (track now stage key state info w).queue ≡ w.queue
  unfolding track
  queue-track now stage key state info w = ground arith

  pub inflight-ack : (r : ℕ) (q : LocalQueue W) → get (key_of q r) (ack r q).inflight ≡ none
  unfolding ack
  inflight-ack r q = rw (get-remove, eq_refl)

  pub queue-complete :
      (now : Json W) (worker_id : String) (r : ℕ) (outputs : List String) (stats : Dict (Json W))
      (w : World W)
      → (complete now worker_id r outputs stats w).queue ≡ ack r w.queue
  unfolding complete
  queue-complete now worker_id r outputs stats w = rw queue-track

  pub has_result-complete :
      (now : Json W) (worker_id : String) (r : ℕ) (outputs : List String) (stats : Dict (Json W))
      (w : World W) (k : String)
      → has_result (complete now worker_id r outputs stats w).store k
        ≡ (if (task_of r w).key == k then true else has_result w.store k)
  unfolding complete
  has_result-complete now worker_id r outputs stats w k =
      rw (store-track, has_result-clear_running, has_result-write_result)

  -- A chunk is done and its task is out of flight.
  abbrev pub IsDone : String → World W → Type 0
  IsDone k w = (has_result w.store k ≡ true) × (get k w.queue.inflight ≡ none)

  complete-IsDone :
      (now : Json W) (worker_id : String) (r : ℕ) (outputs : List String) (stats : Dict (Json W))
      (w : World W)
      → IsDone (task_of r w).key (complete now worker_id r outputs stats w)
  complete-IsDone now worker_id r outputs stats w = (
    has_result-complete now worker_id r outputs stats w (task_of r w).key ∙ rw eq_refl,
    rw queue-complete (inflight-ack r w.queue),
  )

  skip-IsDone :
      (now : Json W) (r : ℕ) (w : World W)
      → has_result w.store (task_of r w).key ≡ true
      → IsDone (task_of r w).key (skip now r w)
  unfolding skip
  skip-IsDone now r w h = (rw store-track h, rw queue-track (inflight-ack r w.queue))

  -- A failed chunk: its failure is on record, no result is, and the queue has its task back.
  abbrev pub IsFailed : ℕ → World W → World W → Type 0
  IsFailed r w w' =
      (has_failure w'.store (task_of r w).key ≡ true)
      × ((k : String) → has_result w'.store k ≡ has_result w.store k)
      × (w'.queue ≡ fail r w.queue)

  module _ {F : Type 0} (now : Json W) (stage : Stage W F) (cfg : PipelineConfig)
      (worker_id : String) (r : ℕ) (w : World W) where
    pub abandon-IsFailed :
        (last traceback : String) (stats : Dict (Json W))
        → IsFailed r w (abandon now stage cfg r last traceback stats w)
    unfolding abandon
    abandon-IsFailed last traceback stats = (
      rw (store-track, has_failure-clear_running, has_failure-write_failure, eq_refl),
      λ k. rw (store-track, has_result-clear_running, has_result-write_failure),
      rw queue-track,
    )

    finish_succeeds :
        (o : Outcome W) (w' : World W)
        → finish now stage cfg worker_id r w o ≡ (w', true)
        → IsDone (task_of r w).key w'
    unfolding finish
    finish_succeeds (finished outputs stats) w' e =
        subst (IsDone (task_of r w).key) (ap (λ p. p.0) e)
          (complete-IsDone now worker_id r outputs stats w)
    finish_succeeds (raised last traceback stats) w' e = absurd (cc (ap (λ p. p.1) e))

    finish_fails :
        (o : Outcome W) (w' : World W)
        → finish now stage cfg worker_id r w o ≡ (w', false)
        → IsFailed r w w'
    unfolding finish
    finish_fails (finished outputs stats) w' e = absurd (cc (ap (λ p. p.1) e))
    finish_fails (raised last traceback stats) w' e =
        subst (IsFailed r w) (ap (λ p. p.0) e) (abandon-IsFailed last traceback stats)

  -- The world in which the compute of `run_task` ended.
  abbrev pub ran : Json W → String → ℕ → (World W → World W × Outcome W) → World W → World W
  ran began worker_id r compute w = (compute (start began worker_id r w)).0

  module _ {F : Type 0} (pipe : Pipeline W F) (cfg : PipelineConfig) (began now : Json W)
      (worker_id : String) (force : Bool) (r : ℕ) (compute : World W → World W × Outcome W)
      (w w' : World W) where
    pub run_task_cases :
        (b : Bool)
        → run_task pipe cfg began now worker_id force r compute w ≡ some (w', b)
        → ((has_result w.store (task_of r w).key ≡ true) × (skip began r w ≡ w') × (true ≡ b))
          ⊎ ((stage : Stage W F) × (finish now stage cfg worker_id r
                  (ran began worker_id r compute w)
                  (compute (start began worker_id r w)).1
                ≡ (w', b)))
    unfolding run_task
    run_task_cases b e = elim (Bool-cases (not force && has_result w.store (task_of r w).key)) [
      | inl skips ↦
          let has : has_result w.store (task_of r w).key ≡ true = ground arith in
          let p : (skip began r w, true) ≡ (w', b) = some_inj (rw skips at e) in
          inl (has, ap (λ x. x.0) p, ap (λ x. x.1) p)
      | inr runs ↦ elim (Option-cases (get (task_of r w).stage pipe.stages)) [
        | inl unknown ↦ cc
        | inr (stage, known) ↦ inr (stage, some_inj (rw (runs, known) at e))
      ]
    ]

    -- When `run_task` returns True, the task's result marker is in the store and the task is no
    -- longer in flight, whether it was computed or skipped; user code may not change the task's key.
    pub run_task_succeeds :
        (task_of r (ran began worker_id r compute w)).key ≡ (task_of r w).key
        → run_task pipe cfg began now worker_id force r compute w ≡ some (w', true)
        → IsDone (task_of r w).key w'
    run_task_succeeds same e = elim (run_task_cases true e) [
      | inl (has, skipped, _) ↦ subst (IsDone (task_of r w).key) skipped (skip-IsDone began r w has)
      | inr (stage, done) ↦
          subst (λ k. IsDone k w') same
            (finish_succeeds now stage cfg worker_id r (ran began worker_id r compute w)
              (compute (start began worker_id r w)).1 w' done)
    ]

    -- When `run_task` returns False, the failure marker of the task is in the store, the result
    -- markers are those that the compute left, and the queue has failed the task.
    pub run_task_fails :
        run_task pipe cfg began now worker_id force r compute w ≡ some (w', false)
        → IsFailed r (ran began worker_id r compute w) w'
    run_task_fails e = elim (run_task_cases false e) [
      | inl (_, _, wrong) ↦ cc
      | inr (stage, done) ↦
          finish_fails now stage cfg worker_id r (ran began worker_id r compute w)
            (compute (start began worker_id r w)).1 w' done
    ]

-- A task whose result marker exists is not computed again, unless forced: whatever the compute and
-- the pipeline, `run_task` returns True, leaves the store as it is and acknowledges the task.
pub run_task_resumes :
    {W F : Type 0} (pipe : Pipeline W F) (cfg : PipelineConfig) (began now : Json W)
    (worker_id : String) (r : ℕ) (compute : World W → World W × Outcome W) (w : World W)
    → has_result w.store (task_of r w).key ≡ true
    → (w' : World W) × (run_task pipe cfg began now worker_id false r compute w ≡ some (w', true))
      × (w'.store ≡ w.store)
      × (w'.queue ≡ ack r w.queue)
unfolding run_task skip
run_task_resumes pipe cfg began now worker_id r compute w h =
    (skip began r w, rw h, rw store-track, rw queue-track)
