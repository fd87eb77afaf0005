-- ===== src/Worker/Poll/Keeping.antt =====
-- No worker of worker.py takes a result out of the store or changes the key of a task.
use gleanflow.Prelude.{
  ℕ, zero, suc, ◌+◌, ◌-◌, ◌≡◌, refl, ◌∙◌, ap, String, Option, none, some, Bool, List, [], ◌∷◌, leb,
  arith, Bool-cases, inl, inr,
}
use mathlib.Core.Path.{subst}
use gleanflow.Prelude.Dict.{Dict}
use gleanflow.Json.{Json}
use gleanflow.Config.{PipelineConfig, or_else}
use gleanflow.Stage.{Stage}
use gleanflow.Pipeline.{Pipeline}
use gleanflow.Task.{TaskState, skipped}
use gleanflow.Markers.Laws.{
  has_result-write_failure, has_result-write_running, has_result-clear_running,
}
use gleanflow.Queue.Local.{LocalQueue, key_of, ack, fail, sweep, claim, claim_ready}
use gleanflow.Queue.Local.Lease.{key-redeliver}
use gleanflow.World.{World, track}
use gleanflow.World.Kept.{Keeps, Keeps-refl, Keeps-trans, sweep-Keeps}
use gleanflow.Worker.{
  Outcome, finished, raised, task_of, skip, start, complete, abandon, finish, run_task,
}
use gleanflow.Worker.Outcomes.{
  store-track, queue-track, has_result-complete, queue-complete, run_task_cases,
}
use gleanflow.Worker.Poll.{
  Polled, left, raised_in, polling, idle_turn, claimed_turn, poll_turn, poll_loop,
}

module _ {W : Type 0} where
  track-Keeps :
      (now : Json W) (stage key : String) (state : TaskState) (info : Dict (Json W)) (w : World W)
      → Keeps w (track now stage key state info w)
  track-Keeps now stage key state info w = record {
    results = λ k h. rw store-track h;
    names = λ r. ap (λ q. key_of q r) (queue-track now stage key state info w);
  }

  pub skip-Keeps : (now : Json W) (r : ℕ) (w : World W) → Keeps w (skip now r w)
  unfolding skip ack
  skip-Keeps now r w =
      let t = task_of r w in
      let tracked = track-Keeps now t.stage t.key skipped [] w in
      record { results = tracked.results; names = tracked.names }

  pub start-Keeps :
      (now : Json W) (worker_id : String) (r : ℕ) (w : World W) → Keeps w (start now worker_id r w)
  unfolding start
  start-Keeps now worker_id r w = record {
    results = λ k h. rw (has_result-write_running, store-track) h;
    names = λ s. rw queue-track;
  }

  pub complete-Keeps :
      (now : Json W) (worker_id : String) (r : ℕ) (outputs : List String) (stats : Dict (Json W))
      (w : World W)
      → Keeps w (complete now worker_id r outputs stats w)
  unfolding ack
  complete-Keeps now worker_id r outputs stats w = record {
    results = λ k h. has_result-complete now worker_id r outputs stats w k ∙ rw h (ground arith);
    names = λ s. ap (λ q. key_of q s) (queue-complete now worker_id r outputs stats w);
  }

  abandon-Keeps :
      {F : Type 0} (now : Json W) (stage : Stage W F) (cfg : PipelineConfig) (r : ℕ)
      (last traceback : String) (stats : Dict (Json W)) (w : World W)
      → Keeps w (abandon now stage cfg r last traceback stats w)
  unfolding abandon fail ack
  abandon-Keeps now stage cfg r last traceback stats w = record {
    results = λ k h. rw (store-track, has_result-clear_running, has_result-write_failure) h;
    names = λ s. rw (key-redeliver, queue-track);
  }

  claim_ready-names :
      (ready : List ℕ) (deadline s : ℕ) (q : LocalQueue W)
      → key_of (claim_ready ready deadline q).0 s ≡ key_of q s
  unfolding claim_ready
  claim_ready-names [] deadline s q = refl
  claim_ready-names (r ∷ ready) deadline s q = refl

  claim-Keeps :
      (now lease : ℕ) (w : World W) → Keeps w (record w { queue = (claim now lease w.queue).0 })
  unfolding claim
  claim-Keeps now lease w =
      let swept = sweep now w.queue in
      record {
        results = λ k h. h;
        names =
            λ s. claim_ready-names swept.ready (now + lease) s swept ∙ (sweep-Keeps now w).names s;
      }

  -- What a poll loop that began at `w` has kept by its end.
  abbrev pub PolledKeeps : World W → Polled W → Type 0
  PolledKeeps w (left w') = Keeps w w'
  PolledKeeps w (raised_in w') = Keeps w w'
  PolledKeeps w polling = Unit

  PolledKeeps-before :
      (v w : World W) (p : Polled W) → Keeps v w → PolledKeeps w p → PolledKeeps v p
  PolledKeeps-before v w (left w') a b = Keeps-trans a b
  PolledKeeps-before v w (raised_in w') a b = Keeps-trans a b
  PolledKeeps-before v w polling a b = tt

module _ {W F : Type 0} (pipe : Pipeline W F) (cfg : PipelineConfig) where
  finish-Keeps :
      (now : Json W) (stage : Stage W F) (worker_id : String) (r : ℕ) (w : World W) (o : Outcome W)
      → Keeps w (finish now stage cfg worker_id r w o).0
  unfolding finish
  finish-Keeps now stage worker_id r w (finished outputs stats) =
      complete-Keeps now worker_id r outputs stats w
  finish-Keeps now stage worker_id r w (raised last traceback stats) =
      abandon-Keeps now stage cfg r last traceback stats w

  run_task-Keeps :
      (began now : Json W) (worker_id : String) (force : Bool) (r : ℕ)
      (compute : World W → World W × Outcome W) (w w' : World W) (b : Bool)
      → ((v : World W) → Keeps v (compute v).0)
      → run_task pipe cfg began now worker_id force r compute w ≡ some (w', b)
      → Keeps w w'
  run_task-Keeps began now worker_id force r compute w w' b keep e =
      let v = start began worker_id r w in
      let computed = Keeps-trans (start-Keeps began worker_id r w) (keep v) in
      elim (run_task_cases pipe cfg began now worker_id force r compute w w' b e) [
        | inl (_, same, _) ↦ subst (Keeps w) same (skip-Keeps began r w)
        | inr (stage, ends) ↦
            subst (Keeps w) (ap (λ (p : World W × Bool). p.0) ends) (
              Keeps-trans computed (finish-Keeps now stage worker_id r (compute v).0 (compute v).1))
      ]

  module _ (began ended : ℕ → Json W) (worker_id : String) (force : Bool)
      (idle_timeout lease : ℕ) where
    claimed_turn-Keeps :
        (o : Option (World W × Bool)) (w : World W) (go_on : Option ℕ → World W → Polled W)
        → ((w' : World W) (b : Bool) → o ≡ some (w', b) → Keeps w w')
        → ((since : Option ℕ) (w' : World W) → PolledKeeps w' (go_on since w'))
        → PolledKeeps w
            (claimed_turn pipe cfg began ended worker_id force idle_timeout lease o w go_on)
    unfolding claimed_turn
    claimed_turn-Keeps none w go_on keep rest = Keeps-refl w
    claimed_turn-Keeps (some (w', b)) w go_on keep rest =
        PolledKeeps-before w w' (go_on none w') (keep w' b refl) (rest none w')

    idle_turn-Keeps :
        (now : ℕ) (idle_since : Option ℕ) (w : World W) (go_on : Option ℕ → World W → Polled W)
        → ((since : Option ℕ) (w' : World W) → PolledKeeps w' (go_on since w'))
        → PolledKeeps w (
            idle_turn pipe cfg began ended worker_id force idle_timeout lease now idle_since w
              go_on)
    unfolding idle_turn
    idle_turn-Keeps now idle_since w go_on rest =
        let since = or_else idle_since now in
        elim (Bool-cases (leb idle_timeout (now - since))) [
          | inl idle ↦ rw idle (Keeps-refl w)
          | inr busy ↦ rw busy (rest (some since) w)
        ]

    poll_turn-Keeps :
        (now : ℕ) (compute : World W → World W × Outcome W) (claimed idle_since : Option ℕ)
        (w : World W) (go_on : Option ℕ → World W → Polled W)
        → ((v : World W) → Keeps v (compute v).0)
        → ((since : Option ℕ) (w' : World W) → PolledKeeps w' (go_on since w'))
        → PolledKeeps w (
            poll_turn pipe cfg began ended worker_id force idle_timeout lease now compute claimed
              idle_since w go_on)
    unfolding poll_turn
    poll_turn-Keeps now compute none idle_since w go_on keep rest =
        idle_turn-Keeps now idle_since w go_on rest
    poll_turn-Keeps now compute (some r) idle_since w go_on keep rest =
        claimed_turn-Keeps (run_task pipe cfg (began now) (ended now) worker_id force r compute w) w
          go_on
          (λ w' b e. run_task-Keeps (began now) (ended now) worker_id force r compute w w' b keep e)
          rest

    module _ (stop : ℕ → Bool) (clock : ℕ → ℕ) (others : ℕ → World W → World W)
        (compute : ℕ → World W → World W × Outcome W) where
      -- Where the stage functions and the other threads keep the results in the store and the keys of
      -- the tasks, so does a worker: by the end of its loop no result is gone and no key has changed.
      pub poll_loop-Keeps :
          (turns i : ℕ) (idle_since : Option ℕ) (w : World W)
          → ((j : ℕ) (v : World W) → Keeps v (others j v))
          → ((j : ℕ) (v : World W) → Keeps v (compute j v).0)
          → PolledKeeps w (
              poll_loop pipe cfg began ended worker_id force idle_timeout lease stop clock others
                compute turns i idle_since w)
      unfolding poll_loop
      poll_loop-Keeps zero i idle_since w other keep = tt
      poll_loop-Keeps (suc turns) i idle_since w other keep = elim (Bool-cases (stop i)) [
        | inl stops ↦ rw stops (Keeps-refl w)
        | inr runs ↦
            let w1 = others i w in
            let answer = claim (clock i) lease w1.queue in
            let w2 = record w1 { queue = answer.0 } in
            let go_on = λ (since : Option ℕ) (v : World W).
              poll_loop pipe cfg began ended worker_id force idle_timeout lease stop clock others
                compute turns (suc i) since v in
            rw runs (
              PolledKeeps-before w w2
                (poll_turn pipe cfg began ended worker_id force idle_timeout lease (clock i)
                  (compute i) answer.1 idle_since w2 go_on)
                (Keeps-trans (other i w) (claim-Keeps (clock i) lease w1))
                (poll_turn-Keeps (clock i) (compute i) answer.1 idle_since w2 go_on (keep i)
                  (λ since v. poll_loop-Keeps turns (suc i) since v other keep)))
      ]
