-- ===== src/Worker/Poll/Works.antt =====
-- A worker of worker.py that has a queue for itself.
use gleanflow.Prelude.{
  ℕ, suc, ◌+◌, ◌≡◌, refl, sym, ap, ◌∙◌, String, Option, none, some, Bool, true, false, not, ◌&&◌,
  List, [], ◌∷◌, length, arith, eq_refl, Bool-cases, inl, inr, All, All-map_imp,
}
use mathlib.Core.Path.{subst}
use gleanflow.Prelude.Dict.{Dict, get, put, remove}
use gleanflow.Json.{Json}
use gleanflow.Config.{PipelineConfig}
use gleanflow.Stage.{Stage}
use gleanflow.Pipeline.{Pipeline}
use gleanflow.Markers.{has_result}
use gleanflow.Queue.Local.{LocalQueue, key_of, ack, sweep, expired, sweep_keys, claim, claim_ready}
use gleanflow.World.{World}
use gleanflow.World.Kept.{Keeps, Keeps-refl, Keeps-trans}
use gleanflow.Worker.{Outcome, finished, task_of, skip, start, complete, finish, run_task}
use gleanflow.Worker.Outcomes.{queue-track, has_result-complete, queue-complete}
use gleanflow.Worker.Poll.{Polled, poll_turn, claimed_turn, poll_loop}
use gleanflow.Worker.Poll.Keeping.{complete-Keeps, skip-Keeps, start-Keeps}

module _ {W : Type 0} where
  -- The queue after the claim of its first task.
  abbrev taken : ℕ → ℕ → List ℕ → LocalQueue W → LocalQueue W
  taken until r rs q = record q { ready = rs; inflight = (key_of q r, (r, until)) ∷ [] }

  claim_first :
      (now lease r : ℕ) (rs : List ℕ) (q : LocalQueue W)
      → q.ready ≡ r ∷ rs
      → q.inflight ≡ []
      → claim now lease q ≡ (taken (now + lease) r rs q, some r)
  unfolding claim sweep expired sweep_keys claim_ready put
  claim_first now lease r rs q ready idle = rw (idle, ready) refl

  ack_only :
      (until r : ℕ) (rs : List ℕ) (q : LocalQueue W)
      → ack r (taken until r rs q) ≡ record q { ready = rs; inflight = [] }
  unfolding ack remove
  ack_only until r rs q = rw eq_refl refl

-- A stage function that returns, keeps the results, and leaves the queue to the worker.
pub record Finishes {W : Type 0} (compute : World W → World W × Outcome W) (w : World W)
    : Type 0 where
  pub outputs : List String
  pub stats : Dict (Json W)
  pub returns : (compute w).1 ≡ finished outputs stats
  pub queue : (compute w).0.queue ≡ w.queue
  pub keeps : Keeps w (compute w).0

module _ {W F : Type 0} (pipe : Pipeline W F) (cfg : PipelineConfig) where
  -- What a run of a task leaves.
  pub record Worked (r : ℕ) (w w' : World W) : Type 0 where
    pub queue : w'.queue ≡ ack r w.queue
    pub result : has_result w'.store (task_of r w).key ≡ true
    pub keeps : Keeps w w'

  start-queue :
      (now : Json W) (worker_id : String) (r : ℕ) (w : World W)
      → (start now worker_id r w).queue ≡ w.queue
  unfolding start
  start-queue now worker_id r w = rw queue-track

  works :
      (began now : Json W) (worker_id : String) (force : Bool) (r : ℕ)
      (compute : World W → World W × Outcome W) (w : World W) (stage : Stage W F)
      → get (task_of r w).stage pipe.stages ≡ some stage
      → Finishes compute (start began worker_id r w)
      → (w' : World W) × (run_task pipe cfg began now worker_id force r compute w ≡ some (w', true))
        × Worked r w w'
  unfolding run_task finish
  works began now worker_id force r compute w stage known f =
      let v = start began worker_id r w in
      let after = (compute v).0 in
      let begun = start-Keeps began worker_id r w in
      elim (Bool-cases (not force && has_result w.store (task_of r w).key)) [
        | inl skips ↦ (
          skip began r w,
          rw skips refl,
          record {
            queue = unfold skip in rw queue-track refl;
            result = (skip-Keeps began r w).results (task_of r w).key (ground arith);
            keeps = skip-Keeps began r w;
          },
        )
        | inr runs ↦ (
          complete now worker_id r f.outputs f.stats after,
          rw (runs, known, f.returns) refl,
          record {
            queue =
                queue-complete now worker_id r f.outputs f.stats after
                ∙ ap (ack r) (f.queue ∙ start-queue began worker_id r w);
            result =
                has_result-complete now worker_id r f.outputs f.stats after (task_of r w).key
                ∙ rw (f.keeps.names r ∙ begun.names r, eq_refl) refl;
            keeps =
                Keeps-trans begun
                  (Keeps-trans f.keeps (complete-Keeps now worker_id r f.outputs f.stats after));
          },
        )
      ]

  -- The task's stage is in the pipeline.
  abbrev pub IsKnown : LocalQueue W → ℕ → Type 0
  IsKnown q r = (stage : Stage W F) × (get (q.heap r).stage pipe.stages ≡ some stage)

  module _ (began ended : ℕ → Json W) (worker_id : String) (force : Bool) (idle_timeout lease : ℕ)
      (stop : ℕ → Bool) (clock : ℕ → ℕ) (compute : ℕ → World W → World W × Outcome W)
      (runs : (i : ℕ) → stop i ≡ false)
      (finishes : (i : ℕ) (w : World W) → Finishes (compute i) w) where
    -- The loop of a worker that is alone.
    abbrev pub polls : ℕ → ℕ → Option ℕ → World W → Polled W
    polls =
        poll_loop pipe cfg began ended worker_id force idle_timeout lease stop clock (λ i w. w)
          compute

    one_turn :
        (turns i r : ℕ) (rs : List ℕ) (since : Option ℕ) (w : World W)
        → w.queue.ready ≡ r ∷ rs
        → w.queue.inflight ≡ []
        → IsKnown w.queue r
        → (w' : World W) × (polls (suc turns) i since w ≡ polls turns (suc i) none w')
          × (w'.queue ≡ record w.queue { ready = rs; inflight = [] })
          × (has_result w'.store (key_of w.queue r) ≡ true)
          × Keeps w w'
    unfolding poll_loop poll_turn claimed_turn
    one_turn turns i r rs since w ready idle (stage, known) =
        let until = clock i + lease in
        let q = taken until r rs w.queue in
        let w2 = record w { queue = q } in
        let now = clock i in
        let claimed = claim_first now lease r rs w.queue ready idle in
        let (w', ran, done) =
          works (began now) (ended now) worker_id force r (compute i) w2 stage known
            (finishes i (start (began now) worker_id r w2)) in
        (
          w',
          rw (runs i, claimed, ran) refl,
          done.queue ∙ ack_only until r rs w.queue,
          done.result,
          record { results = done.keeps.results; names = done.keeps.names },
        )

    -- A worker that has a queue to itself, with n tasks ready and none in flight, whose stages are known
    -- and whose stage functions return, keep the results and leave the queue alone, has worked them all
    -- after n turns, whatever the clock reads: each of them has a result, the queue is empty, nothing is
    -- dead that was not, and no result is gone. The loop goes on from there.
    pub poll_loop-Works :
        (rs : List ℕ) (turns i : ℕ) (since : Option ℕ) (w : World W)
        → w.queue.ready ≡ rs
        → w.queue.inflight ≡ []
        → All (IsKnown w.queue) rs
        → (since' : Option ℕ) × (w' : World W) × (polls (length rs + turns) i since w
            ≡ polls turns (length rs + i) since' w')
          × (w'.queue ≡ record w.queue { ready = []; inflight = [] })
          × All (λ r. has_result w'.store (key_of w.queue r) ≡ true) rs
          × Keeps w w'
    poll_loop-Works [] turns i since w ready idle known =
        let turns_left : length {A = ℕ} [] + turns ≡ turns = omega arith in
        let now : length {A = ℕ} [] + i ≡ i = omega arith in
        (since, w, rw (turns_left, now) refl, rw (ready, idle) refl, tt, Keeps-refl w)
    poll_loop-Works (r ∷ rs) turns i since w ready idle (here, known) =
        let n = length rs + turns in
        let (w1, turned, left, done, kept) = one_turn n i r rs since w ready idle here in
        let known1 : All (IsKnown w1.queue) rs = subst (λ q. All (IsKnown q) rs) (sym left) known in
        let (since', w', rest, end, all, kept') =
          poll_loop-Works rs turns (suc i) none w1 (ap (λ q. q.ready) left)
            (ap (λ q. q.inflight) left) known1 in
        let more : length (r ∷ rs) + turns ≡ suc n = omega arith in
        let moved : length (r ∷ rs) + i ≡ length rs + suc i = omega arith in
        (
          since',
          w',
          rw (more, moved) (turned ∙ rest),
          end ∙ rw left refl,
          (kept'.results _ done, All-map_imp rs (λ s h. rw (sym (kept.names s)) h) all),
          Keeps-trans kept kept',
        )
