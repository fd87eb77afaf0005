-- ===== src/Tests/Workers.antt =====
-- A worker with one leased task: its compute succeeds, fails, or is skipped.
use gleanflow.Prelude.{
  ℕ, Option, List, length, All, nat_beq, if◌then◌else◌, ◌+◌, ◌*◌, arith, ◌≡◌, refl, some, none,
  true, false, [], ◌∷◌,
}
use gleanflow.Prelude.Dict.{get}
use gleanflow.Json.{Json, int}
use gleanflow.Float.{nat_float}
use gleanflow.Config.{default_config}
use gleanflow.Stage.{Stage}
use gleanflow.Pipeline.{Pipeline}
use gleanflow.Task.{Task, to_json, from_json}
use gleanflow.Task.Message.{from_json-to_json}
use gleanflow.Markers.{has_result}
use gleanflow.Worker.Poll.{poll_loop}
use gleanflow.Worker.Poll.Idle.{has_left, poll_loop_leaves}
use gleanflow.Queue.Local.{claim, sweep, expired, sweep_keys, claim_ready, LocalQueue, key_of, ack}
use gleanflow.World.{World, track}
use gleanflow.World.Kept.{Keeps, Keeps-refl}
use gleanflow.Worker.Once.{run_task_once}
use gleanflow.Worker.Poll.Works.{Finishes, poll_loop-Works}
use gleanflow.Worker.{
  Outcome, finished, raised, task_of, start, complete, abandon, finish, run_task,
}
use gleanflow.Worker.Outcomes.{IsDone, IsFailed, ran, run_task_succeeds, run_task_fails}

abbrev job : Task ℕ
job = record { stage = "s"; key = "s.a"; params = []; weight = 1; attempt = 0 }

abbrev leased : LocalQueue ℕ
leased = record {
  heap = λ r. job;
  max_redeliveries = 3;
  ready = [];
  inflight = ("s.a", (0, 300)) ∷ [];
  dlq = [];
}

abbrev fresh : World ℕ
fresh = record { queue = leased; store = []; tracker = none }

abbrev step : Stage ℕ ℕ
step = record {
  name = "s";
  fn = 0;
  reads = none;
  chunk_by = none;
  target_rows = none;
  target_bytes = none;
  partition = none;
  vcpu = none;
  mem = none;
  omp = none;
  retries = 2;
  checkpoint = false;
  cap_rows = 1000;
}

abbrev one_stage : Pipeline ℕ ℕ
one_stage = record { name = "p"; stages = ("s", step) ∷ [] }

abbrev now : Json ℕ
now = int 7

abbrev succeeds : World ℕ → World ℕ × Outcome ℕ
succeeds w = (w, finished ("s/part-00000.jsonl" ∷ []) [])

abbrev raises : World ℕ → World ℕ × Outcome ℕ
raises w = (w, raised "MemoryError" "Traceback" [])

abbrev completed : World ℕ
completed = complete now "w0" 0 ("s/part-00000.jsonl" ∷ []) [] (start now "w0" 0 fresh)

abbrev abandoned : World ℕ
abandoned = abandon now step default_config 0 "MemoryError" "Traceback" [] (start now "w0" 0 fresh)

completes :
    run_task one_stage default_config now now "w0" true 0 succeeds fresh ≡ some (completed, true)
unfolding run_task finish get
completes = refl

fails : run_task one_stage default_config now now "w0" true 0 raises fresh ≡ some (abandoned, false)
unfolding run_task finish get
fails = refl

same_key : (task_of 0 (ran now "w0" 0 succeeds fresh)).key ≡ "s.a"
unfolding start track
same_key = refl

run_task_succeeds_example : IsDone "s.a" completed
run_task_succeeds_example =
    run_task_succeeds one_stage default_config now now "w0" true 0 succeeds fresh completed same_key
      completes

run_task_fails_example : IsFailed 0 (ran now "w0" 0 raises fresh) abandoned
run_task_fails_example =
    run_task_fails one_stage default_config now now "w0" true 0 raises fresh abandoned fails

-- The task is delivered again after its lease ran out, to a worker on which it would fail.
abbrev delivered_again : World ℕ
delivered_again = record completed { queue = leased }

run_task_once_example :
    (end : World ℕ) × (run_task one_stage default_config now
        (int 8)
        "w1"
        false
        0
        raises
        delivered_again
      ≡ some (end, true))
    × (end.store ≡ delivered_again.store)
    × (end.queue ≡ ack 0 leased)
    × (get "s.a" end.queue.inflight ≡ none)
run_task_once_example =
    run_task_once one_stage default_config now now now (int 8) "w0" "w1" true 0 0 succeeds raises
      fresh completed delivered_again same_key completes (λ k h. h) refl

from_json-to_json_example : from_json (to_json job) ≡ some job
from_json-to_json_example = from_json-to_json job

-- A queue that stays empty, and a clock that reads 30 * i + 1 at turn i.
abbrev no_tasks : LocalQueue ℕ
no_tasks = record leased { inflight = [] }

abbrev emptied : ℕ → World ℕ → World ℕ
emptied i w = record w { queue = no_tasks }

abbrev clock : ℕ → ℕ
clock i = 30 * i + 1

no_claim : (i : ℕ) (w : World ℕ) → (claim (clock i) 300 (emptied i w).queue).1 ≡ none
unfolding claim sweep expired sweep_keys claim_ready
no_claim i w = refl

poll_loop_leaves_example :
    has_left (
      poll_loop one_stage default_config
        (λ n. int n)
        (λ n. int (n + 1))
        "w0"
        false
        60
        300
        (λ i. false)
        clock
        emptied
        (λ i. succeeds)
        3
        0
        (some 1)
        fresh)
    ≡ true
poll_loop_leaves_example =
    poll_loop_leaves one_stage default_config (λ n. int n) (λ n. int (n + 1)) "w0" false 60 300
      (λ i. false) clock emptied (λ i. succeeds) no_claim 2 0 1 fresh (omega arith) (omega arith)

-- Two tasks for one worker.
abbrev two_tasks : World ℕ
two_tasks = record fresh {
  queue = record leased {
    heap = λ r. record job { key = if nat_beq r 0 then "s.a" else "s.b" };
    ready = 0 ∷ 1 ∷ [];
    inflight = [];
  };
}

abbrev refs : List ℕ
refs = 0 ∷ 1 ∷ []

succeeds-Finishes : (i : ℕ) (w : World ℕ) → Finishes succeeds w
succeeds-Finishes i w = record {
  outputs = "s/part-00000.jsonl" ∷ [];
  stats = [];
  returns = refl;
  queue = refl;
  keeps = Keeps-refl w;
}

step_known : get "s" one_stage.stages ≡ some step
unfolding get
step_known = refl

poll_loop-Works_example :
    (since : Option ℕ) × (w' : World ℕ) × (poll_loop one_stage default_config
        (λ n. int n)
        (λ n. int (n + 1))
        "w0"
        false
        60
        300
        (λ i. false)
        clock
        (λ i w. w)
        (λ i. succeeds)
        (length refs + 3)
        0
        none
        two_tasks
      ≡ poll_loop one_stage default_config
          (λ n. int n)
          (λ n. int (n + 1))
          "w0"
          false
          60
          300
          (λ i. false)
          clock
          (λ i w. w)
          (λ i. succeeds)
          3
          (length refs + 0)
          since
          w')
    × (w'.queue ≡ record two_tasks.queue { ready = []; inflight = [] })
    × All (λ r. has_result w'.store (key_of two_tasks.queue r) ≡ true) refs
    × Keeps two_tasks w'
poll_loop-Works_example =
    poll_loop-Works one_stage default_config (λ n. int n) (λ n. int (n + 1)) "w0" false 60 300
      (λ i. false) clock (λ i. succeeds) (λ i. refl) succeeds-Finishes refs 3 0 none two_tasks refl
      refl ((step, step_known), ((step, step_known), tt))
