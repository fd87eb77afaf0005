-- ===== src/Tests/Remedies.antt =====
-- A dead task with two members on a run without and with a budget, and a drain.
use gleanflow.Prelude.{
  ℕ, ◌*◌, ◌≡◌, refl, Option, none, some, true, false, inl, List, [], ◌∷◌, filter, arith,
}
use gleanflow.Prelude.Dict.{Dict, get, get_or}
use mathlib.Core.List.{Perm}
use gleanflow.Partition.Heaviest.{IsHeaviestFirst}
use gleanflow.Controller.Stages.{pending_tasks}
use gleanflow.Controller.Stages.Pending.{must_run, pending_tasks_lem}
use gleanflow.Float.{nat_float, nat_float-IsOrdered}
use gleanflow.Json.{
  Json, int, str, array, object, of_list, of_dict, to_list, to_dict, as_dict, as_list, optional,
}
use gleanflow.Config.{default_config}
use gleanflow.Stage.{Stage}
use gleanflow.Task.{Task}
use gleanflow.Queue.Local.{LocalQueue}
use gleanflow.Agent.{Remediation}
use gleanflow.Controller.Manifest.{manifest_key, manifest_of, entry_of, without, manifest_replace}
use gleanflow.Controller.Remedy.{Run, resplit, split, register_tasks, sub_entries}
use gleanflow.Controller.Remedy.Split.{IsSplit, resplit_splits}
use gleanflow.Controller.Failures.{is_remediate, report_only, handle_failures}
use gleanflow.Controller.Failures.Budget.{handle_failures_bounded}
use gleanflow.Controller.Drain.{Drained, drain}
use gleanflow.Controller.Drain.Ends.{Complete, ended, drain_ends}

abbrev step : Stage ℕ ℕ
step = record {
  name = "s";
  fn = 0;
  reads = none;
  chunk_by = none;
  target_rows = none;
  target_bytes = none;
  partition = none;
  vcpu = none;
  mem = none;
  omp = none;
  retries = 2;
  checkpoint = false;
  cap_rows = 1000;
}

abbrev members : List (Json ℕ)
members = str "a" ∷ str "b" ∷ []

abbrev input : Dict (Json ℕ)
input = ("kind", str "source") ∷ ("name", str "raw") ∷ ("members", array members) ∷ []

abbrev packed_task : Task ℕ
packed_task = record {
  stage = "s";
  key = "s/c0";
  params = ("_chunk_id", str "c0") ∷ ("_in", object input) ∷ [];
  weight = 4;
  attempt = 4;
}

abbrev dead_queue : LocalQueue ℕ
dead_queue = record {
  heap = λ r. packed_task;
  max_redeliveries = 3;
  ready = [];
  inflight = [];
  dlq = 0 ∷ [];
}

abbrev manifest : Json ℕ
manifest = manifest_of (entry_of (record { id = "c0"; params = []; weight = 4 }) ∷ [])

abbrev run : Run ℕ
run = record {
  world = record { queue = dead_queue; store = (manifest_key "s", manifest) ∷ []; tracker = none };
  fleet = none;
  fresh = 1;
}

abbrev now : Json ℕ
now = int 7

abbrev proposes : ℕ → Run ℕ → Option Remediation
proposes r state = some (record report_only { action = "resplit" })

not_remediate : is_remediate default_config.failure_policy ≡ false
unfolding is_remediate
not_remediate = refl

handle_failures_bounded_example :
    (run' : Run ℕ) × (handle_failures now step default_config (some proposes) 2 (0 ∷ []) run
      ≡ some (run', none))
    × (run'.world.queue ≡ run.world.queue)
    × (run'.world.store ≡ run.world.store)
    × (run'.fleet ≡ run.fleet)
handle_failures_bounded_example =
    handle_failures_bounded now step default_config (some proposes) 2 0 [] run (inl not_remediate)

has_input : optional as_dict "_in" [] packed_task.params ≡ some input
unfolding get object of_dict to_dict
has_input = refl

has_members : optional as_list "members" [] input ≡ some members
unfolding get array of_list to_list
has_members = refl

abbrev answer : Run ℕ × List ℕ
answer = get_or (run, []) (resplit now step default_config 0 run)

resplits : resplit now step default_config 0 run ≡ some (answer.0, answer.1)
unfolding resplit split register_tasks sub_entries manifest_replace manifest_of entry_of without get
    array object get_or of_list of_dict to_list to_dict manifest_key
resplits = refl

resplit_splits_example : IsSplit members run answer.0 answer.1
resplit_splits_example =
    resplit_splits now step default_config 0 input members run answer.0 answer.1 has_input
      has_members (omega arith) resplits

-- a clock that reads 1000 * i at turn i, and workers that do nothing
abbrev clock : ℕ → ℕ
clock i = 1000 * i

abbrev waiting : Drained ℕ
waiting =
    drain step default_config none (λ n. int n) clock (λ i w. w) 3000 4 0 (("s/c0", 0) ∷ []) 2 run

drain_ends_example : (ended waiting ≡ true) × Complete waiting
drain_ends_example =
    drain_ends step default_config none (λ n. int n) clock (λ i w. w) 3000 3 0 (("s/c0", 0) ∷ []) 2
      run (omega arith)

pending_tasks_lem_example :
    Perm
      (pending_tasks now "s" false (0 ∷ []) run).1
      (filter (must_run false run.world.store run.world.queue) (0 ∷ []))
    × IsHeaviestFirst
        (λ r. (run.world.queue.heap r).weight)
        (pending_tasks now "s" false (0 ∷ []) run).1
    × ((pending_tasks now "s" false (0 ∷ []) run).0.world.queue ≡ run.world.queue)
    × ((pending_tasks now "s" false (0 ∷ []) run).0.world.store ≡ run.world.store)
pending_tasks_lem_example = pending_tasks_lem nat_float-IsOrdered now "s" false (0 ∷ []) run
