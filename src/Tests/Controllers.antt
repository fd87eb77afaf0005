-- ===== src/Tests/Controllers.antt =====
-- A stage of three chunks that is planned and read by the next, part files, and triage.
use text.Mathlib.TextLemmas.{append_cancel_left}
use gleanflow.Prelude.{
  ℕ, ◌+◌, ◌*◌, ◌%◌, ◌/◌, ◌≤◌, ◌<◌, ◌≡◌, refl, String, Option, none, some, true, false, List, [],
  ◌∷◌, ◌++◌, map, All, IsUnique, ◌⊎◌,
}
use Prim.Native.String.{◌++◌ as append}
use gleanflow.Prelude.Dict.{get, get_or, put}
use gleanflow.Decimal.{str, str_inj}
use gleanflow.Float.{nat_float}
use gleanflow.Json.{Json, int, array}
use gleanflow.Store.{Store}
use gleanflow.Task.{Task}
use gleanflow.Partition.{Chunk, pack}
use gleanflow.Stage.{Stage, Upstream, stage, source}
use gleanflow.Controller.Manifest.{manifest_key, manifest_of, entry_of}
use gleanflow.Controller.Plan.{
  upstream_chunks, chunks_of, stage_chunks, sized_chunks, target_of, task_for, plan,
}
use gleanflow.Controller.Plan.Handoff.{chunk_job, task_job, plan_handoff, keys-plan-IsUnique}
use gleanflow.Parts.{open_parts, write, close}
use gleanflow.Parts.Files.{all_rows, IsPart, part_keys, Stored}
use gleanflow.Parts.Written.{parts_hold_rows}
use gleanflow.Agent.{FailureEvent, n_members, is_oom, heuristic}
use gleanflow.Agent.Triage.{heuristic_lem}

abbrev files : List (Chunk ℕ)
files =
    record { id = "a"; params = []; weight = 3 }
    ∷ record { id = "b"; params = []; weight = 4 }
    ∷ record { id = "c"; params = []; weight = 2 }
    ∷ []

abbrev enumerate : Upstream → Option (List (Chunk ℕ))
enumerate up = some files

abbrev load : Stage ℕ ℕ
load = record {
  name = "load";
  fn = 0;
  reads = some (record { name = "raw"; kind = source });
  chunk_by = none;
  target_rows = some 6;
  target_bytes = none;
  partition = none;
  vcpu = none;
  mem = none;
  omp = none;
  retries = 2;
  checkpoint = false;
  cap_rows = 1000;
}

abbrev fit : Stage ℕ ℕ
fit = record load { name = "fit"; reads = some (record { name = "load"; kind = stage }) }

abbrev planned : Store ℕ
planned = put (manifest_key "load") (manifest_of (map entry_of (pack files 6 "c"))) []

abbrev load_tasks : List (Task ℕ)
load_tasks = map (task_for load) (pack files 6 "c")

plans : plan enumerate load [] ≡ some (planned, load_tasks)
unfolding plan upstream_chunks chunks_of stage_chunks sized_chunks target_of
plans = refl

plan_handoff_example :
    (cs : List (Chunk ℕ)) × (upstream_chunks enumerate planned fit ≡ some cs)
    × (map (chunk_job "load") cs ≡ map task_job load_tasks)
plan_handoff_example = plan_handoff enumerate load fit [] planned load_tasks refl plans

target_six : target_of load.target_rows load.target_bytes ≡ some 6
unfolding target_of
target_six = refl

keys-plan-IsUnique_example : IsUnique (map (λ t. t.key) load_tasks)
keys-plan-IsUnique_example =
    keys-plan-IsUnique enumerate load [] planned load_tasks 6 refl target_six refl plans

-- the chunk `b` is split in two
abbrev halves : List (Chunk ℕ)
halves =
    record { id = "b-m0"; params = []; weight = 2 }
    ∷ record { id = "b-m1"; params = []; weight = 2 }
    ∷ []

abbrev listed : Store ℕ
listed = put (manifest_key "load") (manifest_of (map entry_of files)) []

abbrev part_name : ℕ → String
part_name n = append "s/part-" (str n)

part_name_inj : (m n : ℕ) → part_name m ≡ part_name n → m ≡ n
part_name_inj m n e = str_inj m n (append_cancel_left "s/part-" _ _ e)

abbrev encode : List ℕ → Json ℕ
encode rows = array (map (λ n. int n) rows)

parts_hold_rows_example :
    let closed =
      close part_name encode
        (write part_name encode (3 ∷ []) (write part_name encode (1 ∷ 2 ∷ []) (open_parts [] 2))) in
    (parts : List (List ℕ)) × (all_rows parts ≡ (1 ∷ 2 ∷ []) ++ (3 ∷ []))
    × All (IsPart 2) parts
    × (closed.1 ≡ part_keys part_name 0 parts)
    × Stored part_name encode 0 parts closed.0.store
parts_hold_rows_example = parts_hold_rows part_name encode part_name_inj [] 2 (1 ∷ 2 ∷ []) (3 ∷ [])

abbrev event : FailureEvent ℕ
event = record {
  stage = "load";
  task_key = "load/c0";
  params = [];
  attempt = 1;
  error = "MemoryError";
  traceback = "";
  peak_mem_mb = some 3900;
  limit_mb = some 4096;
  cpu_seconds = none;
  members = [];
  resources = ("mem", 4096) ∷ [];
  peer_peak_mem_mb = none;
  log_tail = "";
}

abbrev ninety : ℕ → ℕ
ninety n = n * 9 / 10

heuristic_lem_example :
    ((is_oom ninety (λ s. s) event ≡ true)
      × (2 ≤ n_members event)
      × ((heuristic ninety (λ s. s) event).action ≡ "resplit"))
    ⊎ ((mem : ℕ) × (is_oom ninety (λ s. s) event ≡ true)
        × (n_members event ≤ 1)
        × ((heuristic ninety (λ s. s) event).action ≡ "retry_with")
        × ((heuristic ninety (λ s. s) event).mem ≡ some mem)
        × (mem % 4096 ≡ 0)
        × (get_or 16384 (get "mem" event.resources) * 2 ≤ mem)
        × (mem < get_or 16384 (get "mem" event.resources) * 2 + 4096))
    ⊎ ((is_oom ninety (λ s. s) event ≡ false)
        × ((heuristic ninety (λ s. s) event).action ≡ "report")
        × ((heuristic ninety (λ s. s) event).mem ≡ none))
heuristic_lem_example = heuristic_lem ninety (λ s. s) event
