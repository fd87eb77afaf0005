-- ===== src/Tests/Wholes.antt =====
-- A run of two stages with one chunk each, whose worker puts a result into the store before a turn.
use gleanflow.Prelude.{
  ℕ, String, nat_beq, if◌then◌else◌, ◌*◌, ◌≡◌, refl, Option, none, some, Bool, true, false, List,
  [], ◌∷◌, arith,
}
use gleanflow.Prelude.Dict.{Dict, get, put, has-put, get_or, has, setdefault, update}
use gleanflow.Float.{nat_float}
use gleanflow.Json.{int, null, object}
use gleanflow.Config.{default_config}
use gleanflow.Partition.{Chunk, heaviest_first, insert_heavy, one_to_one}
use gleanflow.Stage.{Stage, Upstream, source, stage, upstream_name}
use gleanflow.Pipeline.{Pipeline, topo_order, contains, mark, upstream_stage, visit, visit_all}
use gleanflow.Store.{put_bytes}
use gleanflow.Markers.{result_key, has_result}
use gleanflow.World.{track}
use gleanflow.World.Kept.{Keeps}
use gleanflow.Controller.Setup.{new_queue, new_tracker}
use gleanflow.Controller.Remedy.{Run, queue_task, register_tasks, set_task}
use gleanflow.Controller.Failures.{is_remediate}
use gleanflow.Controller.Drain.{add_new, all_done, dead_of, drain, measure, turn}
use gleanflow.Tracker.Snapshot.{StageView, keyed, snapshot, stage_view, stage_views, task_views}
use gleanflow.Controller.Pipelines.{
  Ended, finished, raised, Schedule, run_one, run_pipeline, after_stage, announce_done,
  drain_within, end_run, register_stages, run_done, run_order, run_stages, tracker_of, with_tracker,
  with_views,
}
use gleanflow.Controller.Pipelines.InTurn.{InTurn, run_pipeline-InTurn}
use gleanflow.Controller.Stages.{
  make_tasks, or_crash, pending_tasks, pick_pending, queue_all, queue_and_drain, run_pending,
  run_stage, run_tasks,
}
use gleanflow.Controller.Plan.{
  chunks_of, plan, sized_chunks, stage_chunks, target_of, task_for, task_key, upstream_chunks,
}
use gleanflow.Tracker.{
  add_stage, changed, counts, default_tasks, emit, set_state, set_tasks, state_of, subscribe, tally,
}
use gleanflow.Controller.Manifest.{manifest_key}
use gleanflow.Text.{wrap}
use gleanflow.Queue.Local.{depth, enqueue, expired, sweep, sweep_keys}
use gleanflow.Store.Listing.{insert_by, sorted_by}

abbrev load : Stage ℕ ℕ
load = record {
  name = "load";
  fn = 0;
  reads = some (record { name = "raw"; kind = source });
  chunk_by = none;
  target_rows = none;
  target_bytes = none;
  partition = none;
  vcpu = none;
  mem = none;
  omp = none;
  retries = 2;
  checkpoint = false;
  cap_rows = 1000;
}

abbrev train : Stage ℕ ℕ
train = record load { name = "train"; reads = some (record { name = "load"; kind = stage }) }

abbrev pipe : Pipeline ℕ ℕ
pipe = record { name = "p"; stages = ("load", load) ∷ ("train", train) ∷ [] }

abbrev enumerate : Upstream → Option (List (Chunk ℕ))
enumerate up = some (record { id = "a"; params = []; weight = 1 } ∷ [])

abbrev begin : Run ℕ
begin = record {
  world = record {
    queue =
        new_queue (λ r. record { stage = ""; key = ""; params = []; weight = 0; attempt = 0 })
          default_config;
    store = [];
    tracker = some (new_tracker (some 1));
  };
  fleet = none;
  fresh = 0;
}

-- The worker's only effect that counts here: the result of the task of the stage number `i`.
abbrev task_key_of : ℕ → String
task_key_of i = if nat_beq i 0 then "load/a" else "train/a"

abbrev worker : ℕ → ℕ → Run ℕ → Run ℕ
worker i j run = record run {
  world = record run.world {
    store = put_bytes (result_key (task_key_of i)) (object []) run.world.store;
  };
}

worker-Keeps : (i j : ℕ) (run : Run ℕ) → Keeps run.world (worker i j run).world
unfolding has_result
worker-Keeps i j run = record { results = λ k h. rw (has-put, h) (ground arith); names = λ r. refl }

abbrev schedule : ℕ → Dict ℕ → Run ℕ → Schedule ℕ
schedule i active run = record { start = 100 * i; clock = λ j. j; others = worker i; turns = 2 }

abbrev whole : Ended ℕ
whole =
    run_pipeline
      (run_one default_config none (λ t. int t) enumerate false true (λ i. int i) schedule)
      (λ i. int i) (int 9) (λ d. null) pipe 10 begin

abbrev is_finished : Ended ℕ → Bool
is_finished (finished views run) = true
is_finished (raised d) = false

abbrev run_of : Ended ℕ → Run ℕ
run_of (finished views run) = run
run_of (raised d) = begin

abbrev views_of : Ended ℕ → List (StageView ℕ)
views_of (finished views run) = views
views_of (raised d) = []

finished_lem : (e : Ended ℕ) → is_finished e ≡ true → e ≡ finished (views_of e) (run_of e)
finished_lem (finished views run) h = refl
finished_lem (raised d) h = cc

whole_finishes : is_finished whole ≡ true
unfolding run_pipeline run_order topo_order visit_all visit contains upstream_stage upstream_name
    get end_run run_stages mark after_stage run_one run_stage or_crash plan upstream_chunks
    chunks_of stage_chunks register_tasks make_tasks sized_chunks target_of one_to_one set_task
    with_tracker set_tasks register_stages add_stage has new_tracker subscribe put run_tasks
    run_pending pending_tasks heaviest_first pick_pending has_result manifest_key result_key wrap
    task_for task_key insert_heavy queue_and_drain drain_within drain turn dead_of measure depth
    sweep sweep_keys expired queue_all queue_task track enqueue new_queue all_done add_new
    announce_done tracker_of counts tally get_or set_state emit default_tasks setdefault state_of
    changed update with_views snapshot stage_views stage_view task_views sorted_by insert_by keyed
    gleanflow.Controller.Manifest.read_manifest gleanflow.Controller.Manifest.manifest_of object
    gleanflow.Json.to_dict gleanflow.Json.of_dict gleanflow.Json.array
    gleanflow.Controller.Manifest.read_chunks gleanflow.Json.to_list gleanflow.Json.of_list
    gleanflow.Partition.from_dict gleanflow.Controller.Manifest.entry_of
whole_finishes = refl

not_remediate : is_remediate default_config.failure_policy ≡ false
unfolding is_remediate
not_remediate = refl

run_pipeline-InTurn_example :
    (order : List (Stage ℕ ℕ)) × (topo_order pipe 10 ≡ some order)
    × (last : Run ℕ) × InTurn enumerate
        (run_one default_config none (λ t. int t) enumerate false true (λ i. int i) schedule)
        (λ i. int i)
        0
        []
        order
        (with_tracker (register_stages pipe order) begin)
        last
    × (run_of whole ≡ with_tracker (emit (run_done (int 9) "p")) last)
run_pipeline-InTurn_example =
    run_pipeline-InTurn default_config none (λ t. int t) enumerate false true (λ i. int i)
      (λ i. int i) schedule (int 9) (λ d. null) pipe 10 begin (run_of whole) (views_of whole)
      not_remediate (λ i j active run run'. worker-Keeps i j run')
      (finished_lem whole whole_finishes)
