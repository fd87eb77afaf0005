-- ===== src/Tests/Runs.antt =====
-- Runs of a pipeline of two stages, a failure event and the refresh of a tracker.
use gleanflow.Prelude.{ℕ, String, ◌≡◌, refl, Option, none, some, false, List, [], ◌∷◌, map}
use gleanflow.Prelude.Dict.{Dict, get, get_or, has, put, update}
use gleanflow.Float.{nat_float}
use gleanflow.Json.{Json, int, str, array, object, of_dict, of_list, to_dict, to_list}
use gleanflow.Config.{default_config}
use gleanflow.Stage.{Stage, stage, resources, round_up, upstream_name}
use gleanflow.Pipeline.{
  Pipeline, contains, deps_of, mark, topo_order, upstream_stage, visit, visit_all,
}
use gleanflow.Task.{Task, value}
use gleanflow.Store.{Store, list_keys}
use gleanflow.Markers.{
  has_result, result_key, failure_key, running_key, has_failure, read_failure, read_result,
}
use gleanflow.Tracker.{Tracker, set_state, log_event, add_stage, counts, emit, state_of, tally}
use gleanflow.Controller.Remedy.{Run}
use gleanflow.Controller.Drain.{Drained, drained, chunks_failed}
use gleanflow.Controller.Event.{
  failure_event, refresh_from_markers, refresh_task, failure_info, input_members, nat_values,
  number_or_none, or_default, resource_dict, resources_or,
}
use gleanflow.Controller.Pipelines.{
  run_order, with_views, Ended, finished, raised, run_pipeline, after_stage, announce_done, end_run,
  register_stages, run_done, run_failed, run_stages, stage_done, tracker_of, with_tracker,
}
use gleanflow.Controller.Stages.{or_crash}
use gleanflow.Tracker.Snapshot.{key_of_view, keyed, snapshot, stage_view, stage_views, task_views}
use gleanflow.Store.Listing.{insert_by, sorted_by, text_le}
use gleanflow.Text.{cut_end, drop_chars, ends_with, size, starts_with, take_chars, wrap}
use gleanflow.Agent.Tools.{add_peer, count_peers, larger, peak_of, peer_stats}

abbrev load : Stage ℕ ℕ
load = record {
  name = "load";
  fn = 0;
  reads = none;
  chunk_by = none;
  target_rows = none;
  target_bytes = none;
  partition = none;
  vcpu = some 2;
  mem = some 4096;
  omp = none;
  retries = 2;
  checkpoint = false;
  cap_rows = 1000;
}

abbrev fit : Stage ℕ ℕ
fit = record load { name = "fit"; reads = some (record { name = "load"; kind = stage }) }

abbrev two_stages : Pipeline ℕ ℕ
two_stages = record { name = "p"; stages = ("fit", fit) ∷ ("load", load) ∷ [] }

abbrev watched : Tracker ℕ
watched = record { stages = []; order = []; events = []; subs = 1 ∷ []; sent = [] }

abbrev job : Task ℕ
job = record {
  stage = "fit";
  key = "fit/a";
  params = ("_in", object (("members", array (int 1 ∷ int 2 ∷ [])) ∷ [])) ∷ [];
  weight = 1;
  attempt = 4;
}

abbrev start : Run ℕ
start = record {
  world = record {
    queue = record { heap = λ r. job; max_redeliveries = 3; ready = []; inflight = []; dlq = [] };
    store = [];
    tracker = some watched;
  };
  fleet = none;
  fresh = 1;
}

-- Each stage returns at once.
abbrev returns : ℕ → Stage ℕ ℕ → Run ℕ → Drained ℕ
returns i st run = drained [] run

abbrev fails : ℕ → Stage ℕ ℕ → Run ℕ → Drained ℕ
fails i st run = chunks_failed run

abbrev types_sent : Option (Tracker ℕ) → List (Option (Json ℕ) × Option (Json ℕ))
types_sent none = []
types_sent (some t) = map (λ (p : ℕ × Dict (Json ℕ)). (get "type" p.1, get "stage" p.1)) t.sent

abbrev heard : Ended ℕ → List (Option (Json ℕ) × Option (Json ℕ))
heard (finished views run) = types_sent run.world.tracker
heard (raised (chunks_failed run)) = types_sent run.world.tracker
heard (raised _) = []

abbrev stamp : ℕ → Json ℕ
stamp i = int i

abbrev text : Drained ℕ → Json ℕ
text d = str "failed"

stages_in_order :
    heard (run_pipeline returns stamp (int 9) text two_stages 10 start)
    ≡ (some (str "stage_done"), some (str "load"))
      ∷ (some (str "stage_done"), some (str "fit"))
      ∷ (some (str "run_done"), none)
      ∷ []
unfolding run_pipeline run_order with_views run_stages end_run after_stage announce_done tracker_of
    with_tracker register_stages run_done run_failed stage_done or_crash topo_order visit_all visit
    contains upstream_stage mark deps_of upstream_name get counts tally add_stage emit state_of
    key_of_view keyed snapshot stage_view stage_views task_views get_or has put update object
    of_dict insert_by sorted_by text_le
stages_in_order = refl

failure_ends_run :
    heard (run_pipeline fails stamp (int 9) text two_stages 10 start)
    ≡ (some (str "run_failed"), none) ∷ []
unfolding run_pipeline run_order with_views run_stages end_run after_stage announce_done tracker_of
    with_tracker register_stages run_done run_failed stage_done or_crash topo_order visit_all visit
    contains upstream_stage mark deps_of upstream_name get counts tally add_stage emit state_of
    key_of_view keyed snapshot stage_view stage_views task_views get_or has put update object
    of_dict insert_by sorted_by text_le
failure_ends_run = refl

-- A failed chunk beside a finished one of the same stage.
abbrev marked : Store ℕ
marked =
    (failure_key "fit/a", object (("error", str "killed") ∷ ("peak_mem_mb", int 90) ∷ []))
    ∷ (result_key "fit/b", object (("peak_mem_mb", int 70) ∷ ("cpu_seconds", int 5) ∷ []))
    ∷ (result_key "fit/c", object (("peak_mem_mb", int 80) ∷ []))
    ∷ (running_key "fit/d", object [])
    ∷ []

event_of_markers :
    failure_event default_config fit job marked
    ≡ some (record {
      stage = "fit";
      task_key = "fit/a";
      params = job.params;
      attempt = 4;
      error = "killed";
      traceback = "";
      peak_mem_mb = some 90;
      limit_mb = none;
      cpu_seconds = none;
      members = int 1 ∷ int 2 ∷ [];
      resources = ("vcpu", 2) ∷ ("mem", 4096) ∷ ("omp", 2) ∷ [];
      peer_peak_mem_mb = some 80;
      log_tail = "";
    })
unfolding failure_event get failure_info has_failure has failure_key wrap get_or read_failure object
    to_dict of_dict number_or_none input_members array resources_or to_list resource_dict peer_stats
    of_list resources count_peers add_peer larger peak_of nat_values or_default read_result
    result_key round_up insert_by sorted_by text_le list_keys cut_end drop_chars ends_with size
    starts_with take_chars running_key
event_of_markers = refl

abbrev other_jobs : List (Task ℕ)
other_jobs =
    record job { key = "fit/b" } ∷ record job { key = "fit/d" } ∷ record job { key = "fit/e" } ∷ []

refreshed :
    map {B = String × String}
      (λ e. (e.key, e.state))
      (refresh_from_markers (int 7) "fit" marked other_jobs watched).events
    ≡ ("fit/b", "success") ∷ ("fit/d", "running") ∷ []
unfolding refresh_from_markers refresh_task set_state log_event has_result value get has result_key
    running_key wrap update put emit get_or failure_key
refreshed = refl
