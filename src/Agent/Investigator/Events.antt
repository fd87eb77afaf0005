-- ===== src/Agent/Investigator/Events.antt =====
-- The failure events that controller.py and agent.py make of what a worker wrote.
use gleanflow.Prelude.{ℕ, String, ◌≡◌, refl, ◌∙◌, Option, none, some, true, List, [], ◌∷◌}
use gleanflow.Prelude.Dict.{Dict, get, get_or, get-put}
use gleanflow.Float.{FloatOps}
use gleanflow.Json.{
  Json, int, str, optional, object, of_dict, to_dict, as_dict, as_dict-object, as_str, as_nat,
}
use gleanflow.Config.{PipelineConfig}
use gleanflow.Stage.{Stage, resources}
use gleanflow.Store.{Store}
use gleanflow.Markers.{has_failure, read_failure, failure_body, clear_running}
use gleanflow.Markers.Laws.{running-failure, read_failure-write_failure}
use gleanflow.Monitor.{float_or_null}
use gleanflow.World.{World}
use gleanflow.Worker.{task_of, abandon, field_of, resources_json}
use gleanflow.Worker.Outcomes.{store-track, abandon-IsFailed}
use gleanflow.Agent.{FailureEvent}
use gleanflow.Agent.Tools.{peer_stats}
use gleanflow.Agent.Investigator.{before_slash, marker_or_empty, marker_event}
use gleanflow.Controller.Event.{
  failure_info, nat_values, resource_dict, or_default, resources_or, input_members, number_or_none,
  failure_event,
}

read_failure-clear_running :
    {W : Type 0} (j k : String) (s : Store W)
    → read_failure (clear_running j s) k ≡ read_failure s k
unfolding read_failure clear_running
read_failure-clear_running j k s = rw (get-put, running-failure)

number-float :
    {W : Type 0} ⦃f : FloatOps W⦄ (k : String) (d : Dict (Json W)) (x : Option W)
    → get k d ≡ some (float_or_null x)
    → number_or_none k d ≡ some x
unfolding number_or_none float_or_null
number-float k d none e = rw (e, number_or_none)
number-float k d (some x) e = rw (e, number_or_none)

module _ {W F : Type 0} ⦃f : FloatOps W⦄ (now : Json W) (st : Stage W F) (cfg : PipelineConfig)
    (r : ℕ) (last traceback : String) (stats : Dict (Json W)) (w : World W) where
  -- `info` of the `except` block
  abbrev failed_info : Dict (Json W)
  failed_info =
      ("error", str last)
      ∷ ("traceback", str traceback)
      ∷ ("peak_mem_mb", field_of "peak_mem_mb" stats)
      ∷ ("limit_mb", field_of "limit_mb" stats)
      ∷ ("cpu_seconds", field_of "cpu_seconds" stats)
      ∷ ("resources", resources_json (resources st cfg))
      ∷ []

  abbrev marker : Dict (Json W)
  marker = failure_body now (task_of r w) failed_info

  read_abandoned :
      read_failure (abandon now st cfg r last traceback stats w).store (task_of r w).key
      ≡ some marker
  unfolding abandon
  read_abandoned =
      rw (store-track, read_failure-clear_running)
        (read_failure-write_failure now (task_of r w) failed_info w.store)

  has_abandoned :
      has_failure (abandon now st cfg r last traceback stats w).store (task_of r w).key ≡ true
  has_abandoned = (abandon-IsFailed now st cfg "" r w last traceback stats).0

  -- The event of a failed task, but for its attempt.
  abbrev pub told : ℕ → String → Option W → Option W → Option W → List (Json W) → FailureEvent W
  told attempt stage peak limit cpu members = record {
    stage = stage;
    task_key = (task_of r w).key;
    params = (task_of r w).params;
    attempt = attempt;
    error = last;
    traceback = traceback;
    peak_mem_mb = peak;
    limit_mb = limit;
    cpu_seconds = cpu;
    members = members;
    resources = resource_dict (resources st cfg);
    peer_peak_mem_mb =
        (peer_stats (abandon now st cfg r last traceback stats w).store stage).max_peak_mem_mb;
    log_tail = "";
  }

  module _ (peak limit cpu : Option W) (members : List (Json W))
      (peak_is : get "peak_mem_mb" stats ≡ some (float_or_null peak))
      (limit_is : get "limit_mb" stats ≡ some (float_or_null limit))
      (cpu_is : get "cpu_seconds" stats ≡ some (float_or_null cpu))
      (members_is : input_members (task_of r w).params ≡ some members) where
    got :
        (k : String) (x : Option W)
        → get k marker ≡ some (field_of k stats)
        → get k stats ≡ some (float_or_null x)
        → number_or_none k marker ≡ some x
    unfolding get_or
    got k x stored e = number-float k marker x (stored ∙ rw e refl)

    error_is : optional as_str "error" "" marker ≡ some last
    unfolding failure_body get get_or
    error_is = refl

    traceback_is : optional as_str "traceback" "" marker ≡ some traceback
    unfolding failure_body get get_or
    traceback_is = refl

    read_peak : number_or_none "peak_mem_mb" marker ≡ some peak
    unfolding failure_body get get_or
    read_peak = got "peak_mem_mb" peak refl peak_is

    read_limit : number_or_none "limit_mb" marker ≡ some limit
    unfolding failure_body get get_or
    read_limit = got "limit_mb" limit refl limit_is

    read_cpu : number_or_none "cpu_seconds" marker ≡ some cpu
    unfolding failure_body get get_or
    read_cpu = got "cpu_seconds" cpu refl cpu_is

    resources_is :
        resources_or (resources st cfg) (get "resources" marker)
        ≡ some (resource_dict (resources st cfg))
    unfolding failure_body get get_or resources_json object of_dict to_dict resources_or or_default
        nat_values resource_dict
    resources_is = refl

    controller_event :
        (attempt : ℕ)
        → failure_event cfg st
            (record (task_of r w) { attempt = attempt })
            (abandon now st cfg r last traceback stats w).store
          ≡ some (told attempt st.name peak limit cpu members)
    unfolding failure_event failure_info get_or
    controller_event attempt =
        rw
          (
            has_abandoned, read_abandoned, error_is, traceback_is, read_peak, read_limit, read_cpu,
            members_is, resources_is,
          )
          refl

    params_is : optional as_dict "params" [] marker ≡ some (task_of r w).params
    unfolding failure_body get
    params_is = as_dict-object (task_of r w).params

    attempt_is : optional as_nat "attempt" 0 marker ≡ some (task_of r w).attempt
    unfolding failure_body get
    attempt_is = refl

    abbrev given : Dict (Json W)
    given =
        let res = resources st cfg in
        ("vcpu", int res.vcpu) ∷ ("mem", int res.mem) ∷ ("omp", int res.omp) ∷ []

    given_is : optional as_dict "resources" [] marker ≡ some given
    unfolding failure_body get get_or resources_json object of_dict to_dict
    given_is = refl

    given_values : nat_values given ≡ some (resource_dict (resources st cfg))
    unfolding nat_values resource_dict
    given_values = refl

    investigator_event :
        marker_event (abandon now st cfg r last traceback stats w).store (task_of r w).key
        ≡ some (told (task_of r w).attempt (before_slash (task_of r w).key) peak limit cpu members)
    unfolding marker_event marker_or_empty
    investigator_event =
        rw
          (
            has_abandoned, read_abandoned, params_is, attempt_is, error_is, traceback_is, read_peak,
            read_limit, read_cpu, members_is, given_is, given_values,
          )
          refl

    -- When a worker has abandoned a task, the controller, whatever the task's attempt is by then, and
    -- the investigator make the same event of it: it has the error, the traceback, the measures, the
    -- members and the resources that the worker had. The stage is the controller's, and the first part
    -- of the key for the investigator, with the peak of its peers; the attempt is the worker's there.
    pub events_tell :
        (attempt : ℕ)
        → (failure_event cfg st
              (record (task_of r w) { attempt = attempt })
              (abandon now st cfg r last traceback stats w).store
            ≡ some (told attempt st.name peak limit cpu members))
          × (marker_event (abandon now st cfg r last traceback stats w).store (task_of r w).key
              ≡ some (
                  told
                    (task_of r w).attempt
                    (before_slash (task_of r w).key)
                    peak
                    limit
                    cpu
                    members))
    events_tell attempt = (controller_event attempt, investigator_event)
