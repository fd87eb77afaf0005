-- ===== src/Agent/Investigator.antt =====
-- gleanflow/agent.py: `Investigator`, which the dashboard's server calls. `none` stands for an
-- exception, and for a marker or a reply that has a value of another kind than the program writes.
pub mod Events
use Prim.Native.String.{◌++◌ as append}
use gleanflow.Prelude.{
  ℕ, String, Option, none, some, List, [], ◌∷◌, filter, map, length, if◌then◌else◌, ◌==◌,
}
use gleanflow.Prelude.Dict.{Dict, get, get_or}
use gleanflow.Decimal
use gleanflow.Float.{FloatOps}
use gleanflow.Json.{Json, null, int, str, object, as_str, as_nat, as_dict, optional, ◌>>=◌}
use gleanflow.Stage.{Stage}
use gleanflow.Pipeline.{Pipeline, topo_order}
use gleanflow.Store.{Store, list_keys}
use gleanflow.Markers.{has_result, read_result, has_failure, read_failure, list_failures}
use gleanflow.Text.{ends_with, take_chars}
use gleanflow.Agent.{FailureEvent, Remediation}
use gleanflow.Agent.Tools.{peer_stats}
use gleanflow.Agent.Llm.{Services, str_or_none, ask_llm}
use gleanflow.Controller.Event.{nat_values, input_members, number_or_none}

-- `key.split("/", 1)[0]`
unfoldable pub before_slash : String → String
before_slash String.[] = ""
before_slash (String.◌∷◌ c s) =
    let rest = before_slash s in if String.◌∷◌ c "" == "/" then "" else String.◌∷◌ c rest

-- `"\n".join(lines)`
unfoldable pub join_lines : List String → String
join_lines [] = ""
join_lines (l ∷ []) = l
join_lines (l ∷ m ∷ ls) = append l (append "\n" (join_lines (m ∷ ls)))

module _ {W : Type 0} where
  -- `f`; a marker that cannot be read raises here.
  unfoldable pub marker_or_empty : Store W → String → Option (Dict (Json W))
  marker_or_empty store key = if has_failure store key then read_failure store key else some []

  unfoldable pub number_json : Option ℕ → Json W
  number_json none = null
  number_json (some n) = int n

  unfoldable pub remediation_json : String → Remediation → Json W
  remediation_json key rem = object (
      ("key", str key)
      ∷ ("action", str rem.action)
      ∷ ("diagnosis", str rem.diagnosis)
      ∷ ("fix", str rem.fix)
      ∷ ("mem", number_json rem.mem)
      ∷ ("vcpu", number_json rem.vcpu)
      ∷ [])

module _ {W : Type 0} ⦃f : FloatOps W⦄ where
  -- The event that `diagnose` makes of the failure marker.
  unfoldable pub marker_event : Store W → String → Option (FailureEvent W)
  marker_event store key = do
    d ← marker_or_empty store key
    params ← optional as_dict "params" [] d
    attempt ← optional as_nat "attempt" 0 d
    error ← optional as_str "error" "" d
    traceback ← optional as_str "traceback" "" d
    peak ← number_or_none "peak_mem_mb" d
    limit ← number_or_none "limit_mb" d
    cpu ← number_or_none "cpu_seconds" d
    members ← input_members params
    given ← optional as_dict "resources" [] d
    res ← nat_values given
    some (record {
      stage = before_slash key;
      task_key = key;
      params = params;
      attempt = attempt;
      error = error;
      traceback = traceback;
      peak_mem_mb = peak;
      limit_mb = limit;
      cpu_seconds = cpu;
      members = members;
      resources = res;
      peer_peak_mem_mb = (peer_stats store (before_slash key)).max_peak_mem_mb;
      log_tail = "";
    })

  unfoldable pub diagnose : Services W → Store W → String → Option (Json W)
  diagnose sv store key = do
    event ← marker_event store key
    rem ← ask_llm sv event
    some (remediation_json key rem)

  -- `_context`
  unfoldable pub marker_text : Services W → Option (Dict (Json W)) → Option String
  marker_text sv none = none
  marker_text sv (some d) = some (take_chars 3000 (sv.dumps (object d)))

  unfoldable pub context_of : Services W → Store W → String → Option String
  context_of sv store key =
      if key == ""
      then some ""
      else if has_failure store key
      then marker_text sv (read_failure store key)
      else if has_result store key
      then marker_text sv (read_result store key)
      else some ""

  -- `ask`, where a `key` of `None` is ""
  unfoldable pub ask_about : Services W → Store W → String → String → Option (Json W)
  ask_about sv store question key = do
    context ← context_of sv store key
    answer ← sv.complete (append question (append "\n\nRun context:\n" context))
    some (object (("answer", str answer) ∷ []))

  unfoldable pub results_of : Store W → String → List String
  results_of store stage =
      filter (ends_with ".json") (list_keys (append "results/" (append stage "/")) store)

  -- One line of `check_run`.
  unfoldable pub summary_line : Services W → Store W → String → String
  summary_line sv store stage = append stage (
      append ": " (
        append (Decimal.str (length (results_of store stage))) (
          append " done, " (
            append (Decimal.str (length (list_failures store stage))) (
              append " failed, peak_mem="
                (append (str_or_none sv.show (peer_stats store stage).max_peak_mem_mb) "MB"))))))

  unfoldable pub summary_of : {F : Type 0} → Services W → Store W → List (Stage W F) → String
  summary_of sv store order = join_lines (map (λ st. summary_line sv store st.name) order)

  unfoldable pub check_run :
      {F : Type 0} → Services W → Store W → Pipeline W F → ℕ → Option (Json W)
  check_run sv store pipe limit = do
    order ← topo_order pipe limit
    let summary = summary_of sv store order
    verdict ← sv.complete (
        append "Pipeline run summary below. Did it succeed? Flag any stage that failed "
          (append "or ran near its memory limit, and suggest next steps.\n\n" summary))
    some (object (("summary", str summary) ∷ ("verdict", str verdict) ∷ []))
