-- ===== src/Tests/Agents.antt =====
-- An LLM that replies in prose or not at all, the events of a failed task and the remedy for it, and a
-- monitor of two samples.
use Prim.Native.String.{◌++◌}
use gleanflow.Prelude.{
  ℕ, arith, true, ◌≡◌, ◌≤◌, refl, String, none, some, false, [], ◌∷◌, map, All, In, ◌==◌,
  if◌then◌else◌,
}
use gleanflow.Prelude.Dict.{Dict, get, get_or}
use gleanflow.Float.{nat_float}
use gleanflow.Json.{Json, int, str, float, null, array, object, of_dict, of_list, to_dict, to_list}
use gleanflow.Text.{Lacks}
use gleanflow.Config.{PipelineConfig, remediate, default_config}
use gleanflow.Controller.Remedy.{Run}
use gleanflow.Controller.Failures.{is_remediate}
use gleanflow.Controller.Triage.Offline.{Answered, handle_failures_offline}
use gleanflow.Stage.{Stage}
use gleanflow.Task.{Task}
use gleanflow.World.{World}
use gleanflow.Worker.{abandon}
use gleanflow.Agent.{FailureEvent, Remediation}
use gleanflow.Agent.Llm.{Services, value, from_dict, ask_llm, factor_of, nat_or_none, text_or}
use gleanflow.Agent.Llm.Replies.{ask_llm_reads}
use gleanflow.Agent.Investigator.{before_slash, marker_event}
use gleanflow.Agent.Investigator.Events.{told, events_tell}
use gleanflow.Controller.Event.{failure_event, input_members}
use gleanflow.Monitor.{
  Machine, mem, used, float_or_null, rounded, sample_all, start, stop, or_process, read_int,
  cpu_usec, cgroup_v2, first_word, is_blank, number_word, or_v1, peak_or_cur, word,
}
use gleanflow.Monitor.Peak.{stop_reports_peak}
use gleanflow.Monitor.Cpu.{cpu_usec-ignores_stat}
use gleanflow.Decimal.{all_digits_in, int as decimal_int, is_digit, read}

abbrev reply_dict : Dict (Json ℕ)
reply_dict = ("action", str "retry_with") ∷ ("mem", int 8192) ∷ []

abbrev services : Services ℕ
services = record {
  complete = λ p. some ("Sure: " ++ ("{" ++ ("x" ++ ("}" ++ " Done."))));
  loads = λ t. some (object reply_dict);
  dumps = λ j. "";
  show = λ x. "";
  source = λ s. "";
  ninety = λ x. x;
  lower = λ s. s;
}

abbrev event : FailureEvent ℕ
event = record {
  stage = "s";
  task_key = "s/a";
  params = [];
  attempt = 4;
  error = "killed";
  traceback = "";
  peak_mem_mb = none;
  limit_mb = none;
  cpu_seconds = none;
  members = [];
  resources = [];
  peer_peak_mem_mb = none;
  log_tail = "";
}

abbrev more_mem : Remediation
more_mem = record {
  action = "retry_with";
  mem = some 8192;
  vcpu = none;
  factor = 0;
  diagnosis = "";
  fix = "";
}

reads : from_dict reply_dict ≡ value more_mem
unfolding from_dict factor_of get text_or nat_or_none input_members object to_dict of_dict array
    to_list of_list used peak_or_cur get_or mem or_v1 cgroup_v2 read_int number_word first_word
    is_blank word decimal_int all_digits_in is_digit read
reads = refl

prose_before : Lacks "{" "Sure: "
prose_before = (refl, (refl, (refl, (refl, (refl, (refl, tt))))))

prose_behind : Lacks "}" " Done."
prose_behind = (refl, (refl, (refl, (refl, (refl, (refl, tt))))))

ask_llm_reads_example : ask_llm services event ≡ some more_mem
ask_llm_reads_example =
    ask_llm_reads services event "Sure: " "x" " Done." reply_dict more_mem refl prose_before
      prose_behind refl reads

abbrev step : Stage ℕ ℕ
step = record {
  name = "s";
  fn = 0;
  reads = none;
  chunk_by = none;
  target_rows = none;
  target_bytes = none;
  partition = none;
  vcpu = some 2;
  mem = some 4096;
  omp = none;
  retries = 2;
  checkpoint = false;
  cap_rows = 1000;
}

abbrev job : Task ℕ
job = record {
  stage = "s";
  key = "s/a";
  params = ("_in", object (("members", array (int 1 ∷ int 2 ∷ [])) ∷ [])) ∷ [];
  weight = 1;
  attempt = 3;
}

abbrev world : World ℕ
world = record {
  queue = record {
    heap = λ r. job;
    max_redeliveries = 3;
    ready = [];
    inflight = ("s/a", (0, 300)) ∷ [];
    dlq = [];
  };
  store = [];
  tracker = none;
}

abbrev stats : Dict (Json ℕ)
stats = ("peak_mem_mb", float 90) ∷ ("limit_mb", float 100) ∷ ("cpu_seconds", null) ∷ []

peak_is : get "peak_mem_mb" stats ≡ some (float_or_null (some 90))
unfolding get float_or_null
peak_is = refl

limit_is : get "limit_mb" stats ≡ some (float_or_null (some 100))
unfolding get float_or_null
limit_is = refl

cpu_is : get "cpu_seconds" stats ≡ some (float_or_null none)
unfolding get float_or_null
cpu_is = refl

members_is : input_members job.params ≡ some (int 1 ∷ int 2 ∷ [])
unfolding input_members get object to_dict of_dict array to_list of_list used peak_or_cur get_or mem
    or_v1 cgroup_v2 read_int number_word first_word is_blank word decimal_int all_digits_in is_digit
    read
members_is = refl

abbrev seen : ℕ → String → FailureEvent ℕ
seen attempt stage =
    told (int 7) step default_config 0 "MemoryError" "trace" stats world attempt stage (some 90)
      (some 100) none (int 1 ∷ int 2 ∷ [])

events_tell_example :
    (failure_event default_config step
        (record job { attempt = 4 })
        (abandon (int 7) step default_config 0 "MemoryError" "trace" stats world).store
      ≡ some (seen 4 "s"))
    × (marker_event
          (abandon (int 7) step default_config 0 "MemoryError" "trace" stats world).store
          "s/a"
        ≡ some (seen 3 (before_slash "s/a")))
events_tell_example =
    events_tell (int 7) step default_config 0 "MemoryError" "trace" stats world (some 90) (some 100)
      none (int 1 ∷ int 2 ∷ []) peak_is limit_is cpu_is members_is 4

-- A machine with cgroup v2 whose memory in use is `n`.
abbrev machine : String → Machine
machine n = record {
  file = λ path.
      if path == "/sys/fs/cgroup/memory.current"
      then some n
      else if path == "/sys/fs/cgroup/cpu.stat"
      then some ("usage_usec " ++ "77\nuser_usec 70\n")
      else none;
  rss = none;
  is_darwin = false;
  process_usec = some 5;
}

stop_reports_peak_example :
    let all = machine "10\n" ∷ machine "30\n" ∷ machine "20\n" ∷ [] in
    let report =
      stop
        (λ n. n)
        (λ n. n)
        (λ t. t)
        (machine "20\n")
        (sample_all (machine "30\n" ∷ []) (start 0 (machine "10\n"))) in
    (p : ℕ) × (get "peak_mem_mb" report ≡ some (float_or_null (rounded (λ n. n) p)))
    × All (λ m. used m ≤ p) all
    × In p (map used all)
    × (get "limit_mb" report
        ≡ some (float_or_null (rounded (λ n. n) (get_or 0 (mem (machine "20\n")).limit))))
stop_reports_peak_example =
    stop_reports_peak (λ n. n) (λ n. n) (λ t. t) 0 (machine "10\n") (machine "20\n")
      (machine "30\n" ∷ [])

used_30 : used (machine "30\n") ≡ 30
unfolding used peak_or_cur get_or mem or_v1 cgroup_v2 read_int number_word first_word is_blank word
    decimal_int all_digits_in is_digit read
used_30 = refl

cpu_usec-ignores_stat_example :
    cpu_usec (machine "10\n")
    ≡ or_process (machine "10\n") (read_int (machine "10\n") "/sys/fs/cgroup/cpuacct/cpuacct.usage")
cpu_usec-ignores_stat_example = cpu_usec-ignores_stat (machine "10\n") "77\nuser_usec 70\n" refl

-- a run with the dead task, under the policy `remediate`, and an LLM that cannot be reached
abbrev remedies : PipelineConfig
remedies = record default_config { failure_policy = remediate }

abbrev dead_run : Run ℕ
dead_run = record {
  world = record world {
    queue = record world.queue { heap = λ r. record job { attempt = 4 } };
    store = (abandon (int 7) step remedies 0 "MemoryError" "trace" stats world).store;
  };
  fleet = none;
  fresh = 1;
}

abbrev offline : Services ℕ
offline = record services { complete = λ p. none }

abbrev last_words : FailureEvent ℕ
last_words =
    told (int 7) step remedies 0 "MemoryError" "trace" stats world 4 "s" (some 90) (some 100) none
      (int 1 ∷ int 2 ∷ [])

remedies_remediate : is_remediate remedies.failure_policy ≡ true
unfolding is_remediate
remedies_remediate = refl

handle_failures_offline_example : Answered (int 8) step remedies offline 2 0 dead_run last_words
handle_failures_offline_example =
    handle_failures_offline (int 8) step remedies offline 2 0 dead_run last_words
      (events_tell (int 7) step remedies 0 "MemoryError" "trace" stats world (some 90) (some 100)
        none (int 1 ∷ int 2 ∷ []) peak_is limit_is cpu_is members_is 4).0
      refl remedies_remediate (omega arith)
