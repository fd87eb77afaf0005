-- ===== src/Tests/Settings.antt =====
-- The command line's arguments, a worker's environment, and the outputs of terraform.
use gleanflow.Prelude.{
  ℕ, ◌≡◌, refl, ap, String, Option, none, some, List, [], ◌∷◌, ◌++◌, map, All, IsUnique, ◌==◌,
}
use gleanflow.Prelude.Dict.{Dict, keys, get}
use gleanflow.Decimal.{int}
use gleanflow.Json.{Json, str, object, ◌>>=◌, of_dict, to_dict}
use gleanflow.Text.{Lacks, size, starts_with}
use gleanflow.Config.{PipelineConfig, default_config}
use gleanflow.Fleet.Batch.{BatchOps, BatchFleet, environment_of}
use gleanflow.Cli.{kv, parse_spec}
use gleanflow.Cli.Pairs.{pair_text, coerced, kv-pairs}
use gleanflow.Worker.Entry.{worker_config, worker_spec, worker_config-environment_of}
use gleanflow.Infra.{
  apply_outputs, replace_text, apply_to_config, output_or, replace_from, values_of,
}

abbrev to_int : String → Option (Json ℕ)
to_int s = int s >>= λ n. some (Json.int n)

abbrev to_float : String → Option ℕ
to_float s = none

abbrev arguments : List (String × String)
arguments = ("days", "12") ∷ ("name", "a=b") ∷ []

lacks : All (λ p. Lacks "=" p.0) arguments
lacks = ((refl, (refl, (refl, (refl, tt)))), ((refl, (refl, (refl, (refl, tt)))), tt))

distinct : IsUnique (keys arguments)
distinct = ((λ e. cc (ap (λ s. s == "name") e), tt), (tt, tt))

kv-pairs_example :
    kv to_int to_float (map pair_text arguments) ≡ map (coerced to_int to_float) arguments
kv-pairs_example = kv-pairs to_int to_float arguments lacks distinct

abbrev no_batch : BatchOps ℕ ℕ
no_batch = record { describe_jobs = λ ids s. []; submit_job = λ sub s. (s, "") }

abbrev fleet : BatchFleet ℕ
fleet = record {
  cfg = record default_config { s3_root = "s3://bucket/run"; sqs_url = "https://sqs/tasks" };
  spec = "pkg.mod:flow";
  resources = record { vcpu = 2; mem = 4096; omp = none };
  job_ids = [];
  appcode_s3 = "s3://bucket/code.zip";
  service = 0;
}

abbrev environment : Dict String
environment = environment_of no_batch fleet ++ ("HOME", "/root") ∷ []

worker_config-environment_of_example :
    ((worker_config environment default_config).s3_root ≡ fleet.cfg.s3_root)
    × ((worker_config environment default_config).sqs_url ≡ fleet.cfg.sqs_url)
    × ((worker_config environment default_config).region ≡ fleet.cfg.region)
    × (worker_spec environment ≡ some (parse_spec fleet.spec))
worker_config-environment_of_example =
    worker_config-environment_of no_batch fleet (("HOME", "/root") ∷ []) default_config

abbrev printed : Dict (Json ℕ)
printed =
    ("s3_root", object (("value", str "s3://bucket/run") ∷ []))
    ∷ ("queue", object (("value", str "arn:queue") ∷ []))
    ∷ []

abbrev outputs : Dict (Json ℕ)
outputs = ("s3_root", str "s3://bucket/run") ∷ ("queue", str "arn:queue") ∷ []

abbrev applied : PipelineConfig
applied = record default_config { s3_root = "s3://bucket/run"; queue_arn = "arn:queue" }

applies : apply_outputs printed default_config ≡ some (applied, some outputs)
unfolding apply_outputs values_of object get to_dict of_dict apply_to_config output_or replace_text
    replace_from starts_with
applies = refl

project_name : replace_text "_" "-" "my_big_run" ≡ "my-big-run"
unfolding replace_text replace_from starts_with size
project_name = refl
