-- ===== src/Worker/Entry.antt =====
-- `main` of gleanflow/worker.py: what a worker on AWS Batch takes from its environment.
use Prim.Native.String.{◌++◌ as append}
use gleanflow.Prelude.{String, ◌≡◌, refl, Option, some, Bool, not, ◌++◌, Bool-cases, inl, inr, ◌==◌}
use gleanflow.Prelude.Dict.{Dict, get, get_or}
use gleanflow.Json.{◌>>=◌}
use gleanflow.Config.{PipelineConfig}
use gleanflow.Fleet.Batch.{BatchOps, BatchFleet, environment_of}
use gleanflow.Cli.{parse_spec}

-- The configuration of the pipeline, with what the environment overrides.
unfoldable pub worker_config : Dict String → PipelineConfig → PipelineConfig
worker_config env cfg = record cfg {
  region = get_or cfg.region (get "AWS_REGION" env);
  s3_root = get_or cfg.s3_root (get "OUT_S3" env);
  sqs_url = get_or cfg.sqs_url (get "SQS_URL" env);
}

-- The module and the attribute of the pipeline; `none` stands for the KeyError.
unfoldable pub worker_spec : Dict String → Option (String × String)
worker_spec env = do spec ← get "GLEANFLOW_PIPELINE" env; some (parse_spec spec)

-- `pid` is the text of `os.getpid()`.
unfoldable pub worker_name : String → Dict String → String
worker_name pid env = get_or (append "local-" pid) (get "AWS_BATCH_JOB_ID" env)

-- `bool(os.environ.get("FORCE"))`
unfoldable pub is_forced : Dict String → Bool
is_forced env = not (get_or "" (get "FORCE" env) == "")

-- A worker that `BatchFleet` has submitted runs the fleet's pipeline, on the store, the queue and the
-- region of the fleet's configuration, whatever the pipeline's own configuration is in the container.
pub worker_config-environment_of :
    {S W : Type 0} (batch : BatchOps S W) (f : BatchFleet S) (others : Dict String)
    (cfg : PipelineConfig)
    → let env = environment_of batch f ++ others in
      ((worker_config env cfg).s3_root ≡ f.cfg.s3_root)
      × ((worker_config env cfg).sqs_url ≡ f.cfg.sqs_url)
      × ((worker_config env cfg).region ≡ f.cfg.region)
      × (worker_spec env ≡ some (parse_spec f.spec))
unfolding worker_config worker_spec environment_of get get_or
worker_config-environment_of batch f others cfg = elim (Bool-cases (f.appcode_s3 == "")) [
  | inl no_code ↦ rw no_code (refl, refl, refl, refl)
  | inr code ↦ rw code (refl, refl, refl, refl)
]
