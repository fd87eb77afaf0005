-- ===== src/Config.antt =====
-- gleanflow/config.py: `PipelineConfig`, and Python's `or` on its optional ints. Times are in clock
-- ticks, `handler` says whether a failure handler of the user's is given, and `extra` is left out.
use gleanflow.Prelude.{ℕ, zero, suc, String, Option, none, some, Bool, false}
use gleanflow.Text.{starts_with}

pub data FailurePolicy : Type 0 where
  off report remediate : FailurePolicy

pub record PipelineConfig : Type 0 where
  pub s3_root : String
  pub region : String
  pub image : String
  pub queue_arn : String
  pub job_def : String
  pub sqs_url : String
  pub dlq_url : String
  pub appcode_s3 : String
  pub worker_idle_timeout : ℕ
  pub lease_seconds : ℕ
  pub heartbeat_seconds : ℕ
  pub viz_host : String
  pub viz_port : ℕ
  pub handler : Bool
  pub enable_agent_api : Bool
  pub max_workers : ℕ
  pub max_redeliveries : ℕ
  pub worker_failure_cap : ℕ
  pub default_vcpu : ℕ
  pub default_mem : ℕ
  pub failure_policy : FailurePolicy
  pub max_remediations : ℕ

-- The defaults of the class.
abbrev pub default_config : PipelineConfig
default_config = record {
  s3_root = "./.gleanflow";
  region = "us-east-1";
  image = "";
  queue_arn = "";
  job_def = "";
  sqs_url = "";
  dlq_url = "";
  appcode_s3 = "";
  worker_idle_timeout = 60;
  lease_seconds = 300;
  heartbeat_seconds = 30;
  viz_host = "127.0.0.1";
  viz_port = 8765;
  handler = false;
  enable_agent_api = false;
  max_workers = 16;
  max_redeliveries = 3;
  worker_failure_cap = 8;
  default_vcpu = 2;
  default_mem = 16384;
  failure_policy = off;
  max_remediations = 2;
}

-- `x or d` for an optional int: 0 is false.
abbrev pub or_else : Option ℕ → ℕ → ℕ
or_else none d = d
or_else (some zero) d = d
or_else (some (suc n)) d = suc n

unfoldable pub is_s3 : PipelineConfig → Bool
is_s3 cfg = starts_with "s3://" cfg.s3_root
