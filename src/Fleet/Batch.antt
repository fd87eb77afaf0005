-- ===== src/Fleet/Batch.antt =====
-- gleanflow/fleet/batch.py: `BatchFleet`. AWS Batch is a parameter: what it answers to
-- `describe_jobs` and `submit_job`, on its own state.
use Prim.Native.String.{◌++◌ as append}
use gleanflow.Prelude.{
  ℕ, zero, suc, ◌+◌, ◌-◌, min, String, Option, none, some, Bool, List, [], ◌∷◌, ◌++◌, filter, drop,
  length, leb, ◌==◌, if◌then◌else◌,
}
use gleanflow.Prelude.Dict.{get_or}
use gleanflow.Config.{PipelineConfig}
use gleanflow.Decimal
use gleanflow.Text.{take_chars}
use gleanflow.Json.{Json, null, ◌>>=◌}
use gleanflow.Pipeline.{contains}

-- A job of `describe_jobs`; the container is that of an attempt.
pub record Container (W : Type 0) : Type 0 where
  pub exit_code : Json W
  pub log_stream : Json W

pub record Job (W : Type 0) : Type 0 where
  pub job_id : String
  pub status : String
  pub stopped_at : Option ℕ
  pub status_reason : Json W
  pub attempts : List (Container W)

-- The arguments of `submit_job` that `_submit_one` chooses.
pub record Submission : Type 0 where
  pub job_name : String
  pub job_queue : String
  pub job_definition : String
  pub environment : List (String × String)
  pub vcpu : String
  pub memory : String
  pub attempts : ℕ

pub record BatchOps (S W : Type 0) : Type 0 where
  pub describe_jobs : List String → S → List (Job W)
  pub submit_job : Submission → S → S × String

-- `resources`, where `omp` may be missing
pub record WorkerResources : Type 0 where
  pub vcpu : ℕ
  pub mem : ℕ
  pub omp : Option ℕ

pub record BatchFleet (S : Type 0) : Type 0 where
  pub cfg : PipelineConfig
  pub spec : String
  pub resources : WorkerResources
  pub job_ids : List String
  pub appcode_s3 : String
  -- the state of the service
  pub service : S

unfoldable pub take {ℓ} : {A : Type ℓ} → ℕ → List A → List A
take zero xs = []
take (suc n) [] = []
take (suc n) (x ∷ xs) = x ∷ take n xs

unfoldable pub live_states : List String
live_states = "SUBMITTED" ∷ "PENDING" ∷ "RUNNABLE" ∷ "STARTING" ∷ "RUNNING" ∷ []

module _ {W : Type 0} where
  unfoldable pub is_live : Job W → Bool
  is_live j = contains j.status live_states

  unfoldable pub is_failed : Job W → Bool
  is_failed j = j.status == "FAILED"

  -- What `last_failure` keeps of a job.
  unfoldable pub last_container : List (Container W) → Container W
  last_container [] = record { exit_code = null; log_stream = null }
  last_container (c ∷ []) = c
  last_container (c ∷ d ∷ cs) = last_container (d ∷ cs)

  -- `j.get("stoppedAt") or 0`
  unfoldable pub stop_time : Job W → ℕ
  stop_time j = get_or 0 j.stopped_at

  -- The loop of `last_failure`: of the jobs that stopped last, the last.
  unfoldable pub latest_failed : Option (Job W) → List (Job W) → Option (Job W)
  latest_failed best [] = best
  latest_failed none (j ∷ js) = latest_failed (some j) js
  latest_failed (some b) (j ∷ js) =
      if leb (stop_time b) (stop_time j)
      then latest_failed (some j) js
      else latest_failed (some b) js

module _ {S W : Type 0} (batch : BatchOps S W) where
  -- `describe_jobs` on `ids[i:i+100]` for each `i`, on fuel
  unfoldable pub describe : ℕ → List String → S → List (Job W)
  describe zero ids s = []
  describe (suc fuel) [] s = []
  describe (suc fuel) (j ∷ ids) s =
      batch.describe_jobs (take 100 (j ∷ ids)) s ++ describe fuel (drop 100 (j ∷ ids)) s

  -- There are no more calls than ids.
  unfoldable pub describe_all : BatchFleet S → List (Job W)
  describe_all f = describe (length f.job_ids) f.job_ids f.service

  unfoldable pub running : BatchFleet S → ℕ
  running f = length (filter is_live (describe_all f))

  unfoldable pub failed_jobs : BatchFleet S → List (Job W)
  failed_jobs f = filter is_failed (describe_all f)

  unfoldable pub failed_count : BatchFleet S → ℕ
  failed_count f = length (failed_jobs f)

  unfoldable pub last_failure : BatchFleet S → Option (Job W × Container W)
  last_failure f = do j ← latest_failed none (failed_jobs f); some (j, last_container j.attempts)

  unfoldable pub environment_of : BatchFleet S → List (String × String)
  environment_of f =
      let base =
        ("GLEANFLOW_PIPELINE", f.spec)
        ∷ ("OUT_S3", f.cfg.s3_root)
        ∷ ("SQS_URL", f.cfg.sqs_url)
        ∷ ("AWS_REGION", f.cfg.region)
        ∷ ("OMP_NUM_THREADS", Decimal.str (get_or f.resources.vcpu f.resources.omp))
        ∷ [] in
      if f.appcode_s3 == "" then base else base ++ ("APPCODE_S3", f.appcode_s3) ∷ []

  unfoldable pub submission : ℕ → BatchFleet S → Submission
  submission idx f = record {
    job_name = take_chars 128 (append "gleanflow-worker-" (Decimal.str idx));
    job_queue = f.cfg.queue_arn;
    job_definition = f.cfg.job_def;
    environment = environment_of f;
    vcpu = Decimal.str f.resources.vcpu;
    memory = Decimal.str f.resources.mem;
    attempts = 2;
  }

  -- `self._job_ids.append(self._submit_one(idx))`
  unfoldable pub submit_one : ℕ → BatchFleet S → BatchFleet S
  submit_one idx f =
      let done = batch.submit_job (submission idx f) f.service in
      record f { job_ids = f.job_ids ++ done.1 ∷ []; service = done.0 }

  -- the jobs `i`, `i + 1`, ..., `k` of them
  unfoldable pub submit_range : ℕ → ℕ → BatchFleet S → BatchFleet S
  submit_range zero i f = f
  submit_range (suc k) i f = submit_range k (i + 1) (submit_one i f)

  unfoldable pub ensure : ℕ → BatchFleet S → BatchFleet S
  ensure n f = let live = running f in submit_range (min n f.cfg.max_workers - live) live f
