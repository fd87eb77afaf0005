-- ===== src/Tests/Fleets.antt =====
-- A fleet of two jobs, one of which has failed, on a service that numbers its jobs.
use gleanflow.Prelude.{
  ℕ, ◌+◌, ◌-◌, min, max, String, Option, none, some, [], ◌∷◌, ◌≡◌, refl, length, ◌==◌,
  if◌then◌else◌,
}
use gleanflow.Json.{null}
use gleanflow.Config.{default_config}
use gleanflow.Pipeline.{contains}
use gleanflow.Fleet.Batch.{Job, BatchOps, BatchFleet, running, ensure, is_live, live_states}
use gleanflow.Fleet.Sizing.{IsBatch, IsKnown, found, ensure-running}

job_of : String → String → Job ℕ
job_of status j = record {
  job_id = j;
  status = status;
  stopped_at = none;
  status_reason = null;
  attempts = [];
}

-- Each id that the service gives is one `x` longer; it knows each id.
abbrev lookup : String → Option (Job ℕ)
lookup j = some (job_of (if j == "dead" then "FAILED" else "RUNNING") j)

abbrev service : BatchOps Unit ℕ
service = record { describe_jobs = λ ids s. found lookup ids; submit_job = λ r s. (s, "job") }

service-IsBatch : IsBatch service
unfolding job_of is_live contains live_states
service-IsBatch = record {
  job = λ s. lookup;
  describe_found = λ ids s h. refl;
  submitted = λ r s. (job_of "RUNNING" "job", refl, refl);
  kept = λ r s j x h. h;
}

abbrev fleet : BatchFleet Unit
fleet = record {
  cfg = default_config;
  spec = "pipe:main";
  resources = record { vcpu = 2; mem = 4096; omp = none };
  job_ids = "dead" ∷ "a" ∷ [];
  appcode_s3 = "";
  service = tt;
}

ensure-running_example :
    (running service (ensure service 3 fleet) ≡ max (running service fleet) (min 3 16))
    × (length (ensure service 3 fleet).job_ids ≡ 2 + (min 3 16 - running service fleet))
unfolding IsKnown service-IsBatch
ensure-running_example =
    ensure-running service-IsBatch 3 fleet (lookup_there "dead", (lookup_there "a", tt))
  where
    lookup_there : (j : String) → (x : Job ℕ) × (lookup j ≡ some x)
    lookup_there j = (job_of (if j == "dead" then "FAILED" else "RUNNING") j, refl)
