-- ===== src/Tests/Clouds.antt =====
-- The drain on the aws backend, with a queue whose counts stay 0 and no worker job.
use gleanflow.Prelude.{ℕ, ◌*◌, ◌≡◌, refl, none, some, false, [], ◌∷◌, In, inl, arith}
use gleanflow.Prelude.Dict.{Dict, keys, has}
use gleanflow.Float.{nat_float}
use gleanflow.Json.{int}
use gleanflow.Config.{default_config}
use gleanflow.Task.{Task}
use gleanflow.Markers.{has_result}
use gleanflow.Queue.Sqs.{SqsOps}
use gleanflow.Fleet.Batch.{BatchOps, BatchFleet}
use gleanflow.Controller.Setup.{new_tracker}
use gleanflow.Controller.Cloud.{Cloud, chunks_dead, cloud_drain}
use gleanflow.Controller.Cloud.Unattended.{IsGivenUp, cloud_drain-IsGivenUp}

abbrev empty_sqs : SqsOps ℕ ℕ
empty_sqs = record {
  send_message = λ body s. s;
  receive_message = λ lease s. (s, []);
  change_message_visibility = λ handle lease s. s;
  delete_message = λ handle s. s;
  attributes = λ s. (some 0, some 0);
}

abbrev no_batch : BatchOps ℕ ℕ
no_batch = record { describe_jobs = λ ids s. []; submit_job = λ sub s. (s, "") }

abbrev fleet : BatchFleet ℕ
fleet = record {
  cfg = default_config;
  spec = "pkg.mod:pipe";
  resources = record { vcpu = 2; mem = 4096; omp = none };
  job_ids = [];
  appcode_s3 = "s3://b/code.zip";
  service = 0;
}

abbrev job : Task ℕ
job = record { stage = "s"; key = "s/a"; params = []; weight = 1; attempt = 4 }

abbrev begin : Cloud ℕ ℕ ℕ
begin = record {
  queue = record { sqs = 0; receipts = [] };
  fleet = fleet;
  store = [];
  tracker = new_tracker none;
}

-- Workers that write no marker, and a clock of half a deadline a turn.
abbrev others : ℕ → Cloud ℕ ℕ ℕ → Cloud ℕ ℕ ℕ
others j c = record c { store = [] }

abbrev clock : ℕ → ℕ
clock i = 50 * i

no_result : (j : ℕ) (c : Cloud ℕ ℕ ℕ) → has_result (others j c).store "s/a" ≡ false
unfolding has_result has
no_result j c = refl

abbrev job_active : Dict (Task ℕ)
job_active = ("s/a", job) ∷ []

is_active : In "s/a" (keys job_active)
is_active = inl refl

cloud_drain-IsGivenUp_example : IsGivenUp (
    cloud_drain empty_sqs no_batch "s" 16
      (λ n. int n)
      clock
      others
      100
      (λ dead c. chunks_dead c)
      3
      0
      job_active
      begin)
cloud_drain-IsGivenUp_example =
    cloud_drain-IsGivenUp empty_sqs no_batch "s" 16 (λ n. int n) clock others 100
      (λ dead c. chunks_dead c) 2 0 job_active begin "s/a" is_active no_result (omega arith)
