-- ===== src/Infra.antt =====
-- gleanflow/infra/apply.py: the rendered Terraform template, and its outputs folded into the
-- configuration. SHA-1, the file system and terraform are parameters.
pub mod Outputs
use Prim.Native.String.{◌++◌ as append}
use gleanflow.Prelude.{
  ℕ, zero, suc, ◌-◌, ◌*◌, max, String, Option, none, some, Bool, List, [], ◌∷◌, if◌then◌else◌, ◌==◌,
}
use gleanflow.Prelude.Dict.{Dict, get, get_or}
use gleanflow.Decimal
use gleanflow.Json.{Json, as_str, as_dict, optional, required, ◌>>=◌}
use gleanflow.Text.{starts_with, size}
use gleanflow.Config.{PipelineConfig}

-- `s.replace(k, v)` for a `k` that is not empty: `skip` characters belong to the last `k` found.
unfoldable pub replace_from : String → String → ℕ → String → String
replace_from k v skip String.[] = ""
replace_from k v (suc skip) (String.◌∷◌ c s) = replace_from k v skip s
replace_from k v zero (String.◌∷◌ c s) =
    let here = append v (replace_from k v (size k - 1) s) in
    let other = String.◌∷◌ c (replace_from k v 0 s) in
    if starts_with k (String.◌∷◌ c s) then here else other

unfoldable pub replace_text : String → String → String → String
replace_text k v s = replace_from k v 0 s

-- `pipe.name.replace("_", "-")`
unfoldable pub project : String → String
project name = replace_text "_" "-" name

unfoldable pub render_with : Dict String → String → String
render_with [] tf = tf
render_with ((k, v) ∷ subs) tf = render_with subs (replace_text k v tf)

-- What `_render` takes from elsewhere: the entries of `extra` that it reads, `bucket_suffix` being ""
-- where there is none, the hashes and the paths.
pub record Extras : Type 0 where
  pub bucket_suffix : String
  pub name_hash : String
  pub image_pip : String
  pub package_dir : String
  pub infra_dir : String
  pub context_hash : String
  pub read_arns : String

-- `str(cfg.extra.get("bucket_suffix") or ...)`
unfoldable pub suffix_of : Extras → String
suffix_of x = if x.bucket_suffix == "" then x.name_hash else x.bucket_suffix

unfoldable pub substitutions : String → PipelineConfig → Extras → Dict String
substitutions name cfg x =
    ("%%PROJECT%%", project name)
    ∷ ("%%REGION%%", cfg.region)
    ∷ ("%%SUFFIX%%", suffix_of x)
    ∷ ("%%MAXVCPU%%", Decimal.str (max 16 (cfg.max_workers * cfg.default_vcpu)))
    ∷ ("%%VCPU%%", Decimal.str cfg.default_vcpu)
    ∷ ("%%MEM%%", Decimal.str cfg.default_mem)
    ∷ ("%%LEASE%%", Decimal.str cfg.lease_seconds)
    ∷ ("%%MAXREDELIVER%%", Decimal.str cfg.max_redeliveries)
    ∷ ("%%EXTRA_PIP%%", x.image_pip)
    ∷ ("%%GLEANFLOW_SRC%%", x.package_dir)
    ∷ ("%%INFRA_DIR%%", x.infra_dir)
    ∷ ("%%CTX_HASH%%", x.context_hash)
    ∷ ("%%READ_ARNS%%", x.read_arns)
    ∷ []

-- `_render`, of the template `tf`
unfoldable pub render : String → PipelineConfig → Extras → String → String
render name cfg x tf = render_with (substitutions name cfg x) tf

module _ {W : Type 0} where
  -- `outputs.get(k, d)`; a value that is no text is left out.
  unfoldable pub output_or : String → String → Dict (Json W) → Option String
  output_or k d outputs = optional as_str k d outputs

  -- `_apply_to_config`
  unfoldable pub apply_to_config : Dict (Json W) → PipelineConfig → Option PipelineConfig
  apply_to_config outputs cfg = do
    s3_root ← output_or "s3_root" cfg.s3_root outputs
    queue ← output_or "queue" cfg.queue_arn outputs
    job_def ← output_or "job_def" cfg.job_def outputs
    sqs_url ← output_or "sqs_url" cfg.sqs_url outputs
    dlq_url ← output_or "dlq_url" cfg.dlq_url outputs
    some (record cfg {
      s3_root = s3_root;
      queue_arn = queue;
      job_def = job_def;
      sqs_url = sqs_url;
      dlq_url = dlq_url;
    })

  -- `{k: v["value"] for k, v in out.items()}`
  unfoldable pub values_of : Dict (Json W) → Option (Dict (Json W))
  values_of [] = some []
  values_of ((k, v) ∷ out) = do
    entry ← as_dict v
    x ← get "value" entry
    rest ← values_of out
    some ((k, x) ∷ rest)

  -- `load_outputs`: the sidecar file where there is one, and else what terraform prints; where that
  -- fails, nothing is set. The second part is the sidecar afterwards.
  unfoldable pub live_outputs :
      Option (Dict (Json W)) → PipelineConfig → Option (PipelineConfig × Option (Dict (Json W)))
  live_outputs none cfg = some (cfg, none)
  live_outputs (some outputs) cfg = do cfg' ← apply_to_config outputs cfg; some (cfg', some outputs)

  unfoldable pub load_outputs :
      Option (Dict (Json W))
      → Option (Dict (Json W))
      → PipelineConfig
      → Option (PipelineConfig × Option (Dict (Json W)))
  load_outputs (some outputs) printed cfg = live_outputs (some outputs) cfg
  load_outputs none printed cfg = live_outputs (printed >>= values_of) cfg

  -- `apply`, behind the call of terraform that prints the outputs
  unfoldable pub apply_outputs :
      Dict (Json W) → PipelineConfig → Option (PipelineConfig × Option (Dict (Json W)))
  apply_outputs printed cfg = do
    outputs ← values_of printed
    cfg' ← apply_to_config outputs cfg
    some (cfg', some outputs)
