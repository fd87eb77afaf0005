-- ===== src/Infra/Outputs.antt =====
-- The sidecar of infra/apply.py: what a later command reads is what `apply` has set.
use mathlib.Core.Path.{subst}
use gleanflow.Prelude.{◌≡◌, ap, Option, some}
use gleanflow.Prelude.Dict.{Dict}
use gleanflow.Json.{Json, ◌>>=◌}
use gleanflow.Config.{PipelineConfig}
use gleanflow.Controller.Steps.{bind_some, some_inj}
use gleanflow.Infra.{apply_to_config, values_of, live_outputs, load_outputs, apply_outputs}

-- After `apply` has set a configuration and written its sidecar, `load_outputs` sets the same from the
-- sidecar, without a call of terraform, and leaves the sidecar as it is.
pub load_outputs-apply_outputs :
    {W : Type 0} (printed : Dict (Json W)) (later : Option (Dict (Json W)))
    (cfg cfg' : PipelineConfig) (sidecar : Option (Dict (Json W)))
    → apply_outputs printed cfg ≡ some (cfg', sidecar)
    → load_outputs sidecar later cfg ≡ some (cfg', sidecar)
unfolding apply_outputs load_outputs live_outputs
load_outputs-apply_outputs printed later cfg cfg' sidecar e =
    let (outputs, _, e1) = bind_some (values_of printed) _ (cfg', sidecar) e in
    let (set, applied, e2) = bind_some (apply_to_config outputs cfg) _ (cfg', sidecar) e1 in
    let same = some_inj e2 in
    subst (λ p. load_outputs p.1 later cfg ≡ some p) same
      (ap (λ o. o >>= λ set'. some (set', some outputs)) applied)
