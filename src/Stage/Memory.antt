-- ===== src/Stage/Memory.antt =====
-- The resources of stage.py meet Fargate's memory granularity.
use gleanflow.Prelude.{ℕ, ◌+◌, ◌%◌, ◌≤◌, ◌<◌, ◌≡◌, arith}
use gleanflow.Config.{PipelineConfig, or_else}
use gleanflow.Stage.{Stage, round_up, resources}

pub round_up_bounds : (n : ℕ) → (n ≤ round_up n) × (round_up n < n + 4096) × (round_up n % 4096 ≡ 0)
unfolding round_up
round_up_bounds n = (omega arith, omega arith, omega arith)

-- With 8 vCPU or more the memory is a multiple of 4096 MB, at least the requested memory and less
-- than 4096 MB above it; a request that is such a multiple already stays as it is.
pub resources_large :
    {W F : Type 0} (st : Stage W F) (cfg : PipelineConfig)
    → 8 ≤ (resources st cfg).vcpu
    → ((resources st cfg).mem % 4096 ≡ 0)
      × (or_else st.mem cfg.default_mem ≤ (resources st cfg).mem)
      × ((resources st cfg).mem < or_else st.mem cfg.default_mem + 4096)
unfolding resources
resources_large st cfg h =
    let mem = or_else st.mem cfg.default_mem in
    let bounds = round_up_bounds mem in (ground arith, ground arith, ground arith)
