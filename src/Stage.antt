-- ===== src/Stage.antt =====
-- gleanflow/stage.py: the captured description of a stage. `fn` and the `partition` hook are user
-- code: `F` is the type of `fn`, and a hook may raise.
pub mod Memory
use gleanflow.Prelude.{
  ℕ, zero, suc, ◌+◌, ◌*◌, ◌/◌, ◌%◌, String, Option, none, some, Bool, not, ◌&&◌, List, leb, nat_beq,
  if◌then◌else◌,
}
use gleanflow.Config.{PipelineConfig, or_else}
use gleanflow.Partition.{Chunk}

pub data Kind : Type 0 where
  source stage : Kind

-- What a stage reads: an upstream `Stage` or `Source`, by its name and kind.
pub record Upstream : Type 0 where
  pub name : String
  pub kind : Kind

pub record Stage (W F : Type 0) : Type 0 where
  pub name : String
  pub fn : F
  pub reads : Option Upstream
  pub chunk_by : Option String
  pub target_rows : Option ℕ
  pub target_bytes : Option ℕ
  pub partition : Option (List (Chunk W) → Option (List (Chunk W)))
  pub vcpu : Option ℕ
  pub mem : Option ℕ
  pub omp : Option ℕ
  pub retries : ℕ
  pub checkpoint : Bool
  pub cap_rows : ℕ

pub record Resources : Type 0 where
  pub vcpu : ℕ
  pub mem : ℕ
  pub omp : ℕ

-- `((n + 4095) // 4096) * 4096`
unfoldable pub round_up : ℕ → ℕ
round_up n = (n + 4095) / 4096 * 4096

module _ {W F : Type 0} where
  unfoldable pub upstream_name : Stage W F → Option String
  upstream_name st = elim st.reads [ none ↦ none | some up ↦ some up.name ]

  unfoldable pub resources : Stage W F → PipelineConfig → Resources
  resources st cfg =
      let vcpu = or_else st.vcpu cfg.default_vcpu in
      let mem = or_else st.mem cfg.default_mem in
      let rounded = if leb 8 vcpu && not (nat_beq (mem % 4096) 0) then round_up mem else mem in
      record { vcpu = vcpu; mem = rounded; omp = or_else st.omp vcpu }
