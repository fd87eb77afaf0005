-- ===== src/Pipeline.antt =====
-- gleanflow/pipeline.py: the DAG of stages and its order.
pub mod Topo
pub mod Order
pub mod Source
use gleanflow.Prelude.{
  ℕ, zero, suc, String, Option, none, some, Bool, true, false, not, ◌&&◌, ◌||◌, List, [], ◌∷◌, ◌++◌,
  ◌==◌, if◌then◌else◌,
}
use gleanflow.Prelude.Dict.{Dict, get, has, put, values}
use gleanflow.Json.{◌>>=◌}
use gleanflow.Stage.{Stage, upstream_name}

pub record Pipeline (W F : Type 0) : Type 0 where
  pub name : String
  pub stages : Dict (Stage W F)

-- `k in seen`
unfoldable pub contains : String → List String → Bool
contains k [] = false
contains k (j ∷ js) = j == k || contains k js

-- The variables of `topo_order`; `none` stands for the RecursionError of a `visit` too deep.
pub record Visited (W F : Type 0) : Type 0 where
  pub seen : List String
  pub order : List (Stage W F)

module _ {W F : Type 0} where
  -- `@pipe.stage(...)`
  unfoldable pub register : Stage W F → Pipeline W F → Pipeline W F
  register st pipe = record pipe { stages = put st.name st pipe.stages }

  -- The stage that `st` reads, where `up and up in self.stages`.
  unfoldable pub upstream_stage : Pipeline W F → Stage W F → Option (Stage W F)
  upstream_stage pipe st = do up ← upstream_name st; if up == "" then none else get up pipe.stages

  unfoldable pub mark : Stage W F → Visited W F → Visited W F
  mark st s = record { seen = st.name ∷ s.seen; order = s.order ++ st ∷ [] }

  unfoldable pub visit : Pipeline W F → ℕ → Stage W F → Visited W F → Option (Visited W F)
  visit pipe zero st s = none
  visit pipe (suc limit) st s =
      let deeper = λ (up : Stage W F). visit pipe limit up s in
      let visited : Option (Visited W F) = elim (upstream_stage pipe st) [
        | none ↦ some s
        | some up ↦ deeper up
      ] in
      let marked = visited >>= λ s'. some (mark st s') in
      if contains st.name s.seen then some s else marked

  unfoldable pub visit_all :
      Pipeline W F → ℕ → List (Stage W F) → Visited W F → Option (Visited W F)
  visit_all pipe limit [] s = some s
  visit_all pipe limit (st ∷ sts) s = do s' ← visit pipe limit st s; visit_all pipe limit sts s'

  unfoldable pub topo_order : Pipeline W F → ℕ → Option (List (Stage W F))
  topo_order pipe limit = do
    s ← visit_all pipe limit (values pipe.stages) (record { seen = []; order = [] })
    some s.order

  unfoldable pub deps_of : Pipeline W F → Stage W F → List String
  deps_of pipe st = elim (upstream_name st) [
    | none ↦ []
    | some up ↦ if not (up == "") && has up pipe.stages then up ∷ [] else []
  ]
