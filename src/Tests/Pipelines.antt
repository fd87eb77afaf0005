-- ===== src/Tests/Pipelines.antt =====
-- A pipeline of two stages in which the later one is declared first, and a stage's resources.
use gleanflow.Prelude.{
  ℕ, ◌≤◌, ◌<◌, ◌≡◌, String, none, some, true, false, List, [], ◌∷◌, All, IsUnique, ◌==◌,
  if◌then◌else◌, arith,
}
use gleanflow.Prelude.Dict.{values, get}
use gleanflow.Config.{default_config}
use gleanflow.Stage.{stage, Stage, resources, upstream_name}
use gleanflow.Pipeline.{Pipeline, contains, topo_order, upstream_stage}
use gleanflow.Pipeline.Topo.{names, IsTopo}
use gleanflow.Pipeline.Order.{IsRanked, topo_order_sorts}

abbrev load : Stage ℕ ℕ
load = record {
  name = "load";
  fn = 0;
  reads = none;
  chunk_by = none;
  target_rows = none;
  target_bytes = none;
  partition = none;
  vcpu = some 8;
  mem = some 10000;
  omp = none;
  retries = 2;
  checkpoint = false;
  cap_rows = 1000;
}

abbrev fit : Stage ℕ ℕ
fit = record load { name = "fit"; reads = some (record { name = "load"; kind = stage }) }

abbrev two_stages : Pipeline ℕ ℕ
two_stages = record { name = "p"; stages = ("fit", fit) ∷ ("load", load) ∷ [] }

abbrev rank : String → ℕ
rank k = if k == "fit" then 1 else 0

ranked : IsRanked two_stages rank
unfolding upstream_stage upstream_name get
ranked = (omega arith, (tt, tt))

below_limit : All (λ st. rank st.name < 1000) (values two_stages.stages)
below_limit = (omega arith, (omega arith, tt))

topo_order_sorts_example :
    (order : List (Stage ℕ ℕ)) × (topo_order two_stages 1000 ≡ some order)
    × IsTopo two_stages [] order
    × IsUnique (names order)
    × All (λ st. contains st.name (names order) ≡ true) (values two_stages.stages)
topo_order_sorts_example = topo_order_sorts two_stages rank ranked 1000 below_limit

eight_vcpu : 8 ≤ (resources load default_config).vcpu
unfolding resources
eight_vcpu = omega arith
