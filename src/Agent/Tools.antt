-- ===== src/Agent/Tools.antt =====
-- gleanflow/agent.py: the statistics on a stage's finished tasks that the failure agent reads from the
-- store's markers.
use Prim.Native.String.{◌++◌ as append}
use gleanflow.Prelude.{ℕ, ◌+◌, String, Option, none, some, ◌&&◌, List, [], ◌∷◌, if◌then◌else◌}
use gleanflow.Prelude.Dict.{Dict, get}
use gleanflow.Float.{FloatOps}
use gleanflow.Json.{Json, as_float, ◌>>=◌}
use gleanflow.Text.{ends_with, drop_chars, cut_end}
use gleanflow.Store.{Store, list_keys}
use gleanflow.Markers.{read_result}

-- `peer_stats`: how many results can be read, and the largest of their peaks.
pub record PeerStats (W : Type 0) : Type 0 where
  pub success : ℕ
  pub max_peak_mem_mb : Option W

module _ {W : Type 0} ⦃f : FloatOps W⦄ where
  -- `max(peaks)` takes the first of the largest.
  unfoldable pub larger : W → Option W → Option W
  larger x none = some x
  larger x (some best) = if f.lt x best then some best else some x

  -- `info.get("peak_mem_mb")`, where it is neither missing nor 0
  unfoldable pub peak_of : Dict (Json W) → Option W
  peak_of info = do
    x ← get "peak_mem_mb" info >>= as_float
    if f.le x f.fzero && f.le f.fzero x then none else some x

  unfoldable pub add_peer : Option (Dict (Json W)) → PeerStats W → PeerStats W
  add_peer none s = s
  add_peer (some info) s = record {
    success = s.success + 1;
    max_peak_mem_mb = elim (peak_of info) [
      | none ↦ s.max_peak_mem_mb
      | some x ↦ larger x s.max_peak_mem_mb
    ];
  }

  unfoldable pub count_peers : Store W → List String → PeerStats W
  count_peers store [] = record { success = 0; max_peak_mem_mb = none }
  count_peers store (k ∷ ks) =
      let rest = count_peers store ks in
      let info = read_result store (cut_end 5 (drop_chars 8 k)) in
      if ends_with ".json" k then add_peer info rest else rest

  unfoldable pub peer_stats : Store W → String → PeerStats W
  peer_stats store stage =
      count_peers store (list_keys (append "results/" (append stage "/")) store)
