-- ===== src/Cli.antt =====
-- gleanflow/cli.py: the command line behind `argparse`, which gives the options. Python's `int` and
-- `float` on texts are parameters, `none` where they raise a ValueError.
pub mod Pairs
use Prim.Native.String.{◌++◌ as append}
use gleanflow.Prelude.{
  ℕ, zero, suc, ◌+◌, ◌-◌, String, Option, none, some, Bool, true, false, not, List, [], ◌∷◌, map,
  length, if◌then◌else◌, ◌==◌,
}
use gleanflow.Prelude.Dict.{Dict, put, setdefault}
use gleanflow.Decimal
use gleanflow.Json.{Json, int, float, str, object, ◌>>=◌}
use gleanflow.Stage.{Stage}
use gleanflow.Pipeline.{Pipeline, topo_order}
use gleanflow.Store.{Store, list_keys}
use gleanflow.Text.{size}
use gleanflow.Tracker.Snapshot.{StageView}

-- `s.partition(sep)` on a separator of one character: what stands before the first and behind it;
-- `none` where there is none
unfoldable pub found : String → Option (String × String) → Option (String × String)
found one none = none
found one (some (before, behind)) = some (append one before, behind)

unfoldable pub split_at : String → String → Option (String × String)
split_at sep String.[] = none
split_at sep (String.◌∷◌ c s) =
    let one = String.◌∷◌ c "" in
    let rest = found one (split_at sep s) in if one == sep then some ("", s) else rest

-- `_load`: the module and the attribute of `pkg.mod:attr`, `pipe` where none is named
unfoldable pub attr_or_pipe : String → String
attr_or_pipe attr = if attr == "" then "pipe" else attr

unfoldable pub spec_parts : String → Option (String × String) → String × String
spec_parts spec none = (spec, "pipe")
spec_parts spec (some (name, attr)) = (name, attr_or_pipe attr)

unfoldable pub parse_spec : String → String × String
parse_spec spec = spec_parts spec (split_at ":" spec)

-- `extra` with the defaults that `_load` sets
unfoldable pub loaded_extra : String → String → Dict String → Dict String
loaded_extra spec package_dir extra =
    setdefault "package_dir" package_dir (setdefault "pipeline_spec" spec extra)

module _ {W : Type 0} (to_int : String → Option (Json W)) (to_float : String → Option W) where
  unfoldable pub float_or_text : String → Option W → Json W
  float_or_text v none = str v
  float_or_text v (some x) = float x

  unfoldable pub int_or_more : String → Option (Json W) → Json W
  int_or_more v none = float_or_text v (to_float v)
  int_or_more v (some n) = n

  -- `_coerce`
  unfoldable pub coerce : String → Json W
  coerce v = int_or_more v (to_int v)

  -- `_kv`; what has no `=` is left out.
  unfoldable pub put_pair : Option (String × String) → Dict (Json W) → Dict (Json W)
  put_pair none out = out
  put_pair (some (k, v)) out = put k (coerce v) out

  unfoldable pub kv_from : Dict (Json W) → List String → Dict (Json W)
  kv_from out [] = out
  kv_from out (p ∷ ps) = kv_from (put_pair (split_at "=" p) out) ps

  unfoldable pub kv : List String → Dict (Json W)
  kv pairs = kv_from [] pairs

  -- The options of `gleanflow run`, and what `pipe.run` is called with.
  pub record RunArgs : Type 0 where
    pub spec : String
    pub backend : String
    pub workers : Option ℕ
    pub viz : Bool
    pub force : Bool
    pub no_smoke : Bool
    pub args : List String

  pub record RunCall : Type 0 where
    pub backend : String
    pub workers : Option ℕ
    pub viz : Bool
    pub force : Bool
    pub smoke : Bool
    pub run_args : Dict (Json W)

  unfoldable pub run_call : RunArgs → RunCall
  run_call a = record {
    backend = a.backend;
    workers = a.workers;
    viz = a.viz;
    force = a.force;
    smoke = not a.no_smoke;
    run_args = kv a.args;
  }

-- `f"{s:24s}"`
unfoldable pub spaces : ℕ → String
spaces zero = ""
spaces (suc n) = append " " (spaces n)

unfoldable pub pad : ℕ → String → String
pad n s = append s (spaces (n - size s))

module _ {W F : Type 0} where
  -- `gleanflow status`
  unfoldable pub status_line : Store W → Stage W F → String
  status_line store st =
      let done = length (list_keys (append "results/" (append st.name "/")) store) in
      append (pad 24 st.name) (append " " (append (Decimal.str done) " chunks done"))

  unfoldable pub status : Store W → Pipeline W F → ℕ → Option (List String)
  status store pipe limit = do order ← topo_order pipe limit; some (map (status_line store) order)

module _ {W : Type 0} where
  -- What `gleanflow run` prints: the counts of each stage.
  unfoldable pub counts_json : StageView W → String × Json W
  counts_json v = (v.name, object (map (λ (e : String × ℕ). (e.0, int e.1)) v.counts))

  unfoldable pub printed_counts : List (StageView W) → Json W
  printed_counts views = object (map counts_json views)
