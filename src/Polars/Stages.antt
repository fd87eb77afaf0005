-- ===== src/Polars/Stages.antt =====
-- gleanflow/polars.py: the source and the stages that it registers.
use Prim.Native.String.{◌++◌ as append}
use gleanflow.Prelude.{ℕ, ◌+◌, String, Option, none, some, List, [], ◌∷◌}
use gleanflow.Prelude.Dict.{get_or}
use gleanflow.Decimal
use gleanflow.Float.{FloatOps}
use gleanflow.Json.{str, ◌>>=◌}
use gleanflow.Partition.{Chunk}
use gleanflow.Stage.{Stage, Upstream, stage}
use gleanflow.Pipeline.{Pipeline, register}

module _ {W : Type 0} ⦃f : FloatOps W⦄ where
  -- The chunk of the file `p` of number `i`.
  unfoldable pub file_chunk : ℕ → String → W → Chunk W
  file_chunk i p w = record {
    id = append "f" (Decimal.str i);
    params = ("path", str p) ∷ [];
    weight = w;
  }

  -- The chunks of `parquet_source` without `weights`: `size` is `os.path.getsize`, `none` where it
  -- raises.
  unfoldable pub sized_files : (String → Option W) → ℕ → List String → List (Chunk W)
  sized_files size i [] = []
  sized_files size i (p ∷ paths) =
      file_chunk i p (get_or f.fone (size p)) ∷ sized_files size (i + 1) paths

  -- With `weights`: `none` stands for the IndexError of a list too short.
  unfoldable pub weighted_files : ℕ → List String → List W → Option (List (Chunk W))
  weighted_files i [] ws = some []
  weighted_files i (p ∷ paths) [] = none
  weighted_files i (p ∷ paths) (w ∷ ws) = do
    rest ← weighted_files (i + 1) paths ws
    some (file_chunk i p w ∷ rest)

  unfoldable pub parquet_source :
      (String → Option W) → List String → Option (List W) → Option (List (Chunk W))
  parquet_source size paths none = some (sized_files size 0 paths)
  parquet_source size paths (some ws) = weighted_files 0 paths ws

module _ {W F : Type 0} where
  -- `map_reduce`: `map_kw` is a stage with the keyword arguments of the map stage, `plain` one with
  -- the defaults. The functions of the stages are `map_fn` and `reduce_fn`.
  unfoldable pub map_stage_of : Stage W F → String → Upstream → F → Stage W F
  map_stage_of map_kw name source map_fn = record map_kw {
    name = name;
    fn = map_fn;
    reads = some source;
  }

  unfoldable pub reduce_stage_of : Stage W F → String → F → Stage W F
  reduce_stage_of plain name reduce_fn = record plain {
    name = append name "_reduce";
    fn = reduce_fn;
    reads = some (record { name = name; kind = stage });
    target_rows = some 1000000000000000;
  }

  unfoldable pub map_reduce :
      Stage W F → Stage W F → String → Upstream → F → F → Pipeline W F → Pipeline W F × Stage W F
  map_reduce map_kw plain name source map_fn reduce_fn pipe =
      let reduce_stage = reduce_stage_of plain name reduce_fn in
      (register reduce_stage (register (map_stage_of map_kw name source map_fn) pipe), reduce_stage)
