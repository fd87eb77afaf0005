-- ===== src/Polars/Tasks.antt =====
-- gleanflow/polars.py: what the generated stages do in a task. The bytes of a frame in parquet are
-- Polars' matter: `to_parquet` and `read_parquet` are parameters.
use Prim.Native.String.{◌++◌ as append}
use gleanflow.Prelude.{String, Option, some, List, [], ◌∷◌, ◌++◌, if◌then◌else◌}
use gleanflow.Prelude.Dict.{Dict}
use gleanflow.Json.{Json, as_str, required, ◌>>=◌}
use gleanflow.Text.{ends_with}
use gleanflow.Store.{Store, get_bytes, list_keys}
use gleanflow.Context.{Record, Ctx, data_prefix, info_of, members, members_in, write_bytes}
use gleanflow.Polars.{Polars, concat_partials}

module _ (pl : Polars) {W : Type 0} where
  -- `m["path"]` of each member
  unfoldable pub paths_of : List (Record W) → Option (List String)
  paths_of [] = some []
  paths_of (m ∷ ms) = do p ← required as_str "path" m; ps ← paths_of ms; some (p ∷ ps)

  unfoldable pub scan_source : Ctx W → Option pl.Frame
  scan_source ctx = do ms ← members ctx; ps ← paths_of ms; some (pl.scan_parquet ps)

  module _ (read_parquet : Json W → Option pl.Frame) where
    -- The frames of the keys that end in `.parquet`.
    unfoldable pub read_keys : Store W → List String → Option (List pl.Frame)
    read_keys store [] = some []
    read_keys store (k ∷ ks) =
        let rest = read_keys store ks in
        let frames = (do b ← get_bytes k store; f ← read_parquet b; fs ← rest; some (f ∷ fs)) in
        if ends_with ".parquet" k then frames else rest

    unfoldable pub read_member_frames :
        Store W → String → List (Dict (Json W)) → Option (List pl.Frame)
    read_member_frames store name [] = some []
    read_member_frames store name (m ∷ ms) = do
      id ← required as_str "id" m
      fs ← read_keys store (list_keys (append (data_prefix name id) "/") store)
      rest ← read_member_frames store name ms
      some (fs ++ rest)

    -- The frames upstream; `info['name']` is only read where there are members.
    unfoldable pub read_upstream :
        Store W → Dict (Json W) → List (Dict (Json W)) → Option (List pl.Frame)
    read_upstream store info [] = some []
    read_upstream store info (m ∷ ms) = do
      name ← required as_str "name" info
      read_member_frames store name (m ∷ ms)

    unfoldable pub read_partials : Ctx W → Option pl.Frame
    read_partials ctx = do
      info ← info_of ctx.params
      ms ← members_in info
      fs ← read_upstream ctx.store info ms
      some (concat_partials pl fs)

  module _ (to_parquet : pl.Frame → Json W) where
    unfoldable pub write_frame : pl.Frame → Ctx W → Option (Ctx W)
    write_frame df ctx = do r ← write_bytes "part-00000.parquet" (to_parquet df) ctx; some r.0

    -- `_map` and `_reduce` of `map_reduce`, for functions on frames.
    unfoldable pub map_task : (pl.Frame → pl.Frame) → Ctx W → Option (Ctx W)
    map_task f ctx = do lf ← scan_source ctx; write_frame (f lf) ctx

    unfoldable pub reduce_task :
        (Json W → Option pl.Frame) → (pl.Frame → pl.Frame) → Ctx W → Option (Ctx W)
    reduce_task read_parquet g ctx = do df ← read_partials read_parquet ctx; write_frame (g df) ctx
