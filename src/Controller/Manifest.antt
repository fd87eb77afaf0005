-- ===== src/Controller/Manifest.antt =====
-- The manifests of controller.py: what a stage tells its downstream about its chunks.
pub mod Laws
pub mod Replace
use Prim.Native.Char.{code}
use Prim.Native.String.{◌++◌ as append}
use gleanflow.Prelude.{
  ℕ, String, Option, none, some, Bool, true, false, not, List, [], ◌∷◌, ◌++◌, map, filter, nat_beq,
  ◌==◌, if◌then◌else◌,
}
use gleanflow.Prelude.Dict.{Dict, put}
use gleanflow.Float.{FloatOps}
use gleanflow.Text.{starts_with}
use gleanflow.Json.{Json, float, str, array, object, as_str, as_dict, as_list, required, ◌>>=◌}
use gleanflow.Store.{Store, put_bytes, get_bytes}
use gleanflow.Partition.{Chunk, from_dict}

-- `f"data/{name}/_manifest.json"`
unfoldable pub manifest_key : String → String
manifest_key name = append "data/" (append name "/_manifest.json")

module _ {W : Type 0} where
  -- `{k: v for k, v in params.items() if not k.startswith("_")}`
  unfoldable pub visible : Dict (Json W) → Dict (Json W)
  visible params = filter (λ e. not (starts_with "_" e.0)) params

  unfoldable pub entry_of : Chunk W → Json W
  entry_of c =
      object
        (("id", str c.id) ∷ ("params", object (visible c.params)) ∷ ("weight", float c.weight) ∷ [])

  unfoldable pub manifest_of : List (Json W) → Json W
  manifest_of entries = object (("chunks", array entries) ∷ [])

  -- `[Chunk.from_dict(c) for c in chunks]`
  unfoldable pub read_chunks : ⦃f : FloatOps W⦄ → List (Json W) → Option (List (Chunk W))
  read_chunks [] = some []
  read_chunks (j ∷ js) = do c ← from_dict j; cs ← read_chunks js; some (c ∷ cs)

  unfoldable pub read_manifest : ⦃f : FloatOps W⦄ → String → Store W → Option (List (Chunk W))
  read_manifest name store = do
    j ← get_bytes (manifest_key name) store
    d ← as_dict j
    entries ← required as_list "chunks" d
    read_chunks entries

  -- `[c for c in entries if c["id"] != old_id]`
  unfoldable pub without : String → List (Json W) → Option (List (Json W))
  without old_id [] = some []
  without old_id (j ∷ js) = do
    d ← as_dict j
    id ← required as_str "id" d
    rest ← without old_id js
    some (if id == old_id then rest else j ∷ rest)

  -- `_manifest_replace`
  unfoldable pub manifest_replace : String → String → List (Json W) → Store W → Option (Store W)
  manifest_replace name old_id new_entries store = do
    j ← get_bytes (manifest_key name) store
    m ← as_dict j
    entries ← required as_list "chunks" m
    kept ← without old_id entries
    some (
        put_bytes (manifest_key name) (object (put "chunks" (array (kept ++ new_entries)) m)) store)
