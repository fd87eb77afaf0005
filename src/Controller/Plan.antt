-- ===== src/Controller/Plan.antt =====
-- `_upstream_chunks` and `_plan` of controller.py. `enumerate` is what a source lists; it and the
-- stage's `partition` hook are user code, and may raise.
pub mod Handoff
use Prim.Native.String.{◌++◌ as append}
use gleanflow.Prelude.{
  ℕ, zero, suc, String, Option, none, some, Bool, true, false, not, List, [], ◌∷◌, map, filter,
  ◌==◌, if◌then◌else◌,
}
use gleanflow.Prelude.Dict.{Dict, get, get_or, put}
use gleanflow.Float.{FloatOps}
use gleanflow.Json.{Json, str, array, object, ◌>>=◌}
use gleanflow.Store.{Store, put_bytes}
use gleanflow.Task.{Task}
use gleanflow.Partition.{Chunk, one_to_one, pack}
use gleanflow.Stage.{Kind, source, stage, Upstream, Stage}
use gleanflow.Controller.Manifest.{manifest_key, entry_of, manifest_of, read_manifest}

-- `up.kind`
unfoldable pub kind_name : Kind → String
kind_name source = "source"
kind_name stage = "stage"

-- `target_rows or target_bytes`, if it is true
unfoldable pub target_of : Option ℕ → Option ℕ → Option ℕ
target_of (some (suc n)) bytes = some (suc n)
target_of _ (some (suc n)) = some (suc n)
target_of _ _ = none

-- `f"{stage.name}/{c.id}"`
unfoldable pub task_key : String → String → String
task_key name id = append name (append "/" id)

module _ {W : Type 0} where
  unfoldable pub with_input : Option Upstream → Json W → Dict (Json W) → Dict (Json W)
  with_input none members params = params
  with_input (some up) members params =
      put "_in"
        (object
          (("kind", str (kind_name up.kind)) ∷ ("name", str up.name) ∷ ("members", members) ∷ []))
        params

module _ {W : Type 0} ⦃f : FloatOps W⦄ where
  unfoldable pub chunks_of :
      (Upstream → Option (List (Chunk W))) → Store W → Upstream → Option (List (Chunk W))
  chunks_of enumerate store up = elim up.kind [
    | source ↦ enumerate up
    | stage ↦ read_manifest up.name store
  ]

  unfoldable pub sized_chunks : Option ℕ → List (Chunk W) → List (Chunk W)
  sized_chunks none members = one_to_one members
  sized_chunks (some target) members = pack members (f.of_int target) "c"

module _ {W F : Type 0} ⦃f : FloatOps W⦄ where
  unfoldable pub upstream_chunks :
      (Upstream → Option (List (Chunk W))) → Store W → Stage W F → Option (List (Chunk W))
  upstream_chunks enumerate store st = elim st.reads [
    | none ↦ some (record { id = "all"; params = []; weight = f.fone } ∷ [])
    | some up ↦ chunks_of enumerate store up
  ]

  unfoldable pub stage_chunks : Stage W F → List (Chunk W) → Option (List (Chunk W))
  stage_chunks st members = elim st.partition [
    | none ↦ some (sized_chunks (target_of st.target_rows st.target_bytes) members)
    | some hook ↦ hook members
  ]

  unfoldable pub task_for : Stage W F → Chunk W → Task W
  task_for st c =
      let params = filter (λ e. not (e.0 == "_members")) c.params in
      record {
        stage = st.name;
        key = task_key st.name c.id;
        params =
            with_input st.reads (get_or (array []) (get "_members" c.params))
              (put "_chunk_id" (str c.id) params);
        weight = c.weight;
        attempt = 0;
      }

  unfoldable pub plan :
      (Upstream → Option (List (Chunk W))) → Stage W F → Store W → Option (Store W × List (Task W))
  plan enumerate st store = do
    members ← upstream_chunks enumerate store st
    chunks ← stage_chunks st members
    some (
      put_bytes (manifest_key st.name) (manifest_of (map entry_of chunks)) store,
      map (task_for st) chunks,
    )
