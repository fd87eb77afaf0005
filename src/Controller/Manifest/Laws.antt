-- ===== src/Controller/Manifest/Laws.antt =====
-- A manifest of controller.py as the downstream stage reads it.
use gleanflow.Prelude.{◌≡◌, refl, String, some, List, [], ◌∷◌, map, eq_refl}
use gleanflow.Prelude.Dict.{get, get-put, put}
use gleanflow.Float.{FloatOps}
use gleanflow.Json.{as_dict-object, as_list-array}
use gleanflow.Store.{Store}
use gleanflow.Partition.{Chunk, from_dict}
use gleanflow.Controller.Manifest.{
  manifest_key, visible, entry_of, manifest_of, read_chunks, read_manifest,
}

module _ {W : Type 0} where
  -- A chunk as its manifest entry gives it: without the hidden parameters.
  abbrev pub published : Chunk W → Chunk W
  published c = record c { params = visible c.params }

module _ {W : Type 0} ⦃f : FloatOps W⦄ where
  from_dict-entry_of : (c : Chunk W) → from_dict (entry_of c) ≡ some (published c)
  unfolding from_dict entry_of get
  from_dict-entry_of c = rw (as_dict-object, as_dict-object) refl

  pub read_chunks-entries :
      (cs : List (Chunk W)) → read_chunks (map entry_of cs) ≡ some (map published cs)
  unfolding read_chunks
  read_chunks-entries [] = refl
  read_chunks-entries (c ∷ cs) = rw (from_dict-entry_of, read_chunks-entries cs)

  -- A manifest that was put in the store is read back as the published chunks.
  pub read_manifest-put :
      (name : String) (cs : List (Chunk W)) (store : Store W)
      → read_manifest name (put (manifest_key name) (manifest_of (map entry_of cs)) store)
        ≡ some (map published cs)
  unfolding read_manifest manifest_of get
  read_manifest-put name cs store =
      rw (get-put, eq_refl, as_dict-object, as_list-array, read_chunks-entries)
