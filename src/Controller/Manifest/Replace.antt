-- ===== src/Controller/Manifest/Replace.antt =====
-- `_manifest_replace` of controller.py on the chunks that the downstream stage reads.
use gleanflow.Prelude.{
  ◌≡◌, refl, sym, ap, ◌∙◌, String, some, not, List, [], ◌∷◌, ◌++◌, map, filter, ◌==◌, eq_refl,
  Bool-cases, inl, inr, if◌then◌else◌,
}
use gleanflow.Prelude.Dict.{Dict, get-put, put}
use gleanflow.Float.{FloatOps}
use gleanflow.Json.{
  Json, array, object, as_dict, as_dict-object, as_str, as_list, as_list-array, as_float, required,
  optional,
}
use gleanflow.Store.{Store, get_bytes}
use gleanflow.Partition.{Chunk, from_dict}
use gleanflow.Controller.Manifest.{
  manifest_key, entry_of, read_chunks, read_manifest, without, manifest_replace,
}
use gleanflow.Controller.Manifest.Laws.{published, read_chunks-entries}
use gleanflow.Controller.Steps.{bind_some, some_inj}

module _ {W : Type 0} ⦃f : FloatOps W⦄ where
  from_dict_id :
      (j : Json W) (c : Chunk W)
      → from_dict j ≡ some c
      → (d : Dict (Json W)) × (as_dict j ≡ some d) × (required as_str "id" d ≡ some c.id)
  unfolding from_dict
  from_dict_id j c e =
      let (d, is_dict, e1) = bind_some (as_dict j) _ c e in
      let (id, has_id, e2) = bind_some (required as_str "id" d) _ c e1 in
      let (params, _, e3) = bind_some (optional as_dict "params" [] d) _ c e2 in
      let (weight, _, e4) = bind_some (optional as_float "weight" f.fone d) _ c e3 in
      (d, is_dict, has_id ∙ ap (λ c. some c.id) (some_inj e4))

  abbrev pub kept : String → List (Chunk W) → List (Chunk W)
  kept old_id = filter (λ c. not (c.id == old_id))

  without_lem :
      (old_id : String) (js : List (Json W)) (cs : List (Chunk W))
      → read_chunks js ≡ some cs
      → (js' : List (Json W)) × (without old_id js ≡ some js')
        × (read_chunks js' ≡ some (kept old_id cs))
  unfolding without read_chunks
  without_lem old_id [] cs e = ([], refl, ap (λ cs. some (kept old_id cs)) (some_inj e))
  without_lem old_id (j ∷ js) cs e =
      let (c, one, e1) = bind_some (from_dict j) _ cs e in
      let (rest, more, e2) = bind_some (read_chunks js) _ cs e1 in
      let (d, is_dict, has_id) = from_dict_id j c one in
      let (js', done, reads) = without_lem old_id js rest more in
      let shape : c ∷ rest ≡ cs = some_inj e2 in
      elim (Bool-cases (c.id == old_id)) [
        | inl old ↦ (js', rw (is_dict, has_id, done, old), reads ∙ rw (sym shape, old))
        | inr other ↦
            (j ∷ js', rw (is_dict, has_id, done, other), rw (one, reads, sym shape, other))
      ]

  read_chunks-append :
      (xs ys : List (Json W)) (cs ds : List (Chunk W))
      → read_chunks xs ≡ some cs
      → read_chunks ys ≡ some ds
      → read_chunks (xs ++ ys) ≡ some (cs ++ ds)
  unfolding read_chunks
  read_chunks-append [] ys cs ds e h = h ∙ ap (λ xs. some (xs ++ ds)) (some_inj e)
  read_chunks-append (x ∷ xs) ys cs ds e h =
      let (c, one, e1) = bind_some (from_dict x) _ cs e in
      let (rest, more, e2) = bind_some (read_chunks xs) _ cs e1 in
      rw (one, read_chunks-append xs ys rest ds more h) (ap (λ xs. some (xs ++ ds)) (some_inj e2))

  read_manifest-put_entries :
      (name : String) (es : List (Json W)) (cs : List (Chunk W)) (m : Dict (Json W))
      (store : Store W)
      → read_chunks es ≡ some cs
      → read_manifest name (put (manifest_key name) (object (put "chunks" (array es) m)) store)
        ≡ some cs
  unfolding read_manifest
  read_manifest-put_entries name es cs m store h =
      rw (get-put, eq_refl, as_dict-object, get-put, as_list-array) h

  others_stay :
      (key k : String) (j : Json W) (store : Store W)
      → get_bytes k (put key j store)
        ≡ (if key == k then get_bytes key (put key j store) else get_bytes k store)
  others_stay key k j store = rw (get-put, get-put, eq_refl)

  -- Where a stage's manifest can be read, `_manifest_replace` succeeds, and what is then read is the
  -- chunks without those of the old id, followed by the new ones with their visible parameters; no
  -- other object of the store changes.
  pub manifest_replace_lem :
      (name old_id : String) (new cs : List (Chunk W)) (store : Store W)
      → read_manifest name store ≡ some cs
      → (store' : Store W) × (manifest_replace name old_id (map entry_of new) store ≡ some store')
        × (read_manifest name store' ≡ some (kept old_id cs ++ map published new))
        × ((k : String)
            → get_bytes k store' ≡ (
                if manifest_key name == k
                then get_bytes (manifest_key name) store'
                else get_bytes k store))
  unfolding read_manifest manifest_replace
  manifest_replace_lem name old_id new cs store h =
      let key = manifest_key name in
      let (j, stored, e1) = bind_some (get_bytes key store) _ cs h in
      let (m, is_dict, e2) = bind_some (as_dict j) _ cs e1 in
      let (entries, listed, reads) = bind_some (required as_list "chunks" m) _ cs e2 in
      let (js, left, reads') = without_lem old_id entries cs reads in
      let m' = put "chunks" (array (js ++ map entry_of new)) m in
      (
        put key (object m') store,
        rw (stored, is_dict, listed, left),
        read_manifest-put_entries name (js ++ map entry_of new)
            (kept old_id cs ++ map published new) m store
            (read_chunks-append js (map entry_of new) (kept old_id cs) (map published new) reads'
              (read_chunks-entries new)),
        λ k. others_stay key k (object m') store,
      )
