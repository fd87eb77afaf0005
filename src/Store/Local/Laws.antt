-- ===== src/Store/Local/Laws.antt =====
-- gleanflow/store.py: `LocalStore` against the mapping from keys to objects.
use gleanflow.Prelude.{
  String, some, false, not, ◌&&◌, sym, ◌==◌, if◌then◌else◌, ◌≡◌, refl, ap, ◌∙◌, eq_iff, eq_refl,
  Bool-cases, inl, inr,
}
use gleanflow.Prelude.Dict.{Dict, get, put, remove, get-put, get-remove, has-eq-get}
use gleanflow.Controller.Steps.{some_inj}
use gleanflow.Text.{ends_with, ends_with-append}
use gleanflow.Store.Interface.{IsStore}
use gleanflow.Store.Local.{
  part_path, above, is_plain, is_blocked, replace, moved, put_file_bytes, path_exists, local_store,
}

-- The keys of objects, which are not temporary files.
unfoldable pub Key : String → Type 0
Key k = ends_with ".part" k ≡ false

part_path-Key : (k j : String) → Key j → (part_path k == j) ≡ false
unfolding Key part_path
part_path-Key k j h = elim (Bool-cases (part_path k == j)) [
  | inl same ↦
      let e : part_path k ≡ j = (eq_iff (part_path k) j).0 same in
      let h' : ends_with ".part" (part_path k) ≡ false = rw e h in
      let h'' = ends_with-append k ".part" in cc
  | inr other ↦ other
]

-- Neither the file of `j` nor its temporary file stands where the path `k` has a directory.
abbrev pub Apart : String → String → Type 0
Apart j k = (above j k ≡ false) × (above (part_path j) k ≡ false)

module _ {B : Type 0} where
  written :
      (k : String) (b : B) (fs : Dict B)
      → replace (part_path k) k (put (part_path k) b fs)
        ≡ put k b (remove (part_path k) (put (part_path k) b fs))
  unfolding replace moved
  written k b fs =
      let tmp = part_path k in
      let there : get tmp (put tmp b fs) ≡ some b = get-put tmp tmp b fs ∙ rw (eq_refl tmp) refl in
      ap (moved tmp k (put tmp b fs)) there

  get-put_file_bytes :
      (k j : String) (b : B) (fs fs' : Dict B)
      → Key j
      → put_file_bytes k b fs ≡ some fs'
      → get j fs' ≡ (if k == j then some b else get j fs)
  unfolding put_file_bytes
  get-put_file_bytes k j b fs fs' h e = elim (Bool-cases (is_plain k && not (is_blocked k fs))) [
    | inl goes ↦
        let other = part_path-Key k j h in
        let same : replace (part_path k) k (put (part_path k) b fs) ≡ fs' =
          some_inj (rw goes at e) in
        ap (get j) (sym same) ∙ rw (written k b fs, get-put, get-remove, get-put, other) refl
    | inr raises ↦ absurd (cc (rw raises at e))
  ]

  pub local_store-IsStore : IsStore Key (local_store {B = B})
  unfolding local_store path_exists
  local_store-IsStore = record {
    get_put = λ k j b s s' hk hj e. get-put_file_bytes k j b s s' hj e;
    exists_get = λ k fs b h. rw (has-eq-get, h) refl;
  }
