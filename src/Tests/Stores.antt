-- ===== src/Tests/Stores.antt =====
-- A local store, and a listing on two pages.
use gleanflow.Prelude.{
  ℕ, String, none, some, true, false, List, [], ◌∷◌, ◌≡◌, refl, ◌⊎◌, inl, inr, arith,
}
use gleanflow.Prelude.Dict.{Dict}
use gleanflow.Text.{starts_with, add_to_head}
use gleanflow.Store.Local.{
  put_file_bytes, is_plain, components, all_names, is_blocked, has_above, has_below, above,
  part_path,
}
use gleanflow.Store.S3.{S3Ops, Serves, object_key, list, list-Serves}

abbrev puts : List (String × ℕ)
puts = ("data/a", 1) ∷ ("data/b", 2) ∷ ("data/a", 3) ∷ []

-- Keys that fit together.
abbrev Ours : String → Type 0
Ours k = (k ≡ "data/a") ⊎ (k ≡ "data/b")

-- A file is in the way of a directory, and a directory in that of a file.
file_in_the_way : put_file_bytes {B = ℕ} "data/a/b" 1 (("data/a", 0) ∷ []) ≡ none
unfolding put_file_bytes is_plain components all_names add_to_head is_blocked has_above has_below
    above starts_with part_path
file_in_the_way = refl

directory_in_the_way : put_file_bytes {B = ℕ} "data/a" 1 (("data/a/b", 0) ∷ []) ≡ none
unfolding put_file_bytes is_plain components all_names add_to_head is_blocked has_above has_below
    above starts_with part_path
directory_in_the_way = refl

abbrev files : Dict ℕ
files = ("data/b", 2) ∷ ("other/c", 4) ∷ ("data/a", 3) ∷ ("data/a.part", 5) ∷ []

-- A bucket whose listing has two pages.
abbrev two_pages : S3Ops Unit ℕ
two_pages = record {
  put_object = λ k b s. s;
  get_object = λ k s. none;
  head_object = λ k s. false;
  list_objects_v2 = λ base token s. elim token [
    | none ↦ record {
      contents = "run/data/a" ∷ "run/data/b" ∷ [];
      truncated = true;
      next = some "t";
    }
    | some t ↦ record { contents = "run/data/c" ∷ []; truncated = false; next = none }
  ];
}

list-Serves_example : list two_pages "run" 5 "data/" tt ≡ some ("data/a" ∷ "data/b" ∷ "data/c" ∷ [])
unfolding Serves object_key
list-Serves_example =
    list-Serves two_pages "run" "data/" 2 5 ("data/a" ∷ "data/b" ∷ "data/c" ∷ []) tt
      (inr ("t", "run/data/c" ∷ [], refl, refl, refl, refl, inl (refl, refl))) (omega arith)
