-- ===== src/Store/Local.antt =====
-- gleanflow/store.py: `LocalStore`, on the files below its root. A file's path is relative to the
-- root, as `_p` joins the two. A directory is there when a file below it is: `makedirs` is only
-- called before a file is written. Keys that are not plain paths are left out: the file system reads
-- `a//b` as `a/b`, and an absolute key leaves the root.
pub mod Laws
pub mod Listed
use Prim.Native.String.{◌++◌ as append}
use text.Mathlib.TextLemmas.{append_cancel_left}
use gleanflow.Prelude.{
  String, Option, none, some, Bool, true, false, not, ◌&&◌, ◌||◌, List, [], ◌∷◌, map, filter, In,
  ◌==◌, if◌then◌else◌, ◌≡◌, refl, sym, ap, ◌∙◌, arith, eq_iff, Bool-cases, inl, inr, ◌↔◌,
}
use gleanflow.Prelude.Dict.{Dict, get, has, put, remove, keys, get-put, get-remove, has-eq-get}
use gleanflow.Json.{◌>>=◌}
use gleanflow.Text.{add_to_head, code_at, starts_with, is_in, ends_with, ends_with-append}
use gleanflow.Store.Interface.{StoreOps, IsStore}
use gleanflow.Store.Listing.{sorted_by, IsSorted, sorted_by-IsSorted, sorted_by-In}

-- `p + ".part"`
unfoldable pub part_path : String → String
part_path p = append p ".part"

-- `os.path.dirname`
unfoldable pub dirname : String → String
dirname String.[] = ""
dirname (String.◌∷◌ c s) = let rest = dirname s in if is_in "/" s then String.◌∷◌ c rest else ""

-- Whether a path lies below a directory; the root is "".
unfoldable pub below : String → String → Bool
below d p = if d == "" || ends_with "/" d then starts_with d p else starts_with (append d "/") p

-- Whether the path `p` lies below the file or directory `d`, which is not the root.
unfoldable pub above : String → String → Bool
above d p = starts_with (append d "/") p

-- The components of a path, and whether all are names.
unfoldable pub components : String → List String
components String.[] = "" ∷ []
components (String.◌∷◌ c s) =
    let rest = components s in if String.◌∷◌ c "" == "/" then "" ∷ rest else add_to_head c rest

unfoldable pub all_names : List String → Bool
all_names [] = true
all_names (c ∷ cs) = not (c == "" || c == "." || c == "..") && all_names cs

unfoldable pub is_plain : String → Bool
is_plain key = all_names (components key)

-- The tests of `list` on a file that `os.walk` gives below `dir`.
unfoldable pub listed : String → String → String → Bool
listed prefix dir rel = below dir rel && (starts_with prefix rel && not (ends_with ".part" rel))

module _ {B : Type 0} where
  -- `os.replace(tmp, p)`, where `tmp` is there
  unfoldable pub moved : String → String → Dict B → Option B → Dict B
  moved tmp p fs none = fs
  moved tmp p fs (some b) = put p b (remove tmp fs)

  unfoldable pub replace : String → String → Dict B → Dict B
  replace tmp p fs = moved tmp p fs (get tmp fs)

  -- A file lies below the directory `d`, or `p` lies below a file.
  unfoldable pub has_below : String → Dict B → Bool
  has_below d [] = false
  has_below d ((p, b) ∷ fs) = above d p || has_below d fs

  unfoldable pub has_above : String → Dict B → Bool
  has_above p [] = false
  has_above p ((d, b) ∷ fs) = above d p || has_above p fs

  -- What makes `makedirs` raise, `open` and `os.replace`, in this order.
  unfoldable pub is_blocked : String → Dict B → Bool
  is_blocked key fs = has_above key fs || has_below (part_path key) fs || has_below key fs

  -- `put_bytes`: the temporary file is written and then renamed. `none` stands for the exception where a
  -- file stands in the place of a directory or a directory in that of a file, and for a key that is left
  -- out.
  unfoldable pub put_file_bytes : String → B → Dict B → Option (Dict B)
  put_file_bytes key b fs =
      if is_plain key && not (is_blocked key fs)
      then some (replace (part_path key) key (put (part_path key) b fs))
      else none

  unfoldable pub is_dir : String → Dict B → Bool
  is_dir d [] = d == ""
  is_dir d ((p, b) ∷ fs) = below d p || is_dir d fs

  unfoldable pub path_exists : String → Dict B → Bool
  path_exists key fs = has key fs || is_dir key fs

  unfoldable pub local_store : StoreOps (Dict B) B
  local_store = record { put_bytes = put_file_bytes; get_bytes = get; exists = path_exists }

  -- The directory that `list` walks.
  unfoldable pub walked : String → Dict B → String
  walked prefix fs = if is_dir prefix fs then prefix else dirname prefix

  unfoldable pub list_files : String → Dict B → List String
  list_files prefix fs = sorted_by (λ s. s) (filter (listed prefix (walked prefix fs)) (keys fs))

  -- `get_file` without a `local_path`, and with one, on the files of a disk: `none` where `copyfile`
  -- raises.
  unfoldable pub get_file_at : String → String → Dict B → Dict B → Option (Dict B)
  get_file_at key local_path fs disk =
      if has local_path disk then some disk else (do b ← get key fs; some (put local_path b disk))
