-- ===== src/Store/Config.antt =====
-- gleanflow/store.py: which store a configuration names, and the copies of objects on a local disk.
use gleanflow.Prelude.{String, Option, none, some, ◌&&◌, ◌≡◌, refl, ◌==◌, if◌then◌else◌}
use gleanflow.Prelude.Dict.{Dict, has, put}
use gleanflow.Json.{◌>>=◌}
use gleanflow.Text.{starts_with, drop_chars}
use gleanflow.Config.{PipelineConfig, is_s3}
use gleanflow.Store.Interface.{StoreOps}
use gleanflow.Store.Local.{part_path, replace}

-- `s.partition("/")`, without the separator
unfoldable pub partition_slash : String → String × String
partition_slash String.[] = ("", "")
partition_slash (String.◌∷◌ c s) =
    let rest = partition_slash s in
    if String.◌∷◌ c "" == "/" then ("", s) else (String.◌∷◌ c rest.0, rest.1)

-- `s.rstrip("/")`
unfoldable pub rstrip_slash : String → String
rstrip_slash String.[] = ""
rstrip_slash (String.◌∷◌ c s) =
    let rest = rstrip_slash s in
    if rest == "" && String.◌∷◌ c "" == "/" then "" else String.◌∷◌ c rest

-- `none` stands for the failed assertion.
unfoldable pub split_s3 : String → Option (String × String)
split_s3 uri =
    let parts = partition_slash (drop_chars 5 uri) in
    if starts_with "s3://" uri then some (parts.0, rstrip_slash parts.1) else none

-- The root of a `LocalStore`, before `os.path.abspath`.
unfoldable pub local_root : String → String
local_root root = if starts_with "file://" root then drop_chars 7 root else root

-- An `S3Store` with its bucket and prefix, or a `LocalStore` with its root.
pub data AnyStore : Type 0 where
  s3_at : String → String → AnyStore
  local_at : String → AnyStore

unfoldable pub store_from_config : PipelineConfig → Option AnyStore
store_from_config cfg =
    let remote = (do p ← split_s3 cfg.s3_root; some (s3_at p.0 p.1)) in
    if is_s3 cfg then remote else some (local_at (local_root cfg.s3_root))

-- The root `s3://bucket/a/b/` names the bucket and the prefix `a/b`.
split_s3_bucket : split_s3 "s3://bucket/a/b/" ≡ some ("bucket", "a/b")
unfolding split_s3 partition_slash rstrip_slash starts_with drop_chars
split_s3_bucket = refl

module _ {S B : Type 0} (o : StoreOps S B) where
  -- `Store.get_file`, on the files of a disk: `none` where the object is missing.
  unfoldable pub get_file : String → String → S → Dict B → Option (Dict B)
  get_file key local_path s disk =
      let tmp = part_path local_path in
      let fetched = (do b ← o.get_bytes key s; some (replace tmp local_path (put tmp b disk))) in
      if has local_path disk then some disk else fetched

  -- `Store.put_file`, where the file is there
  unfoldable pub put_file : String → B → S → Option S
  put_file key b s = o.put_bytes key b s
