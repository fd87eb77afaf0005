-- ===== src/Store.antt =====
-- gleanflow/store.py: the object store, as the mapping from keys to objects that `LocalStore` and
-- `S3Store` both provide. An object's bytes are the value that was encoded.
pub mod Interface
pub mod Local
pub mod S3
pub mod Listing
pub mod Config
use gleanflow.Prelude.{Bool, String, Option, List, filter}
use gleanflow.Prelude.Dict.{Dict, get, has, put, keys}
use gleanflow.Text.{starts_with}
use gleanflow.Store.Listing.{sorted_by}
use gleanflow.Json.{Json}

abbrev pub Store : Type 0 → Type 0
Store W = Dict (Json W)

module _ {W : Type 0} where
  abbrev pub put_bytes : String → Json W → Store W → Store W
  put_bytes = put

  -- `none` where a missing object raises
  abbrev pub get_bytes : String → Store W → Option (Json W)
  get_bytes = get

  abbrev pub exists : String → Store W → Bool
  exists = has

  -- the keys that begin with a prefix, sorted
  unfoldable pub list_keys : String → Store W → List String
  list_keys prefix store = sorted_by (λ s. s) (filter (starts_with prefix) (keys store))
