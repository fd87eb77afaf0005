-- ===== src/Parts.antt =====
-- gleanflow/store.py: `PartWriter`, which streams records to row-capped part files. How records are
-- encoded is pyarrow's and json's matter: `encode` is a parameter, as are the file format `fmt` and
-- Python's padding of the part number, `name`.
pub mod Files
pub mod Written
pub mod Keys
use gleanflow.Prelude.{
  ℕ, zero, suc, ◌+◌, String, Option, Bool, List, [], ◌∷◌, ◌++◌, length, leb, if◌then◌else◌,
}
use gleanflow.Json.{Json}
use gleanflow.Store.{Store, put_bytes}

pub record PartWriter (W R : Type 0) : Type 0 where
  pub store : Store W
  pub cap : ℕ
  pub buf : List R
  pub part : ℕ
  pub keys : List String

module _ {W R : Type 0} where
  -- `PartWriter(store, prefix, cap_rows)`
  unfoldable pub open_parts : Store W → ℕ → PartWriter W R
  open_parts store cap = record { store = store; cap = cap; buf = []; part = 0; keys = [] }

  -- `name n` is the key `f"{prefix}/part-{n:05d}.{fmt}"`.
  module _ (name : ℕ → String) (encode : List R → Json W) where
    -- `_flush` where `_buf` is not empty
    unfoldable pub put_part : PartWriter W R → PartWriter W R
    put_part p = record p {
      store = put_bytes (name p.part) (encode p.buf) p.store;
      keys = p.keys ++ name p.part ∷ [];
      part = p.part + 1;
      buf = [];
    }

    unfoldable pub flush_part : List R → PartWriter W R → PartWriter W R
    flush_part [] p = p
    flush_part (_ ∷ _) p = put_part p

    -- the body of `write`'s loop
    unfoldable pub add_record : PartWriter W R → R → PartWriter W R
    add_record p r =
        let grown = record p { buf = p.buf ++ r ∷ [] } in
        if leb grown.cap (length grown.buf) then flush_part grown.buf grown else grown

    unfoldable pub write : List R → PartWriter W R → PartWriter W R
    write [] p = p
    write (r ∷ rs) p = write rs (add_record p r)

    unfoldable pub close : PartWriter W R → PartWriter W R × List String
    close p = let p' = flush_part p.buf p in (p', p'.keys)
