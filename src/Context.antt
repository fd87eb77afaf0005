-- ===== src/Context.antt =====
-- gleanflow/context.py: what a stage's function reads and writes. How records become bytes is
-- pyarrow's and json's matter: `encode` and `decode` are parameters, as are the padding of a part's
-- number and the file format. User code gives the readers of sources.
pub mod Roundtrip
use Prim.Native.String.{◌++◌ as append}
use gleanflow.Prelude.{
  ℕ, String, Option, none, some, Bool, List, [], ◌∷◌, ◌++◌, map, ◌==◌, if◌then◌else◌,
}
use gleanflow.Prelude.Dict.{Dict, get, get_or}
use gleanflow.Json.{Json, str, object, as_str, as_dict, as_list, required, optional, ◌>>=◌}
use gleanflow.Store.{Store, put_bytes, get_bytes, list_keys}
use gleanflow.Store.Config.{rstrip_slash}
use gleanflow.Parts.{PartWriter, open_parts}
use gleanflow.Parts

-- A record.
abbrev pub Record : Type 0 → Type 0
Record W = Dict (Json W)

unfoldable pub data_prefix : String → String → String
data_prefix name id = append "data/" (append name (append "/" id))

-- `f"{prefix}/part-{n:05d}.{fmt}"`
unfoldable pub part_name : (ℕ → String) → String → String → ℕ → String
part_name pad fmt prefix n =
    append (rstrip_slash prefix) (append "/part-" (append (pad n) (append "." fmt)))

pub record Ctx (W : Type 0) : Type 0 where
  pub stage_name : String
  pub cap_rows : ℕ
  pub params : Dict (Json W)
  pub store : Store W
  pub writer : Option (PartWriter W (Record W))
  pub outputs : List String

module _ {W : Type 0} where
  unfoldable pub open_ctx : String → ℕ → Dict (Json W) → Store W → Ctx W
  open_ctx stage_name cap_rows params store = record {
    stage_name = stage_name;
    cap_rows = cap_rows;
    params = params;
    store = store;
    writer = none;
    outputs = [];
  }

  -- `none` where the value is no text
  unfoldable pub chunk_id : Dict (Json W) → Option String
  chunk_id params = optional as_str "_chunk_id" "c0" params

  unfoldable pub out_prefix : Ctx W → Option String
  out_prefix ctx = do id ← chunk_id ctx.params; some (data_prefix ctx.stage_name id)

  -- The dictionaries of a list.
  unfoldable pub as_dicts : List (Json W) → Option (List (Dict (Json W)))
  as_dicts [] = some []
  as_dicts (v ∷ vs) = do d ← as_dict v; ds ← as_dicts vs; some (d ∷ ds)

  unfoldable pub members_in : Dict (Json W) → Option (List (Dict (Json W)))
  members_in info = do vs ← optional as_list "members" [] info; as_dicts vs

  -- `m.get("params", {})` of each member
  unfoldable pub params_of : List (Dict (Json W)) → Option (List (Record W))
  params_of [] = some []
  params_of (m ∷ ms) = do p ← optional as_dict "params" [] m; ps ← params_of ms; some (p ∷ ps)

  -- `self.params.get("_in", {})`
  unfoldable pub info_of : Dict (Json W) → Option (Dict (Json W))
  info_of params = optional as_dict "_in" [] params

  unfoldable pub members : Ctx W → Option (List (Record W))
  members ctx = do info ← info_of ctx.params; ms ← members_in info; params_of ms

  module _ (decode : String → Json W → Option (List (Record W))) where
    unfoldable pub read_parts : Store W → List String → Option (List (Record W))
    read_parts store [] = some []
    read_parts store (k ∷ ks) = do
      data_ ← get_bytes k store
      rows ← decode k data_
      rest ← read_parts store ks
      some (rows ++ rest)

    -- The records of the members of a stage upstream.
    unfoldable pub read_members : Store W → String → List (Dict (Json W)) → Option (List (Record W))
    read_members store name [] = some []
    read_members store name (m ∷ ms) = do
      id ← required as_str "id" m
      rows ← read_parts store (list_keys (append (data_prefix name id) "/") store)
      rest ← read_members store name ms
      some (rows ++ rest)

    -- The records of the members of a source, with its reader.
    unfoldable pub read_source :
        (Record W → Option (List (Record W))) → List (Record W) → Option (List (Record W))
    read_source reader [] = some []
    read_source reader (p ∷ ps) = do
      rows ← reader p
      rest ← read_source reader ps
      some (rows ++ rest)

    unfoldable pub from_source :
        List (Dict (Json W))
        → Option (Option (Record W → Option (List (Record W))))
        → Option (List (Record W))
    from_source ms none = none
    from_source ms (some none) = params_of ms
    from_source ms (some (some reader)) = params_of ms >>= read_source reader

    -- `input` behind the test on `_in`; `sources` has the reader of each source, where it has one.
    unfoldable pub input_of :
        Dict (Option (Record W → Option (List (Record W))))
        → Store W
        → Dict (Json W)
        → Option (List (Record W))
    input_of sources store info = do
      kind ← required as_str "kind" info
      name ← required as_str "name" info
      vs ← required as_list "members" info
      ms ← as_dicts vs
      if kind == "source" then from_source ms (get name sources) else read_members store name ms

    unfoldable pub input_with :
        Dict (Option (Record W → Option (List (Record W))))
        → Ctx W
        → Dict (Json W)
        → Option (List (Record W))
    input_with sources ctx [] = members ctx
    input_with sources ctx (e ∷ info) = input_of sources ctx.store (e ∷ info)

    unfoldable pub input :
        Dict (Option (Record W → Option (List (Record W)))) → Ctx W → Option (List (Record W))
    input sources ctx = info_of ctx.params >>= input_with sources ctx

  unfoldable pub write_bytes : String → Json W → Ctx W → Option (Ctx W × String)
  write_bytes name data_ ctx = do
    prefix ← out_prefix ctx
    let key = append prefix (append "/" name) in
        some (
          record ctx { store = put_bytes key data_ ctx.store; outputs = ctx.outputs ++ key ∷ [] },
          key,
        )

  module _ (pad : ℕ → String) (fmt : String) (encode : List (Record W) → Json W) where
    unfoldable pub continued : Ctx W → Option (PartWriter W (Record W)) → PartWriter W (Record W)
    continued ctx none = open_parts ctx.store ctx.cap_rows
    continued ctx (some w) = record w { store = ctx.store }

    -- `_w`: the writer is made at the first use; it writes to the store of the task.
    unfoldable pub writer_of : Ctx W → PartWriter W (Record W)
    writer_of ctx = continued ctx ctx.writer

    unfoldable pub write : List (Record W) → Ctx W → Option (Ctx W)
    write records ctx = do
      prefix ← out_prefix ctx
      let w = Parts.write (part_name pad fmt prefix) encode records (writer_of ctx) in
          some (record ctx { writer = some w; store = w.store })

    unfoldable pub close_writer :
        Ctx W → Option (PartWriter W (Record W)) → Option (Ctx W × List String)
    close_writer ctx none = some (ctx, ctx.outputs)
    close_writer ctx (some w) = do
      prefix ← out_prefix ctx
      let c = Parts.close (part_name pad fmt prefix) encode (record w { store = ctx.store }) in
          let outputs = ctx.outputs ++ c.1 in
          some (record ctx { writer = some c.0; store = c.0.store; outputs = outputs }, outputs)

    unfoldable pub finalize : Ctx W → Option (Ctx W × List String)
    finalize ctx = close_writer ctx ctx.writer
