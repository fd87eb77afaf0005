-- ===== src/Context/Roundtrip.antt =====
-- gleanflow/context.py: what a stage wrote is what the stage downstream of it reads.
use Prim.Native.String.{◌++◌ as append}
use Prim.Native.Char.{code}
use mathlib.Core.List.{append-nil}
use text.Mathlib.TextLemmas.{append_assoc, append_cancel_left, append_cancel_right, cons-append}
use gleanflow.Prelude.{
  ℕ, suc, ◌<◌, String, Option, none, some, true, false, List, [], ◌∷◌, ◌++◌, ◌≡◌, refl, sym, ap,
  ◌∙◌, nat_beq_refl, length,
}
use gleanflow.Prelude.Dict.{Dict, get, has, put, get-put}
use gleanflow.Json.{Json, str, array, object, as_dict, ◌>>=◌, as_dict-object, as_list-array}
use gleanflow.Text.{starts_with}
use gleanflow.Store.{Store, list_keys}
use gleanflow.Store.Listing.{text_le}
use gleanflow.Store.Config.{rstrip_slash}
use gleanflow.Partition.{Chunk, ref}
use gleanflow.Stage.{stage}
use gleanflow.Controller.Plan.{with_input, kind_name}
use gleanflow.Parts.{PartWriter, open_parts}
use gleanflow.Parts
use gleanflow.Parts.Files.{part_keys, all_rows, Stored}
use gleanflow.Parts.Keys.{list_keys-close}
use gleanflow.Context.{
  Record, Ctx, open_ctx, chunk_id, data_prefix, out_prefix, as_dicts, info_of, read_parts,
  read_members, input_of, input_with, input, part_name, continued, writer_of, write, close_writer,
  finalize,
}

starts_with-append : (p s : String) → starts_with p (append p s) ≡ true
unfolding starts_with
starts_with-append String.[] s = refl
starts_with-append (String.◌∷◌ c p) s =
    rw (cons-append, nat_beq_refl (code c), starts_with-append p s) refl

part_name_inj :
    (pad : ℕ → String) (fmt prefix : String)
    → ((m n : ℕ) → pad m ≡ pad n → m ≡ n)
    → (m n : ℕ) → part_name pad fmt prefix m ≡ part_name pad fmt prefix n
    → m ≡ n
unfolding part_name
part_name_inj pad fmt prefix inj m n e = inj m n (
    append_cancel_right (pad m) (pad n) (append "." fmt)
      (append_cancel_left "/part-" _ _ (append_cancel_left (rstrip_slash prefix) _ _ e)))

-- A part's key begins with its prefix and a slash.
part_name-starts :
    (pad : ℕ → String) (fmt prefix : String) (n : ℕ)
    → rstrip_slash prefix ≡ prefix
    → starts_with (append prefix "/") (part_name pad fmt prefix n) ≡ true
unfolding part_name
part_name-starts pad fmt prefix n e =
    let tail = append (pad n) (append "." fmt) in
    let split : append prefix (append "/part-" tail)
        ≡ append (append prefix "/") (append "part-" tail) =
      ap (append prefix) (append_assoc "/" "part-" tail)
      ∙ sym (append_assoc prefix "/" (append "part-" tail)) in
    rw (e, split) (starts_with-append (append prefix "/") (append "part-" tail))

module _ {W : Type 0} where
  -- A task's writing: one call of `write`, and the worker's `finalize`.
  unfoldable pub produce :
      (ℕ → String)
      → String
      → (List (Record W) → Json W)
      → List (Record W)
      → Ctx W
      → Option (Ctx W × List String)
  produce pad fmt encode rows ctx = write pad fmt encode rows ctx >>= finalize pad fmt encode

  read_parts-Stored :
      (decode : String → Json W → Option (List (Record W))) (encode : List (Record W) → Json W)
      (name : ℕ → String) (n : ℕ) (parts : List (List (Record W))) (store : Store W)
      → ((m : ℕ) (rows : List (Record W)) → decode (name m) (encode rows) ≡ some rows)
      → Stored name encode n parts store
      → read_parts decode store (part_keys name n parts) ≡ some (all_rows parts)
  unfolding read_parts
  read_parts-Stored decode encode name n [] store d st = refl
  read_parts-Stored decode encode name n (p ∷ parts) store d st =
      rw (st.0, d n p, read_parts-Stored decode encode name (suc n) parts store d st.1) refl

  -- The `_in` entry that the controller gives a task whose input is the chunk `c` of `name`.
  upstream_info : String → Chunk W → Dict (Json W)
  upstream_info name c =
      ("kind", str "stage") ∷ ("name", str name) ∷ ("members", array (ref c ∷ [])) ∷ []

  or_nothing : Option (Json W) → Option (Dict (Json W))
  or_nothing o = elim o [ none ↦ some [] | some v ↦ as_dict v ]

  info_of-with_input :
      (name : String) (c : Chunk W) (params : Dict (Json W))
      → info_of
          (with_input (some (record { name = name; kind = stage })) (array (ref c ∷ [])) params)
        ≡ some (upstream_info name c)
  unfolding info_of with_input kind_name upstream_info or_nothing
  info_of-with_input name c params =
      let info = object (upstream_info name c) in
      let there : get "_in" (put "_in" info params) ≡ some info = get-put "_in" "_in" info params in
      ap (λ (o : Option (Json W)). or_nothing o) there ∙ as_dict-object (upstream_info name c)

  input_of-stage :
      (decode : String → Json W → Option (List (Record W)))
      (sources : Dict (Option (Record W → Option (List (Record W))))) (store : Store W)
      (name : String) (c : Chunk W)
      → input_of decode sources store (upstream_info name c) ≡ (
          read_parts decode store (list_keys (append (data_prefix name c.id) "/") store) >>= λ rows.
          some (rows ++ []))
  unfolding input_of upstream_info read_members as_dicts ref get
  input_of-stage decode sources store name c = rw (as_list-array, as_dict-object) refl

  -- The context of a task that has written its records.
  written :
      (ℕ → String)
      → String
      → (List (Record W) → Json W)
      → String
      → Chunk W
      → ℕ
      → Dict (Json W)
      → Store W
      → List (Record W)
      → Ctx W
  written pad fmt encode name c cap_rows params s0 rows =
      let part = part_name pad fmt (data_prefix name c.id) in
      let closed =
        Parts.close part encode (Parts.write part encode rows (open_parts s0 cap_rows)) in
      record (open_ctx name cap_rows params s0) {
        writer = some closed.0;
        store = closed.0.store;
        outputs = closed.1;
      }

  produce-written :
      (pad : ℕ → String) (fmt : String) (encode : List (Record W) → Json W) (name : String)
      (c : Chunk W) (cap_rows : ℕ) (params : Dict (Json W)) (s0 : Store W) (rows : List (Record W))
      → chunk_id params ≡ some c.id
      → produce pad fmt encode rows (open_ctx name cap_rows params s0)
        ≡ some (
          written pad fmt encode name c cap_rows params s0 rows,
          (written pad fmt encode name c cap_rows params s0 rows).outputs,
        )
  unfolding produce write finalize close_writer writer_of continued out_prefix open_ctx written
  produce-written pad fmt encode name c cap_rows params s0 rows id = rw (id, id) refl

  input-upstream :
      (decode : String → Json W → Option (List (Record W)))
      (sources : Dict (Option (Record W → Option (List (Record W))))) (later : String) (cap : ℕ)
      (params : Dict (Json W)) (store : Store W) (name : String) (c : Chunk W)
      → info_of params ≡ some (upstream_info name c)
      → input decode sources (open_ctx later cap params store) ≡ (
          read_parts decode store (list_keys (append (data_prefix name c.id) "/") store) >>= λ rows.
          some (rows ++ []))
  unfolding input input_with open_ctx upstream_info
  input-upstream decode sources later cap params store name c e =
      rw e (input_of-stage decode sources store name c)

  -- The records that a task writes for the chunk `c` in one call, with a store that has nothing under
  -- the chunk's prefix, part names in ascending order and an encoding that can be read back, are what
  -- a later task reads whose input is that chunk.
  pub produce-input :
      (pad : ℕ → String) (fmt : String) (encode : List (Record W) → Json W)
      (decode : String → Json W → Option (List (Record W))) (name : String) (c : Chunk W)
      (cap_rows : ℕ) (params : Dict (Json W)) (s0 : Store W) (rows : List (Record W))
      (sources : Dict (Option (Record W → Option (List (Record W))))) (later : String) (cap : ℕ)
      (params' : Dict (Json W))
      → chunk_id params ≡ some c.id
      → ((m n : ℕ) → pad m ≡ pad n → m ≡ n)
      → rstrip_slash (data_prefix name c.id) ≡ data_prefix name c.id
      → ((k : String)
          → has k s0 ≡ true
          → starts_with (append (data_prefix name c.id) "/") k ≡ false)
      → ((m : ℕ)
          → suc m < length rows
          → text_le
              (part_name pad fmt (data_prefix name c.id) m)
              (part_name pad fmt (data_prefix name c.id) (suc m))
            ≡ true)
      → ((m : ℕ) (part : List (Record W))
          → decode (part_name pad fmt (data_prefix name c.id) m) (encode part) ≡ some part)
      → (u : Ctx W) × (outputs : List String) × (produce pad fmt encode rows
            (open_ctx name cap_rows params s0)
          ≡ some (u, outputs))
        × (input decode sources (
              open_ctx later cap
                (with_input
                  (some (record { name = name; kind = stage }))
                  (array (ref c ∷ []))
                  params')
                u.store)
            ≡ some rows)
  unfolding written
  produce-input pad fmt encode decode name c cap_rows params s0 rows sources later cap params' id
        inj bare empty up back =
      let prefix = data_prefix name c.id in
      let part = part_name pad fmt prefix in
      let (parts, same, listing, stored) =
        list_keys-close part encode (part_name_inj pad fmt prefix inj) s0 (append prefix "/")
          cap_rows rows (λ m. part_name-starts pad fmt prefix m bare) empty up in
      let u = written pad fmt encode name c cap_rows params s0 rows in
      let given =
        with_input (some (record { name = name; kind = stage })) (array (ref c ∷ [])) params' in
      let read : read_parts decode u.store (list_keys (append prefix "/") u.store) ≡ some rows =
        ap (read_parts decode u.store) listing
        ∙ read_parts-Stored decode encode part 0 parts u.store back stored
        ∙ ap some same in
      (
        u,
        u.outputs,
        produce-written pad fmt encode name c cap_rows params s0 rows id,
        input-upstream decode sources later cap given u.store name c
              (info_of-with_input name c params')
            ∙ ap (λ (o : Option (List (Record W))). o >>= λ r. some (r ++ [])) read
            ∙ ap some (append-nil rows),
      )
