-- ===== src/Tests/Contexts.antt =====
-- Two records in parts of one, read by the next stage.
use gleanflow.Prelude.{
  ℕ, zero, suc, sym, eq_iff, Bool-cases, ◌<◌, String, Option, some, true, false, List, [], ◌∷◌, map,
  ◌≡◌, refl, arith, ◌==◌, inl, inr,
}
use gleanflow.Prelude.Dict.{get, has}
use gleanflow.Decimal.{str_inj}
use gleanflow.Decimal
use gleanflow.Json.{Json, int, array, object, as_list, as_dict-object, as_list-array, ◌>>=◌}
use gleanflow.Text.{starts_with}
use gleanflow.Store.{Store}
use gleanflow.Store.Listing.{text_le}
use gleanflow.Store.Config.{rstrip_slash}
use gleanflow.Partition.{Chunk, ref}
use gleanflow.Stage.{stage}
use gleanflow.Controller.Plan.{with_input}
use gleanflow.Context.{Record, Ctx, open_ctx, chunk_id, data_prefix, as_dicts, part_name, input}
use gleanflow.Context.Roundtrip.{produce, produce-input}

abbrev encode : List (Record ℕ) → Json ℕ
encode rows = array (map object rows)

abbrev decode : String → Json ℕ → Option (List (Record ℕ))
decode k j = as_list j >>= as_dicts

as_dicts-map : (rows : List (Record ℕ)) → as_dicts (map object rows) ≡ some rows
unfolding as_dicts
as_dicts-map [] = refl
as_dicts-map (r ∷ rows) = rw (as_dict-object, as_dicts-map rows) refl

decode-encode : (k : String) (rows : List (Record ℕ)) → decode k (encode rows) ≡ some rows
decode-encode k rows = rw (as_list-array, as_dicts-map rows) refl

abbrev chunk : Chunk ℕ
chunk = record { id = "c0"; params = []; weight = 1 }

abbrev rows : List (Record ℕ)
rows = (("n", int 1) ∷ []) ∷ (("n", int 2) ∷ []) ∷ []

abbrev before : Store ℕ
before = ("results/a.json", int 0) ∷ []

ascending :
    (m : ℕ)
    → suc m < 2
    → text_le
        (part_name Decimal.str "jsonl" "data/load/c0" m)
        (part_name Decimal.str "jsonl" "data/load/c0" (suc m))
      ≡ true
unfolding text_le part_name rstrip_slash Decimal.str
ascending zero h = refl
ascending (suc m) h = absurd (omega arith)

none_there : (k : String) → has k before ≡ true → starts_with "data/load/c0/" k ≡ false
unfolding has
none_there k h = elim (Bool-cases ("results/a.json" == k)) [
  | inl here ↦ rw (sym ((eq_iff "results/a.json" k).0 here)) (unfold starts_with in refl)
  | inr other ↦ let no : false ≡ true = rw other at h in cc
]

produce-input_example :
    (u : Ctx ℕ) × (outputs : List String) × (produce Decimal.str "jsonl" encode rows
        (open_ctx "load" 1 [] before)
      ≡ some (u, outputs))
    × (input decode [] (
          open_ctx "train" 5
            (with_input (some (record { name = "load"; kind = stage })) (array (ref chunk ∷ [])) [])
            u.store)
        ≡ some rows)
unfolding chunk_id get rstrip_slash data_prefix
produce-input_example =
    produce-input Decimal.str "jsonl" encode decode "load" chunk 1 [] before rows [] "train" 5 []
      refl str_inj refl none_there ascending (λ m part. decode-encode "" part)
