-- ===== src/Pipeline/Source.antt =====
-- gleanflow/pipeline.py: `Source` and its chunks, and the names that the decorator `stage` gives.
use gleanflow.Prelude.{
  String, Option, none, some, Bool, ◌&&◌, true, List, [], ◌∷◌, ◌⊎◌, inl, inr, ◌==◌, if◌then◌else◌,
}
use gleanflow.Prelude.Dict.{Dict, keys, put}
use gleanflow.Float.{FloatOps}
use gleanflow.Json.{Json, as_str, as_dict, as_float, required, optional, ◌>>=◌}
use gleanflow.Partition.{Chunk}
use gleanflow.Stage.{Stage}
use gleanflow.Pipeline.{Pipeline, register, contains}

-- `A` is the type of the configuration with the run arguments, `R` that of the readers.
pub record Source (A R W : Type 0) : Type 0 where
  pub name : String
  pub uri : String
  pub key : String
  pub reader : Option R
  pub enumerate_fn : Option (A → Option (List (Chunk W)))
  pub chunks : Option (List (Chunk W ⊎ Dict (Json W)))

-- The last line of the constructor, on the pipeline's `sources`.
unfoldable pub add_source :
    {A R W : Type 0} → Source A R W → Dict (Source A R W) → Dict (Source A R W)
add_source s sources = put s.name s sources

unfoldable pub all_known : List String → Bool
all_known [] = true
all_known (k ∷ ks) = contains k ("id" ∷ "params" ∷ "weight" ∷ []) && all_known ks

module _ {W : Type 0} ⦃f : FloatOps W⦄ where
  -- `Chunk(**c)`; `none` stands for the TypeError of a missing or unknown name, and for a value of
  -- another kind.
  unfoldable pub known_chunk : Dict (Json W) → Option (Chunk W)
  known_chunk c = do
    id ← required as_str "id" c
    params ← optional as_dict "params" [] c
    weight ← optional as_float "weight" f.fone c
    some (record { id = id; params = params; weight = weight })

  unfoldable pub chunk_of : Chunk W ⊎ Dict (Json W) → Option (Chunk W)
  chunk_of (inl c) = some c
  chunk_of (inr c) = if all_known (keys c) then known_chunk c else none

  unfoldable pub chunks_from : List (Chunk W ⊎ Dict (Json W)) → Option (List (Chunk W))
  chunks_from [] = some []
  chunks_from (c ∷ cs) = do first ← chunk_of c; rest ← chunks_from cs; some (first ∷ rest)

  unfoldable pub listed : Option (List (Chunk W ⊎ Dict (Json W))) → Option (List (Chunk W))
  listed none = none
  listed (some cs) = chunks_from cs

  unfoldable pub enumerate_by :
      {A : Type 0}
      → Option (A → Option (List (Chunk W)))
      → Option (List (Chunk W ⊎ Dict (Json W)))
      → A
      → Option (List (Chunk W))
  enumerate_by (some fn) cs args = fn args
  enumerate_by none cs args = listed cs

  -- `enumerate`; a source with neither raises.
  unfoldable pub enumerate : {A R : Type 0} → Source A R W → A → Option (List (Chunk W))
  enumerate s args = enumerate_by s.enumerate_fn s.chunks args

-- `name or fn.__name__`
unfoldable pub or_name : Option String → String → String
or_name none fn_name = fn_name
or_name (some name) fn_name = if name == "" then fn_name else name

-- The decorator `stage`: the given options are those of `st`.
unfoldable pub declare :
    {W F : Type 0} → Option String → String → Stage W F → Pipeline W F → Pipeline W F
declare name fn_name st pipe = register (record st { name = or_name name fn_name }) pipe
