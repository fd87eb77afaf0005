-- ===== src/Partition.antt =====
-- gleanflow/partition.py: chunks, the size-target packer, and the heaviest-first order.
pub mod Groups
pub mod Pack
pub mod Chunks
pub mod Heaviest
use gleanflow.Prelude.{
  ℕ, String, ◌++◌, List, [], ◌∷◌, Option, none, some, map, Bool, true, false, ◌&&◌, length,
  if◌then◌else◌,
}
use Prim.Native.String.{◌++◌ as append}
use gleanflow.Prelude.Dict
use gleanflow.Prelude.Dict.{Dict, get}
use gleanflow.Decimal
use gleanflow.Float.{FloatOps}
use gleanflow.Json.{
  Json, float, str, array, object, as_str, as_dict, as_list, as_float, required, optional, ◌>>=◌,
}

pub record Chunk (W : Type 0) : Type 0 where
  pub id : String
  pub params : Dict (Json W)
  pub weight : W

module _ {W : Type 0} where
  unfoldable pub to_dict : Chunk W → Json W
  to_dict c =
      object (("id", str c.id) ∷ ("params", object c.params) ∷ ("weight", float c.weight) ∷ [])

  -- `none` where Python raises
  unfoldable pub from_dict : ⦃f : FloatOps W⦄ → Json W → Option (Chunk W)
  from_dict ⦃f⦄ j = do
    d ← as_dict j
    id ← required as_str "id" d
    params ← optional as_dict "params" [] d
    weight ← optional as_float "weight" f.fone d
    some (record { id = id; params = params; weight = weight })

  -- `_ref`
  unfoldable pub ref : Chunk W → Json W
  ref m = object (("id", str m.id) ∷ ("params", object m.params) ∷ [])

  -- `{"_members": [...]}`
  unfoldable pub members_param : List (Chunk W) → Dict (Json W)
  members_param ms = ("_members", array (map ref ms)) ∷ []

  -- `c.params.get("_members", [])`
  unfoldable pub members_of : Chunk W → List (Json W)
  members_of c = elim (get "_members" c.params) [ none ↦ [] | some v ↦ Dict.get_or [] (as_list v) ]

  unfoldable pub one_to_one : List (Chunk W) → List (Chunk W)
  one_to_one members =
      map (λ m. record { id = m.id; params = members_param (m ∷ []); weight = m.weight }) members

  unfoldable pub packed : String → ℕ → List (Chunk W) → W → Chunk W
  packed prefix n cur w = record {
    id = append prefix (Decimal.str n);
    params = members_param cur;
    weight = w;
  }

  unfoldable pub nonempty : List (Chunk W) → Bool
  nonempty [] = false
  nonempty (_ ∷ _) = true

-- The variables of `pack`'s loop.
pub record Packing (W : Type 0) : Type 0 where
  pub out : List (Chunk W)
  pub cur : List (Chunk W)
  pub cur_w : W

module _ {W : Type 0} ⦃f : FloatOps W⦄ where
  unfoldable pub flush : String → Packing W → Packing W
  flush prefix s =
      if nonempty s.cur
      then record {
        out = s.out ++ packed prefix (length s.out) s.cur s.cur_w ∷ [];
        cur = [];
        cur_w = f.fzero;
      }
      else s

  -- `cur.append(m); cur_w += m.weight`
  unfoldable pub take_in : Chunk W → Packing W → Packing W
  take_in m s = record s { cur = s.cur ++ m ∷ []; cur_w = f.add s.cur_w m.weight }

  unfoldable pub place : String → W → Packing W → Chunk W → Packing W
  place prefix target s m =
      take_in m
        (if nonempty s.cur && f.lt target (f.add s.cur_w m.weight) then flush prefix s else s)

  unfoldable pub pack_loop : String → W → Packing W → List (Chunk W) → Packing W
  pack_loop prefix target s [] = s
  pack_loop prefix target s (m ∷ ms) = pack_loop prefix target (place prefix target s m) ms

  unfoldable pub pack : List (Chunk W) → W → String → List (Chunk W)
  pack members target prefix =
      if f.le target f.fzero
      then one_to_one members
      else (flush prefix
          (pack_loop prefix target (record { out = []; cur = []; cur_w = f.fzero }) members)).out

-- `sorted(chunks, key=lambda c: -c.weight)`: stable, so a chunk stands behind those as heavy that
-- came before it. It serves chunks and tasks.
module _ {W A : Type 0} ⦃f : FloatOps W⦄ (weight : A → W) where
  unfoldable pub insert_heavy : A → List A → List A
  insert_heavy x [] = x ∷ []
  insert_heavy x (y ∷ ys) =
      let rest = insert_heavy x ys in if f.lt (weight x) (weight y) then y ∷ rest else x ∷ y ∷ ys

  unfoldable pub heaviest_first : List A → List A
  heaviest_first [] = []
  heaviest_first (x ∷ xs) = insert_heavy x (heaviest_first xs)
