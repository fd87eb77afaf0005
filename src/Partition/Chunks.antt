-- ===== src/Partition/Chunks.antt =====
-- What `pack` of partition.py keeps on both of its branches, and the ids of its chunks.
use Prim.Native.String.{◌++◌ as append}
use text.Mathlib.TextLemmas.{append_cancel_left}
use gleanflow.Prelude.{
  ℕ, suc, ◌<◌, ◌≡◌, ◌≢◌, refl, ap, false, inl, inr, List, [], ◌∷◌, ◌++◌, map, All, IsUnique, arith,
  String, Bool-cases,
}
use mathlib.Core.List.{map-append}
use gleanflow.Decimal.{str, str_inj}
use gleanflow.Prelude.Dict.{get, get_or}
use gleanflow.Float.{FloatOps}
use gleanflow.Json.{Json, as_list-array}
use gleanflow.Partition.{Chunk, members_of, members_param, ref, packed, one_to_one, pack}
use gleanflow.Partition.Groups.{concat, numbered}
use gleanflow.Partition.Pack.{pack-IsPacking}

module _ {W : Type 0} where
  abbrev pub all_members : List (Chunk W) → List (Json W)
  all_members [] = []
  all_members (c ∷ cs) = members_of c ++ all_members cs

  members-packed :
      (prefix : String) (n : ℕ) (g : List (Chunk W)) (w : W)
      → members_of (packed prefix n g w) ≡ map ref g
  unfolding members_of packed members_param get get_or
  members-packed prefix n g w = rw as_list-array

  pub members-one_to_one : (ms : List (Chunk W)) → all_members (one_to_one ms) ≡ map ref ms
  unfolding members_of one_to_one members_param get get_or
  members-one_to_one [] = refl
  members-one_to_one (m ∷ ms) = rw as_list-array (ap (◌∷◌ (ref m)) (members-one_to_one ms))

module _ {W : Type 0} ⦃f : FloatOps W⦄ where
  members-numbered :
      (prefix : String) (n : ℕ) (gs : List (List (Chunk W)))
      → all_members (numbered prefix n gs) ≡ map ref (concat gs)
  members-numbered prefix n [] = refl
  members-numbered prefix n (g ∷ gs) =
      rw (members-packed, members-numbered prefix (suc n) gs, map-append)

  -- The members of the chunks that `pack` returns, read one chunk after the other, are references
  -- to the given members, each once and in their order, whatever the target.
  pub members-pack :
      (members : List (Chunk W)) (target : W) (prefix : String)
      → all_members (pack members target prefix) ≡ map ref members
  members-pack members target prefix = elim (Bool-cases (f.le target f.fzero)) [
    | inl whole ↦ unfold pack in rw whole (members-one_to_one members)
    | inr cuts ↦
        let p = pack-IsPacking members target prefix cuts in
        rw (p.built, members-numbered, p.covers)
  ]

  later_ids :
      (prefix : String) (m n : ℕ) (gs : List (List (Chunk W)))
      → m < n
      → All (λ j. append prefix (str m) ≢ j) (map (λ c. c.id) (numbered prefix n gs))
  later_ids prefix m n [] h = tt
  later_ids prefix m n (g ∷ gs) h = (
    unfold packed in λ e. absurd (omega (arith, str_inj m n (append_cancel_left prefix _ _ e))),
    later_ids prefix m (suc n) gs (omega arith),
  )

  ids-numbered :
      (prefix : String) (n : ℕ) (gs : List (List (Chunk W)))
      → IsUnique (map (λ c. c.id) (numbered prefix n gs))
  unfolding packed
  ids-numbered prefix n [] = tt
  ids-numbered prefix n (g ∷ gs) =
      (later_ids prefix n (suc n) gs (omega arith), ids-numbered prefix (suc n) gs)

  -- For a target above 0 no two chunks of `pack` have the same id, whatever the members' ids.
  pub ids-pack-IsUnique :
      (members : List (Chunk W)) (target : W) (prefix : String)
      → f.le target f.fzero ≡ false
      → IsUnique (map (λ c. c.id) (pack members target prefix))
  ids-pack-IsUnique members target prefix h =
      let p = pack-IsPacking members target prefix h in rw p.built (ids-numbered prefix 0 p.cut)
