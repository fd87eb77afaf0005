-- ===== src/Partition/Pack.antt =====
-- `pack` of partition.py against its specification, and what follows for its chunks.
use gleanflow.Prelude.{
  suc, ◌≡◌, refl, sym, ◌∙◌, true, false, ◌&&◌, inl, inr, List, [], ◌∷◌, ◌++◌, All, length,
  length-append, arith, String, if◌then◌else◌, Bool-cases,
}
use mathlib.Core.List.{append-nil, append_assoc}
use gleanflow.Float.{FloatOps}
use gleanflow.Partition.{Chunk, Packing, nonempty, packed, flush, take_in, place, pack_loop, pack}
use gleanflow.Partition.Groups.{
  concat, total, total_from-append, Fits, IsGreedy, numbered, groups, concat-groups, groups-Fits,
  groups-nonempty, groups-IsGreedy,
}

module _ {W : Type 0} ⦃f : FloatOps W⦄ (prefix : String) (target : W) where
  -- The state in which `g` is open behind the chunks `out`.
  abbrev opened : List (Chunk W) → List (Chunk W) → Packing W
  opened out g = record { out = out; cur = g; cur_w = total g }

  place-opened :
      (out g : List (Chunk W)) (m : Chunk W)
      → place prefix target (opened out g) m ≡ (
          if nonempty g && f.lt target (f.add (total g) m.weight)
          then opened (out ++ packed prefix (length out) g (total g) ∷ []) (m ∷ [])
          else opened out (g ++ m ∷ []))
  unfolding place flush take_in nonempty
  place-opened out [] m = refl
  place-opened out (c ∷ cs) m = elim (Bool-cases (f.lt target (f.add (total (c ∷ cs)) m.weight))) [
    | inl over ↦ rw over
    | inr fits ↦ rw (fits, total_from-append f.fzero (c ∷ cs) (m ∷ []))
  ]

  flush-opened :
      (out g : List (Chunk W))
      → (flush prefix (opened out g)).out ≡ out ++ numbered prefix (length out) (groups target g [])
  unfolding flush groups nonempty
  flush-opened out [] = sym (append-nil out)
  flush-opened out (c ∷ cs) = refl

  numbered-snoc :
      (out : List (Chunk W)) (c : Chunk W) (gs : List (List (Chunk W)))
      → (out ++ c ∷ []) ++ numbered prefix (length (out ++ c ∷ [])) gs
        ≡ out ++ (c ∷ numbered prefix (suc (length out)) gs)
  numbered-snoc out c gs =
      let grown : length (out ++ c ∷ []) ≡ suc (length out) =
        omega (arith, length-append out (c ∷ [])) in
      rw (grown, append_assoc)

  -- The loop and the last `flush` add the chunks of the specification's groups.
  pack_loop-groups :
      (ms out g : List (Chunk W))
      → (flush prefix (pack_loop prefix target (opened out g) ms)).out
        ≡ out ++ numbered prefix (length out) (groups target g ms)
  unfolding pack_loop groups
  pack_loop-groups [] out g = flush-opened out g
  pack_loop-groups (m ∷ ms) out g =
      rw place-opened (elim (Bool-cases (nonempty g && f.lt target (f.add (total g) m.weight))) [
        | inl over ↦ rw over (
            pack_loop-groups ms (out ++ packed prefix (length out) g (total g) ∷ []) (m ∷ [])
            ∙ numbered-snoc out (packed prefix (length out) g (total g))
                (groups target (m ∷ []) ms))
        | inr fits ↦ rw fits (pack_loop-groups ms out (g ++ m ∷ []))
      ])

-- What `pack` promises for members `ms` and a positive target.
pub record IsPacking {W : Type 0} ⦃f : FloatOps W⦄ (prefix : String) (target : W)
    (ms chunks : List (Chunk W)) : Type 0 where
  pub cut : List (List (Chunk W))
  -- every member stands in one group, in the order of the input
  pub covers : concat cut ≡ ms
  pub no_empty : All (λ g. nonempty g ≡ true) cut
  -- a group of two or more members is not above the target
  pub fits : All (Fits target) cut
  pub greedy : IsGreedy target cut
  -- chunk i is the i-th group, with the ids of its members and the sum of their weights
  pub built : chunks ≡ numbered prefix 0 cut

module _ {W : Type 0} ⦃f : FloatOps W⦄ where
  -- For a target above 0, `pack` cuts the members into consecutive non-empty groups, none of two or
  -- more members above the target, each closed only where the next member would take it above the
  -- target, and returns one chunk for each group, numbered from 0, with the group's total weight.
  pub pack-IsPacking :
      (members : List (Chunk W)) (target : W) (prefix : String)
      → f.le target f.fzero ≡ false
      → IsPacking prefix target members (pack members target prefix)
  unfolding pack
  pack-IsPacking members target prefix h = record {
    cut = groups target [] members;
    covers = concat-groups target [] members;
    no_empty = groups-nonempty target [] members;
    fits = groups-Fits target [] members (unfold nonempty in λ e. cc);
    greedy = groups-IsGreedy target [] members;
    built = rw h (pack_loop-groups prefix target members [] []);
  }
