-- ===== src/Partition/Heaviest.antt =====
-- `heaviest_first` of partition.py: the order in which a stage's chunks are run.
use gleanflow.Prelude.{
  ◌≡◌, refl, Bool, false, List, [], ◌∷◌, All, All-map_imp, filter, not, ◌&&◌, arith, inl, inr,
  Bool-cases,
}
use mathlib.Core.List.{Perm}
use mathlib.Core.List.Perm
use gleanflow.Float.{FloatOps, IsOrdered}
use gleanflow.Partition.{insert_heavy, heaviest_first}

module _ {W A : Type 0} ⦃f : FloatOps W⦄ (weight : A → W) where
  -- No later item is heavier than an earlier one.
  abbrev pub IsHeaviestFirst : List A → Type 0
  IsHeaviestFirst [] = Unit
  IsHeaviestFirst (x ∷ xs) = All (λ y. f.lt (weight x) (weight y) ≡ false) xs × IsHeaviestFirst xs

  insert_heavy-perm : (x : A) (ys : List A) → Perm (insert_heavy weight x ys) (x ∷ ys)
  unfolding insert_heavy
  insert_heavy-perm x [] = Perm.refl _
  insert_heavy-perm x (y ∷ ys) = elim (Bool-cases (f.lt (weight x) (weight y))) [
    | inl below ↦ rw below (Perm.trans (Perm.cons y (insert_heavy-perm x ys)) (Perm.swap x y ys))
    | inr here ↦ rw here (Perm.refl _)
  ]

  heaviest_first-perm : (xs : List A) → Perm (heaviest_first weight xs) xs
  unfolding heaviest_first
  heaviest_first-perm [] = Perm.refl _
  heaviest_first-perm (x ∷ xs) =
      Perm.trans (insert_heavy-perm x (heaviest_first weight xs))
        (Perm.cons x (heaviest_first-perm xs))

  All-insert_heavy :
      (P : A → Type 0) (x : A) (ys : List A) → P x → All P ys → All P (insert_heavy weight x ys)
  unfolding insert_heavy
  All-insert_heavy P x [] px h = (px, tt)
  All-insert_heavy P x (y ∷ ys) px h = let rest = All-insert_heavy P x ys px h.1 in ground arith

  -- As heavy as `w`: neither is below the other.
  abbrev pub as_heavy : W → A → Bool
  as_heavy w x = not (f.lt w (weight x)) && not (f.lt (weight x) w)

  module _ (o : IsOrdered f) where
    insert_heavy-IsHeaviestFirst :
        (x : A) (ys : List A) → IsHeaviestFirst ys → IsHeaviestFirst (insert_heavy weight x ys)
    unfolding insert_heavy
    insert_heavy-IsHeaviestFirst x [] h = (tt, tt)
    insert_heavy-IsHeaviestFirst x (y ∷ ys) h = elim (Bool-cases (f.lt (weight x) (weight y))) [
      | inl below ↦ rw below (
        All-insert_heavy (λ z. f.lt (weight y) (weight z) ≡ false) x ys
            (o.asym (weight x) (weight y) below) h.0,
        insert_heavy-IsHeaviestFirst x ys h.1,
      )
      | inr here ↦
          rw here
            ((here, All-map_imp ys (λ z. o.neg_trans (weight x) (weight y) (weight z) here) h.0), h)
    ]

    heaviest_first-IsHeaviestFirst : (xs : List A) → IsHeaviestFirst (heaviest_first weight xs)
    unfolding heaviest_first
    heaviest_first-IsHeaviestFirst [] = tt
    heaviest_first-IsHeaviestFirst (x ∷ xs) =
        insert_heavy-IsHeaviestFirst x (heaviest_first weight xs)
          (heaviest_first-IsHeaviestFirst xs)

    -- With an order on the weights, `heaviest_first` rearranges its input so that no item stands
    -- before a heavier one.
    pub heaviest_first_sorts :
        (xs : List A)
        → Perm (heaviest_first weight xs) xs × IsHeaviestFirst (heaviest_first weight xs)
    heaviest_first_sorts xs = (heaviest_first-perm xs, heaviest_first-IsHeaviestFirst xs)

    filter-insert_heavy :
        (w : W) (x : A) (ys : List A)
        → filter (as_heavy w) (insert_heavy weight x ys) ≡ filter (as_heavy w) (x ∷ ys)
    unfolding insert_heavy
    filter-insert_heavy w x [] = refl
    filter-insert_heavy w x (y ∷ ys) =
        ground (arith, filter-insert_heavy w x ys, o.neg_trans (weight x) w (weight y))

    -- Items of the same weight keep the order that they had.
    pub heaviest_first_stable :
        (w : W) (xs : List A)
        → filter (as_heavy w) (heaviest_first weight xs) ≡ filter (as_heavy w) xs
    unfolding heaviest_first
    heaviest_first_stable w [] = refl
    heaviest_first_stable w (x ∷ xs) =
        rw (filter-insert_heavy w x (heaviest_first weight xs), heaviest_first_stable w xs)
