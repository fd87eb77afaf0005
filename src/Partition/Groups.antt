-- ===== src/Partition/Groups.antt =====
-- What `pack` promises, without its state: the members are cut into consecutive groups.
use gleanflow.Prelude.{
  ℕ, suc, ◌≡◌, refl, ap, ◌⊎◌, inl, inr, true, false, ◌&&◌, List, [], ◌∷◌, ◌++◌, All, length, arith,
  String, if◌then◌else◌, Bool-cases,
}
use mathlib.Core.List.{append_assoc}
use gleanflow.Float.{FloatOps}
use gleanflow.Partition.{Chunk, nonempty, packed}

module _ {W : Type 0} where
  abbrev pub concat : List (List (Chunk W)) → List (Chunk W)
  concat [] = []
  concat (g ∷ gs) = g ++ concat gs

module _ {W : Type 0} ⦃f : FloatOps W⦄ where
  -- The sum of the weights, from the left.
  abbrev pub total_from : W → List (Chunk W) → W
  total_from w [] = w
  total_from w (c ∷ cs) = total_from (f.add w c.weight) cs

  abbrev pub total : List (Chunk W) → W
  total = total_from f.fzero

  -- A group holds one member, or its weight is not above the target.
  abbrev pub Fits : W → List (Chunk W) → Type 0
  Fits target g = (length g ≡ 1) ⊎ (f.lt target (total g) ≡ false)

  -- The first member of the next group would have taken the group above the target.
  abbrev pub Overflows : W → List (Chunk W) → List (List (Chunk W)) → Type 0
  Overflows target g ((m ∷ ms) ∷ gs) = f.lt target (f.add (total g) m.weight) ≡ true
  Overflows target g _ = Unit

  -- Each group is closed only when it must be.
  abbrev pub IsGreedy : W → List (List (Chunk W)) → Type 0
  IsGreedy target [] = Unit
  IsGreedy target (g ∷ gs) = Overflows target g gs × IsGreedy target gs

  -- The chunks for the groups, numbered from `n`.
  abbrev pub numbered : String → ℕ → List (List (Chunk W)) → List (Chunk W)
  numbered prefix n [] = []
  numbered prefix n (g ∷ gs) = packed prefix n g (total g) ∷ numbered prefix (suc n) gs

  -- The groups that the loop forms behind the group `g` that is open.
  unfoldable pub groups : W → List (Chunk W) → List (Chunk W) → List (List (Chunk W))
  groups target g [] = if nonempty g then g ∷ [] else []
  groups target g (m ∷ ms) =
      let closed = g ∷ groups target (m ∷ []) ms in
      let open_on = groups target (g ++ m ∷ []) ms in
      if nonempty g && f.lt target (f.add (total g) m.weight) then closed else open_on

  pub total_from-append :
      (w : W) (xs ys : List (Chunk W)) → total_from w (xs ++ ys) ≡ total_from (total_from w xs) ys
  total_from-append w [] ys = refl
  total_from-append w (x ∷ xs) ys = total_from-append (f.add w x.weight) xs ys

  pub concat-groups : (target : W) (g ms : List (Chunk W)) → concat (groups target g ms) ≡ g ++ ms
  unfolding groups nonempty
  concat-groups target [] [] = refl
  concat-groups target (c ∷ cs) [] = refl
  concat-groups target g (m ∷ ms) =
      elim (Bool-cases (nonempty g && f.lt target (f.add (total g) m.weight))) [
        | inl over ↦ rw over (ap (◌++◌ g) (concat-groups target (m ∷ []) ms))
        | inr fits ↦
            rw fits (rw (concat-groups target (g ++ m ∷ []) ms) (append_assoc g (m ∷ []) ms))
      ]

  Fits-grow :
      (target : W) (g : List (Chunk W)) (m : Chunk W)
      → (nonempty g && f.lt target (f.add (total g) m.weight)) ≡ false
      → Fits target (g ++ m ∷ [])
  unfolding nonempty
  Fits-grow target [] m h = inl refl
  Fits-grow target (c ∷ cs) m h = inr (rw (total_from-append f.fzero (c ∷ cs) (m ∷ [])) h)

  pub groups-Fits :
      (target : W) (g ms : List (Chunk W))
      → (nonempty g ≡ true → Fits target g)
      → All (Fits target) (groups target g ms)
  unfolding groups nonempty
  groups-Fits target [] [] h = tt
  groups-Fits target (c ∷ cs) [] h = (h refl, tt)
  groups-Fits target g (m ∷ ms) h =
      elim (Bool-cases (nonempty g && f.lt target (f.add (total g) m.weight))) [
        | inl over ↦ rw over (h (ground arith), groups-Fits target (m ∷ []) ms (λ _. inl refl))
        | inr fits ↦ rw fits (groups-Fits target (g ++ m ∷ []) ms (λ _. Fits-grow target g m fits))
      ]

  pub groups-nonempty :
      (target : W) (g ms : List (Chunk W)) → All (λ h. nonempty h ≡ true) (groups target g ms)
  unfolding groups nonempty
  groups-nonempty target [] [] = tt
  groups-nonempty target (c ∷ cs) [] = (refl, tt)
  groups-nonempty target g (m ∷ ms) =
      elim (Bool-cases (nonempty g && f.lt target (f.add (total g) m.weight))) [
        | inl over ↦ rw over (ground arith, groups-nonempty target (m ∷ []) ms)
        | inr fits ↦ rw fits (groups-nonempty target (g ++ m ∷ []) ms)
      ]

  -- The first group begins with the group that is open.
  Overflows-groups :
      (target : W) (h : List (Chunk W)) (c : Chunk W) (cs ms : List (Chunk W))
      → f.lt target (f.add (total h) c.weight) ≡ true
      → Overflows target h (groups target (c ∷ cs) ms)
  unfolding groups nonempty
  Overflows-groups target h c cs [] over = over
  Overflows-groups target h c cs (m ∷ ms) over =
      elim (Bool-cases (f.lt target (f.add (total (c ∷ cs)) m.weight))) [
        | inl next ↦ rw next over
        | inr fits ↦ rw fits (Overflows-groups target h c (cs ++ m ∷ []) ms over)
      ]

  pub groups-IsGreedy : (target : W) (g ms : List (Chunk W)) → IsGreedy target (groups target g ms)
  unfolding groups nonempty
  groups-IsGreedy target [] [] = tt
  groups-IsGreedy target (c ∷ cs) [] = (tt, tt)
  groups-IsGreedy target g (m ∷ ms) =
      elim (Bool-cases (nonempty g && f.lt target (f.add (total g) m.weight))) [
        | inl over ↦
            rw over
              (Overflows-groups target g m [] ms (ground arith), groups-IsGreedy target (m ∷ []) ms)
        | inr fits ↦ rw fits (groups-IsGreedy target (g ++ m ∷ []) ms)
      ]
