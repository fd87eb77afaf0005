-- ===== src/Store/Listing.antt =====
-- Python's `sorted` on texts, by the numbers of their characters.
use Prim.Native.Char.{code}
use gleanflow.Prelude.{
  String, Bool, true, false, List, [], ◌∷◌, In, ◌≡◌, refl, ◌⊎◌, inl, inr, if◌then◌else◌, Bool-cases,
  ltb, nat_beq, ◌&&◌, ◌||◌, arith, ◌↔◌,
}

-- Whether `s` may stand before `t`.
unfoldable pub text_le : String → String → Bool
text_le String.[] t = true
text_le (String.◌∷◌ c s) String.[] = false
text_le (String.◌∷◌ c s) (String.◌∷◌ d t) =
    ltb (code c) (code d) || nat_beq (code c) (code d) && text_le s t

text_le_total : (s t : String) → text_le s t ≡ false → text_le t s ≡ true
unfolding text_le
text_le_total String.[] t h = cc
text_le_total (String.◌∷◌ c s) String.[] h = refl
text_le_total (String.◌∷◌ c s) (String.◌∷◌ d t) h = ground (arith, text_le_total s t)

module _ {A : Type 0} (text : A → String) where
  unfoldable pub insert_by : A → List A → List A
  insert_by x [] = x ∷ []
  insert_by x (y ∷ ys) =
      let rest = insert_by x ys in if text_le (text x) (text y) then x ∷ y ∷ ys else y ∷ rest

  -- `sorted(xs, key=text)`
  unfoldable pub sorted_by : List A → List A
  sorted_by [] = []
  sorted_by (x ∷ xs) = insert_by x (sorted_by xs)

  -- Each element may stand before the next.
  unfoldable pub IsSorted : List A → Type 0
  IsSorted [] = Unit
  IsSorted (x ∷ []) = Unit
  IsSorted (x ∷ y ∷ ys) = (text_le (text x) (text y) ≡ true) × IsSorted (y ∷ ys)

  insert_below :
      (x y : A) (ys : List A)
      → text_le (text y) (text x) ≡ true
      → IsSorted (y ∷ ys)
      → IsSorted (y ∷ insert_by x ys)
  unfolding insert_by IsSorted
  insert_below x y [] h s = (h, tt)
  insert_below x y (z ∷ zs) h s = elim (Bool-cases (text_le (text x) (text z))) [
    | inl before ↦ rw before (h, (before, s.1))
    | inr after ↦ rw after (s.0, insert_below x z zs (text_le_total (text x) (text z) after) s.1)
  ]

  insert_by-IsSorted : (x : A) (ys : List A) → IsSorted ys → IsSorted (insert_by x ys)
  unfolding insert_by IsSorted
  insert_by-IsSorted x [] s = tt
  insert_by-IsSorted x (y ∷ ys) s = elim (Bool-cases (text_le (text x) (text y))) [
    | inl before ↦ rw before (before, s)
    | inr after ↦ rw after (insert_below x y ys (text_le_total (text x) (text y) after) s)
  ]

  pub sorted_by-IsSorted : (xs : List A) → IsSorted (sorted_by xs)
  unfolding sorted_by IsSorted
  sorted_by-IsSorted [] = tt
  sorted_by-IsSorted (x ∷ xs) = insert_by-IsSorted x (sorted_by xs) (sorted_by-IsSorted xs)

  insert_by-In : (a x : A) (ys : List A) → In a (insert_by x ys) ↔ In a (x ∷ ys)
  unfolding insert_by
  insert_by-In a x [] = (λ i. i, λ i. i)
  insert_by-In a x (y ∷ ys) = elim (Bool-cases (text_le (text x) (text y))) [
    | inl before ↦ rw before (λ i. i, λ i. i)
    | inr after ↦ rw after (swap_out (insert_by-In a x ys).0, swap_in (insert_by-In a x ys).1)
  ]
    where
      swap_out : {P Q X Y : Type 0} → (P → X ⊎ Y) → Q ⊎ P → X ⊎ (Q ⊎ Y)
      swap_out f (inl q) = inr (inl q)
      swap_out f (inr p) = elim (f p) [ inl x ↦ inl x | inr y ↦ inr (inr y) ]

      swap_in : {P Q X Y : Type 0} → (X ⊎ Y → P) → X ⊎ (Q ⊎ Y) → Q ⊎ P
      swap_in f (inl x) = inr (f (inl x))
      swap_in f (inr (inl q)) = inl q
      swap_in f (inr (inr y)) = inr (f (inr y))

  -- Sorting neither loses nor adds an element.
  pub sorted_by-In : (a : A) (xs : List A) → In a (sorted_by xs) ↔ In a xs
  unfolding sorted_by
  sorted_by-In a [] = (λ i. i, λ i. i)
  sorted_by-In a (x ∷ xs) =
      let head = insert_by-In a x (sorted_by xs) in
      let rest = sorted_by-In a xs in
      (
        λ i. elim (head.0 i) [ inl e ↦ inl e | inr j ↦ inr (rest.0 j) ],
        λ i. head.1 (elim i [ inl e ↦ inl e | inr j ↦ inr (rest.1 j) ]),
      )
