-- ===== src/Tests/Keys.antt =====
-- The rows of a key among the first rows of each key.
use gleanflow.Prelude.{
  String, true, false, not, none, some, List, [], ◌∷◌, map, filter, In, ◌⊎◌, ◌≡◌, refl, sym, ap,
  ◌∙◌, arith, ◌==◌, eq_iff, inl, inr, Bool-cases,
}
use gleanflow.Polars.Names.{apart}
use gleanflow.Pipeline.{contains}
use gleanflow.Polars.Groups.{Row, same_key, group}
use gleanflow.Tests.Cells.{Cell, cells, key, key_eq, same}

-- One row for each key.
unfoldable pub firsts : List String → List (Row Cell) → List (Row Cell)
firsts by [] = []
firsts by (r ∷ rs) = r ∷ filter (λ s. not (key by r s)) (firsts by rs)

pub map_id : {A : Type 0} (xs : List (List A)) → map (λ x. x) xs ≡ xs
map_id [] = refl
map_id (x ∷ xs) = ap (◌∷◌ x) (map_id xs)

pub contains-In : (n : String) (xs : List String) → In n xs → contains n xs ≡ true
unfolding contains
contains-In n [] i = elim i [ ]
contains-In n (x ∷ xs) (inl e) = let same : (x == n) ≡ true = (eq_iff x n).1 e in ground arith
contains-In n (x ∷ xs) (inr i) = let rest = contains-In n xs i in ground arith

pub In-contains : (n : String) (xs : List String) → contains n xs ≡ true → In n xs
unfolding contains
In-contains n [] e = cc
In-contains n (x ∷ xs) e = elim (Bool-cases (x == n)) [
  | inl here ↦ inl ((eq_iff x n).0 here)
  | inr other ↦ inr (In-contains n xs (ground arith))
]

pub same_sym : (a b : Cell) → same a b ≡ same b a
same_sym none none = refl
same_sym none (some b) = refl
same_sym (some a) none = refl
same_sym (some a) (some b) = ground arith

pub key_sym : (by : List String) (r s : Row Cell) → key by r s ≡ key by s r
unfolding same_key
key_sym [] r s = refl
key_sym (c ∷ by) r s = rw (same_sym (r c) (s c), key_sym by r s) refl

module _ (by : List String) (k r : Row Cell) where
  group_here :
      (xs : List (Row Cell))
      → key by k r ≡ true
      → group cells by k (filter (λ s. not (key by r s)) xs) ≡ []
  group_here [] h = refl
  group_here (s ∷ xs) h = elim (Bool-cases (key by r s)) [
    | inl near ↦ rw near (group_here xs h)
    | inr far ↦ rw (far, key_eq by k r s h ∙ far) (group_here xs h)
  ]

  group_other :
      (xs : List (Row Cell))
      → key by k r ≡ false
      → group cells by k (filter (λ s. not (key by r s)) xs) ≡ group cells by k xs
  group_other [] h = refl
  group_other (s ∷ xs) h = elim (Bool-cases (key by r s)) [
    | inl near ↦
        let far : key by k s ≡ false =
          key_sym by k s ∙ sym (key_eq by r s k near) ∙ key_sym by r k ∙ h in
        rw (near, far) (group_other xs h)
    | inr far ↦ elim (Bool-cases (key by k s)) [
      | inl same ↦ rw (far, same) (ap (◌∷◌ s) (group_other xs h))
      | inr apart ↦ rw (far, apart) (group_other xs h)
    ]
  ]

-- The rows of a key are one, where the key occurs.
unfoldable pub OneRow : List String → Row Cell → List (Row Cell) → Type 0
OneRow by k rs =
    ((group cells by k rs ≡ []) × (group cells by k (firsts by rs) ≡ []))
    ⊎ ((r : Row Cell) × (q : Row Cell) × (g : List (Row Cell)) × (group cells by k rs ≡ q ∷ g)
        × (group cells by k (firsts by rs) ≡ r ∷ [])
        × (key by k r ≡ true))

pub firsts-OneRow : (by : List String) (k : Row Cell) (rs : List (Row Cell)) → OneRow by k rs
unfolding firsts OneRow
firsts-OneRow by k [] = inl (refl, refl)
firsts-OneRow by k (r ∷ rs) = elim (Bool-cases (key by k r)) [
  | inl here ↦ inr (
    r,
    r,
    group cells by k rs,
    rw here refl,
    rw here (ap (◌∷◌ r) (group_here by k r (firsts by rs) here)),
    here,
  )
  | inr other ↦ elim (firsts-OneRow by k rs) [
    | inl h ↦ inl (rw other h.0, rw other (group_other by k r (firsts by rs) other ∙ h.1))
    | inr h ↦
        inr (
          h.0,
          h.1,
          h.2,
          rw other h.3,
          rw other (group_other by k r (firsts by rs) other ∙ h.4),
          h.5,
        )
  ]
]
