-- ===== src/Polars/Steps.antt =====
-- gleanflow/polars.py: what a step on each row does to the rows of a group.
use mathlib.Core.Path.{subst}
use gleanflow.Prelude.{
  String, true, false, List, [], ◌∷◌, All, ◌≡◌, refl, sym, ◌∙◌, inl, inr, Bool-cases,
}
use gleanflow.Polars.Groups.{Row, Column, Values, same_key, group, Shows, Rows}

module _ {V : Type 0} (v : Values V) where
  pub Rows-refl :
      (R : Row V → Row V → Type 0) → ((r : Row V) → R r r) → (xs : List (Row V)) → Rows R xs xs
  unfolding Rows
  Rows-refl R h [] = refl
  Rows-refl R h (x ∷ xs) = (x, xs, refl, h x, Rows-refl R h xs)

  pub Shows-Rows :
      (R : Row V → Row V → Type 0) (cols cols' : List (Column V)) (g out out' : List (Row V))
      → ((r s : Row V)
          → R r s
          → All (λ (c : Column V). r c.0 ≡ c.1 g) cols
          → All (λ (c : Column V). s c.0 ≡ c.1 g) cols')
      → Rows R out out'
      → Shows cols g out
      → Shows cols' g out'
  unfolding Shows Rows
  Shows-Rows R cols cols' [] [] out' f h s = h
  Shows-Rows R cols cols' [] (o ∷ out) out' f h s = cc
  Shows-Rows R cols cols' (r0 ∷ g) [] out' f h s = let e = s.1 in cc
  Shows-Rows R cols cols' (r0 ∷ g) (o ∷ o2 ∷ out) out' f h s = let e = s.1 in cc
  Shows-Rows R cols cols' (r0 ∷ g) (o ∷ []) out' f h s =
      let e = s.1 in
      let same : s.0 ≡ o = cc in
      let here = subst (λ r. All (λ (c : Column V). r c.0 ≡ c.1 (r0 ∷ g)) cols) same s.2 in
      (h.0, rw (h.2, h.4) refl, f o h.0 h.3 here)

  pub group-Rows :
      (R : Row V → Row V → Type 0) (by : List String) (k : Row V) (xs ys : List (Row V))
      → ((r s : Row V) → R r s → same_key v by k r ≡ same_key v by k s)
      → Rows R xs ys
      → Rows R (group v by k xs) (group v by k ys)
  unfolding Rows
  group-Rows R by k [] ys f h = rw h refl
  group-Rows R by k (x ∷ xs) ys f h = elim (Bool-cases (same_key v by k x)) [
    | inl in_group ↦
        let also : same_key v by k h.0 ≡ true = sym (f x h.0 h.3) ∙ in_group in
        rw (h.2, in_group, also) (h.0, group v by k h.1, refl, h.3, group-Rows R by k xs h.1 f h.4)
    | inr apart ↦
        let also : same_key v by k h.0 ≡ false = sym (f x h.0 h.3) ∙ apart in
        rw (h.2, apart, also) (group-Rows R by k xs h.1 f h.4)
  ]

  pub same_key-eq :
      (by : List String) (k r s : Row V)
      → All (λ n. s n ≡ r n) by
      → same_key v by k r ≡ same_key v by k s
  unfolding same_key
  same_key-eq [] k r s h = refl
  same_key-eq (n ∷ by) k r s h = rw (h.0, same_key-eq by k r s h.1) refl

  pub Rows-trans :
      (R S : Row V → Row V → Type 0) (xs ys zs : List (Row V))
      → Rows R xs ys
      → Rows S ys zs
      → Rows (λ r t. (s : Row V) × R r s × S s t) xs zs
  unfolding Rows
  Rows-trans R S [] [] zs h k = k
  Rows-trans R S [] (y ∷ ys) zs h k = cc
  Rows-trans R S (x ∷ xs) [] zs h k = let e = h.2 in cc
  Rows-trans R S (x ∷ xs) (y ∷ ys) zs h k =
      let e = h.2 in
      let head : h.0 ≡ y = cc in
      let tail : h.1 ≡ ys = cc in
      (
        k.0,
        k.1,
        k.2,
        (y, subst (R x) head h.3, k.3),
        Rows-trans R S xs ys k.1 (subst (Rows R xs) tail h.4) k.4,
      )
