-- ===== src/Store/Local/Listed.antt =====
-- gleanflow/store.py: what `LocalStore.list` gives.
use gleanflow.Prelude.{
  String, Bool, true, List, [], ◌∷◌, filter, In, ◌==◌, ◌⊎◌, ◌≡◌, refl, sym, ◌∙◌, arith, eq_iff,
  Bool-cases, inl, inr, ◌↔◌,
}
use gleanflow.Prelude.Dict.{has-In, In-has, Dict, has, keys}
use gleanflow.Text.{or_true, starts_with, ends_with}
use gleanflow.Store.Listing.{IsSorted, sorted_by-IsSorted, sorted_by-In}
use gleanflow.Store.Local.{below, is_dir, walked, listed, list_files}
use gleanflow.Store.Local.Laws.{Key}

module _ {B : Type 0} where
  is_dir-has :
      (d k : String) (fs : Dict B) → has k fs ≡ true → below d k ≡ true → is_dir d fs ≡ true
  unfolding has is_dir
  is_dir-has d k [] h e = cc
  is_dir-has d k ((p, b) ∷ fs) h e = elim (Bool-cases (p == k)) [
    | inl here ↦ rw ((eq_iff p k).0 here, e) refl
    | inr other ↦ rw (is_dir-has d k fs (rw other at h) e) (or_true (below d p))
  ]

In-filter :
    (p : String → Bool) (k : String) (xs : List String)
    → In k (filter p xs)
    → In k xs × (p k ≡ true)
In-filter p k [] i = elim i [ ]
In-filter p k (x ∷ xs) i = elim (Bool-cases (p x)) [
  | inl kept ↦
      let j : (x ≡ k) ⊎ In k (filter p xs) = rw kept at i in
      elim j [
        | inl e ↦ (inl e, rw (sym e) kept)
        | inr r ↦ let rest = In-filter p k xs r in (inr rest.0, rest.1)
      ]
  | inr gone ↦ let r = In-filter p k xs (rw gone at i) in (inr r.0, r.1)
]

filter-In :
    (p : String → Bool) (k : String) (xs : List String) → In k xs → p k ≡ true → In k (filter p xs)
filter-In p k [] i h = elim i [ ]
filter-In p k (x ∷ xs) (inl e) h = let here : p x ≡ true = rw e h in rw here (inl e)
filter-In p k (x ∷ xs) (inr i) h = elim (Bool-cases (p x)) [
  | inl kept ↦ rw kept (inr (filter-In p k xs i h))
  | inr gone ↦ rw gone (filter-In p k xs i h)
]

below-prefix :
    (prefix k : String) → ends_with "/" prefix ≡ true → below prefix k ≡ starts_with prefix k
unfolding below
below-prefix prefix k ends = rw (ends, or_true (prefix == "")) refl

module _ {B : Type 0} (prefix : String) (ends : ends_with "/" prefix ≡ true) where
  -- The walk reaches the files whose paths begin with the prefix.
  walked-below :
      (k : String) (fs : Dict B)
      → has k fs ≡ true
      → starts_with prefix k ≡ true
      → below (walked prefix fs) k ≡ true
  unfolding walked
  walked-below k fs h s =
      rw (is_dir-has prefix k fs h (below-prefix prefix k ends ∙ s))
        (below-prefix prefix k ends ∙ s)

  -- For a prefix that ends in `/`, `list` gives, sorted, just the keys of the objects that are there
  -- and begin with the prefix; temporary files are left out.
  pub list_files-In :
      (fs : Dict B)
      → IsSorted (λ s. s) (list_files prefix fs)
        × ((k : String)
            → In k (list_files prefix fs)
              ↔ ((has k fs ≡ true) × (starts_with prefix k ≡ true) × Key k))
  unfolding list_files listed Key
  list_files-In fs =
      let kept = filter (listed prefix (walked prefix fs)) (keys fs) in
      (
        sorted_by-IsSorted (λ s. s) kept,
        λ k. (
          λ i.
              let found =
                In-filter (listed prefix (walked prefix fs)) k (keys fs)
                  ((sorted_by-In (λ s. s) k kept).0 i) in
              let e : listed prefix (walked prefix fs) k ≡ true = found.1 in
              (In-has k fs found.0, ground arith, ground arith),
          λ h.
              let reach = walked-below k fs h.0 h.1 in
              (sorted_by-In (λ s. s) k kept).1 (
                filter-In (listed prefix (walked prefix fs)) k (keys fs) (has-In k fs h.0)
                  (rw (reach, h.1, h.2) refl)),
        ),
      )
