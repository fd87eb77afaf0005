-- ===== src/Parts/Files.antt =====
-- The part files of store.py's `PartWriter`: their keys, their rows, and when they are stored.
use gleanflow.Prelude.{
  ℕ, suc, ◌+◌, ◌≤◌, ◌≡◌, ◌∙◌, String, some, List, [], ◌∷◌, ◌++◌, All, length, arith, ◌⊎◌, eq_iff,
  eq_refl,
}
use mathlib.Core.List.{append-nil, append_assoc}
use gleanflow.Prelude.Dict.{put, get-put}
use gleanflow.Json.{Json}
use gleanflow.Store.{Store, get_bytes}

module _ {R : Type 0} where
  abbrev pub all_rows : List (List R) → List R
  all_rows [] = []
  all_rows (p ∷ ps) = p ++ all_rows ps

  pub all_rows-snoc : (ps : List (List R)) (p : List R) → all_rows (ps ++ p ∷ []) ≡ all_rows ps ++ p
  all_rows-snoc [] p = append-nil p
  all_rows-snoc (q ∷ ps) p = rw (all_rows-snoc ps p, append_assoc)

  -- A part has rows, and at most the cap (one row, for a cap of 0).
  abbrev pub IsPart : ℕ → List R → Type 0
  IsPart top rows = (1 ≤ length rows) × ((length rows ≤ top) ⊎ (length rows ≤ 1))

  pub All-snoc :
      (P : List R → Type 0) (ps : List (List R)) (p : List R)
      → All P ps
      → P p
      → All P (ps ++ p ∷ [])
  All-snoc P [] p h hp = (hp, tt)
  All-snoc P (q ∷ ps) p h hp = (h.0, All-snoc P ps p h.1 hp)

module _ {R : Type 0} (name : ℕ → String) where
  -- The keys of the parts from number `n` on.
  abbrev pub part_keys : ℕ → List (List R) → List String
  part_keys n [] = []
  part_keys n (p ∷ ps) = name n ∷ part_keys (suc n) ps

  pub part_keys-snoc :
      (n : ℕ) (ps : List (List R)) (p : List R)
      → part_keys n (ps ++ p ∷ []) ≡ part_keys n ps ++ name (n + length ps) ∷ []
  part_keys-snoc n [] p = let same : n + 0 ≡ n = omega arith in rw same
  part_keys-snoc n (q ∷ ps) p =
      let moved : n + suc (length ps) ≡ suc n + length ps = omega arith in
      rw (moved, part_keys-snoc (suc n) ps p)

module _ {W R : Type 0} (name : ℕ → String) (encode : List R → Json W) where
  -- The parts from number `n` on are in the store.
  abbrev pub Stored : ℕ → List (List R) → Store W → Type 0
  Stored n [] s = Unit
  Stored n (p ∷ ps) s = (get_bytes (name n) s ≡ some (encode p)) × Stored (suc n) ps s

  module _ (name_inj : (m n : ℕ) → name m ≡ name n → m ≡ n) where
    Stored-put :
        (n m : ℕ) (ps : List (List R)) (v : Json W) (s : Store W)
        → n + length ps ≤ m
        → Stored n ps s
        → Stored n ps (put (name m) v s)
    Stored-put n m [] v s h st = tt
    Stored-put n m (p ∷ ps) v s h st = (
      get-put (name m) (name n) v s ∙ ground (arith, eq_iff (name m) (name n), name_inj m n, st.0),
      Stored-put (suc n) m ps v s (omega arith) st.1,
    )

    pub Stored-snoc :
        (n : ℕ) (ps : List (List R)) (p : List R) (s : Store W)
        → Stored n ps s
        → Stored n (ps ++ p ∷ []) (put (name (n + length ps)) (encode p) s)
    Stored-snoc n [] p s st =
        let same : n + 0 ≡ n = omega arith in (rw (same, get-put, eq_refl), tt)
    Stored-snoc n (q ∷ ps) p s st =
        let moved : n + suc (length ps) ≡ suc n + length ps = omega arith in
        let first =
          Stored-put n (suc n + length ps) (q ∷ []) (encode p) s (omega arith) (st.0, tt) in
        rw moved (first.0, Stored-snoc (suc n) ps p s st.1)
