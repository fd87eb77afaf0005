-- ===== src/Prelude/Dict.antt =====
-- Python's `dict` with text keys: the entries in insertion order. An assignment to a key that is
-- there keeps its place, as in Python.
use Prim.Native.String.{String}
use mathlib.Core.Path.{◌≡◌, refl, ap, subst₂}
use mathlib.Core.Bool.{Bool, true, false}
use mathlib.Core.Option.{Option, none, some}
use mathlib.Core.List.{List, [], ◌∷◌, ◌++◌, map}
use native.Mathlib.Omega.{arith}
use text.Mathlib.Text.{◌==◌}
use text.Mathlib.TextEquality.{eq_iff}
use mathlib.Core.Logic.{inl, inr}
use gleanflow.Prelude.Lists.{All, In}
use gleanflow.Prelude.Tests.{if◌then◌else◌, Bool-cases}

abbrev pub Dict {ℓ} : Type ℓ → Type ℓ
Dict V = List (String × V)

module _ {ℓ} {V : Type ℓ} where
  -- `d.get(k)`
  unfoldable pub get : String → Dict V → Option V
  get k [] = none
  get k ((j, v) ∷ d) = if j == k then some v else get k d

  -- `k in d`
  unfoldable pub has : String → Dict V → Bool
  has k [] = false
  has k ((j, v) ∷ d) = if j == k then true else has k d

  -- `d[k] = v`
  unfoldable pub put : String → V → Dict V → Dict V
  put k v [] = (k, v) ∷ []
  put k v ((j, w) ∷ d) = let rest = put k v d in if j == k then (j, v) ∷ d else (j, w) ∷ rest

  -- `d.pop(k, None)`, where every key stands once
  unfoldable pub remove : String → Dict V → Dict V
  remove k [] = []
  remove k ((j, w) ∷ d) = let rest = remove k d in if j == k then rest else (j, w) ∷ rest

  -- `d.setdefault(k, v)`
  unfoldable pub setdefault : String → V → Dict V → Dict V
  setdefault k v [] = (k, v) ∷ []
  setdefault k v ((j, w) ∷ d) =
      let rest = setdefault k v d in if j == k then (j, w) ∷ d else (j, w) ∷ rest

  -- `d.get(k, e)`
  unfoldable pub get_or : V → Option V → V
  get_or e none = e
  get_or e (some v) = v

  -- `d.update(e)`
  unfoldable pub update : Dict V → Dict V → Dict V
  update d [] = d
  update d ((k, v) ∷ e) = update (put k v d) e

  abbrev pub keys : Dict V → List String
  keys = map (λ e. e.0)

  abbrev pub values : Dict V → List V
  values = map (λ e. e.1)

module _ {ℓ} {V : Type ℓ} where
  pub get-put :
      (k j : String) (v : V) (d : Dict V) → get j (put k v d) ≡ (if k == j then some v else get j d)
  unfolding get put
  get-put k j v [] = refl
  get-put k j v ((i, w) ∷ d) = ground (arith, eq_iff k j, eq_iff i k, eq_iff i j, get-put k j v d)

  pub get-remove :
      (k j : String) (d : Dict V) → get j (remove k d) ≡ (if k == j then none else get j d)
  unfolding get remove
  get-remove k j [] = ground arith
  get-remove k j ((i, w) ∷ d) = ground (arith, eq_iff k j, eq_iff i k, eq_iff i j, get-remove k j d)

  pub get-setdefault :
      (k j : String) (v : V) (d : Dict V)
      → get j (setdefault k v d) ≡ (if k == j then some (get_or v (get k d)) else get j d)
  unfolding get setdefault get_or
  get-setdefault k j v [] = refl
  get-setdefault k j v ((i, w) ∷ d) =
      ground (arith, eq_iff k j, eq_iff i k, eq_iff i j, get-setdefault k j v d)

  pub has-put :
      (k j : String) (v : V) (d : Dict V) → has j (put k v d) ≡ (if k == j then true else has j d)
  unfolding has put
  has-put k j v [] = refl
  has-put k j v ((i, w) ∷ d) = ground (arith, eq_iff k j, eq_iff i k, eq_iff i j, has-put k j v d)

  -- `k in d` is `d.get(k) is not None` for values that are not `None`.
  pub has-eq-get :
      (k : String) (d : Dict V) → has k d ≡ elim (get k d) [ none ↦ false | some v ↦ true ]
  unfolding has get
  has-eq-get k [] = refl
  has-eq-get k ((i, w) ∷ d) = ground (arith, has-eq-get k d)

module _ {ℓ κ} {V : Type ℓ} (P : String × V → Type κ) where
  pub All-get : (k : String) (v : V) (d : Dict V) → get k d ≡ some v → All P d → P (k, v)
  unfolding get
  All-get k v [] h a = cc
  All-get k v ((j, w) ∷ d) h a = elim (Bool-cases (j == k)) [
    | inl here ↦
        let same : w ≡ v = ground arith in subst₂ (λ i u. P (i, u)) ((eq_iff j k).0 here) same a.0
    | inr other ↦ All-get k v d (rw other at h) a.1
  ]

  pub All-remove : (k : String) (d : Dict V) → All P d → All P (remove k d)
  unfolding remove
  All-remove k [] a = tt
  All-remove k ((j, w) ∷ d) a = elim (Bool-cases (j == k)) [
    | inl here ↦ rw here (All-remove k d a.1)
    | inr other ↦ rw other (a.0, All-remove k d a.1)
  ]

  pub All-put : (k : String) (v : V) (d : Dict V) → P (k, v) → All P d → All P (put k v d)
  unfolding put
  All-put k v [] p a = (p, tt)
  All-put k v ((j, w) ∷ d) p a = elim (Bool-cases (j == k)) [
    | inl here ↦ rw here (rw ((eq_iff j k).0 here) p, a.1)
    | inr other ↦ rw other (a.0, All-put k v d p a.1)
  ]

module _ {V : Type 0} where
  pub has-In : (k : String) (fs : Dict V) → has k fs ≡ true → In k (keys fs)
  unfolding has
  has-In k [] h = cc
  has-In k ((p, b) ∷ fs) h = elim (Bool-cases (p == k)) [
    | inl here ↦ inl ((eq_iff p k).0 here)
    | inr other ↦ inr (has-In k fs (rw other at h))
  ]

  pub In-has : (k : String) (fs : Dict V) → In k (keys fs) → has k fs ≡ true
  unfolding has
  In-has k [] i = elim i [ ]
  In-has k ((p, b) ∷ fs) (inl e) = rw ((eq_iff p k).1 e) refl
  In-has k ((p, b) ∷ fs) (inr i) = let rest = In-has k fs i in ground arith

  -- A new key goes to the end.
  pub keys-put_absent :
      (k : String) (v : V) (d : Dict V) → has k d ≡ false → keys (put k v d) ≡ keys d ++ k ∷ []
  unfolding has put
  keys-put_absent k v [] h = refl
  keys-put_absent k v ((j, w) ∷ d) h = elim (Bool-cases (j == k)) [
    | inl here ↦ let c : true ≡ false = rw here at h in cc
    | inr other ↦ rw other (ap (◌∷◌ j) (keys-put_absent k v d (rw other at h)))
  ]

pub ruleset dict_laws = (get-put, get-remove, get-setdefault, has-put)
