-- ===== src/Json.antt =====
-- The JSON values that the program stores and queues, over a type `W` of floats. `json.dumps` and
-- `json.loads` are inverse on them, so an object's bytes are modelled by the value they encode.
use gleanflow.Prelude.{ℕ, ◌≡◌, refl, ap, Bool, Option, none, some, List, [], ◌∷◌, String}
use gleanflow.Prelude.Dict.{Dict, get}
use gleanflow.Float.{FloatOps}

mutual
  pub data Json (W : Type 0) : Type 0 where
    null : Json W
    bool : Bool → Json W
    int : ℕ → Json W
    float : W → Json W
    str : String → Json W
    arr : Items W → Json W
    obj : Fields W → Json W

  pub data Items (W : Type 0) : Type 0 where
    nil : Items W
    cons : Json W → Items W → Items W

  pub data Fields (W : Type 0) : Type 0 where
    end : Fields W
    field : String → Json W → Fields W → Fields W

module _ {W : Type 0} where
  unfoldable pub of_list : List (Json W) → Items W
  of_list [] = nil
  of_list (x ∷ xs) = cons x (of_list xs)

  unfoldable pub to_list : Items W → List (Json W)
  to_list nil = []
  to_list (cons x xs) = x ∷ to_list xs

  unfoldable pub of_dict : Dict (Json W) → Fields W
  of_dict [] = end
  of_dict ((k, v) ∷ d) = field k v (of_dict d)

  unfoldable pub to_dict : Fields W → Dict (Json W)
  to_dict end = []
  to_dict (field k v d) = (k, v) ∷ to_dict d

  pub to_list-of_list : (xs : List (Json W)) → to_list (of_list xs) ≡ xs
  unfolding to_list of_list
  to_list-of_list [] = refl
  to_list-of_list (x ∷ xs) = ap (◌∷◌ x) (to_list-of_list xs)

  pub to_dict-of_dict : (d : Dict (Json W)) → to_dict (of_dict d) ≡ d
  unfolding to_dict of_dict
  to_dict-of_dict [] = refl
  to_dict-of_dict ((k, v) ∷ d) = ap (◌∷◌ (k, v)) (to_dict-of_dict d)

  -- A Python list or dict as a JSON value.
  unfoldable pub array : List (Json W) → Json W
  array xs = arr (of_list xs)

  unfoldable pub object : Dict (Json W) → Json W
  object d = obj (of_dict d)

  -- What a value of the expected kind holds; `none` stands for the exception that the first use of
  -- a value of another kind raises.
  abbrev pub as_str : Json W → Option String
  as_str (str s) = some s
  as_str _ = none

  abbrev pub as_nat : Json W → Option ℕ
  as_nat (int n) = some n
  as_nat _ = none

  abbrev pub as_dict : Json W → Option (Dict (Json W))
  as_dict (obj fs) = some (to_dict fs)
  as_dict _ = none

  abbrev pub as_list : Json W → Option (List (Json W))
  as_list (arr xs) = some (to_list xs)
  as_list _ = none

  abbrev pub as_float : ⦃f : FloatOps W⦄ → Json W → Option W
  as_float (float w) = some w
  as_float ⦃f⦄ (int n) = some (f.of_int n)
  as_float _ = none

  pub as_dict-object : (d : Dict (Json W)) → as_dict (object d) ≡ some d
  unfolding object
  as_dict-object d = ap some (to_dict-of_dict d)

  pub as_list-array : (xs : List (Json W)) → as_list (array xs) ≡ some xs
  unfolding array
  as_list-array xs = ap some (to_list-of_list xs)

infixl 5 ◌>>=◌
-- Steps that may raise.
abbrev pub ◌>>=◌ {ℓ κ} : {A : Type ℓ} {B : Type κ} → Option A → (A → Option B) → Option B
none >>= f = none
some a >>= f = f a

-- `d[k]` and `d.get(k, e)`, of the expected kind.
module _ {W A : Type 0} (parse : Json W → Option A) where
  abbrev pub required : String → Dict (Json W) → Option A
  required k d = do v ← get k d; parse v

  abbrev pub optional : String → A → Dict (Json W) → Option A
  optional k e d = elim (get k d) [ none ↦ some e | some v ↦ parse v ]
