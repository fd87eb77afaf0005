-- ===== src/Polars/Parts.antt =====
-- gleanflow/polars.py: aggregates of aggregates. The rows that the map tasks write for one key are
-- its parts, at most one for each task.
use gleanflow.Prelude.{
  filter-append, All-In, String, Bool, List, [], ◌∷◌, ◌++◌, map, filter, All, In, ◌≡◌, refl, sym,
  ap, ◌∙◌, inl, inr,
}
use gleanflow.Polars.Groups.{Row, Column, flatten, IsCombining, fold, column, Shows, column-append}

pub In-map : {A B : Type 0} (f : A → B) (a : A) (xs : List A) → In a xs → In (f a) (map f xs)
In-map f a [] i = elim i [ ]
In-map f a (x ∷ xs) (inl e) = inl (ap f e)
In-map f a (x ∷ xs) (inr i) = inr (In-map f a xs i)

pub filter-flatten :
    {A B : Type 0} (p : A → Bool) (f : B → List A) (xs : List B)
    → filter p (flatten (map f xs)) ≡ flatten (map (λ x. filter p (f x)) xs)
filter-flatten p f [] = refl
filter-flatten p f (x ∷ xs) =
    filter-append p (f x) (flatten (map f xs)) ∙ ap (◌++◌ (filter p (f x))) (filter-flatten p f xs)

append_right_nil : {A : Type 0} (xs : List A) → xs ++ [] ≡ xs
append_right_nil [] = refl
append_right_nil (x ∷ xs) = ap (◌∷◌ x) (append_right_nil xs)

pub append_nil : {A : Type 0} (xs ys : List A) → xs ++ ys ≡ [] → (xs ≡ []) × (ys ≡ [])
append_nil [] ys e = (refl, e)
append_nil (x ∷ xs) ys e = cc

module _ {V : Type 0} where
  -- A measure of groups that `op` puts together.
  pub record IsAdditive (op : V → V → V) (e : V) (f : List (Row V) → V) : Type 0 where
    pub on_nil : f [] ≡ e
    pub on_append : (g h : List (Row V)) → f (g ++ h) ≡ op (f g) (f h)

  module _ {op : V → V → V} {e : V} (c : IsCombining op e) where
    pub column-IsAdditive : (n : String) → IsAdditive op e (column op e n)
    unfolding column fold
    column-IsAdditive n = record { on_nil = refl; on_append = column-append c n }

    part_value :
        (cols : List (Column V)) (n : String) (f : List (Row V) → V) (g p : List (Row V))
        → IsAdditive op e f
        → In (n, f) cols
        → Shows cols g p
        → column op e n p ≡ f g
    unfolding Shows column fold
    part_value cols n f [] p a i s = rw s (sym a.on_nil)
    part_value cols n f (r0 ∷ g) p a i s =
        let here = All-In (λ (k : Column V). s.0 k.0 ≡ k.1 (r0 ∷ g)) (n, f) cols s.2 i in
        rw (s.1, here)
          (ap (op (f (r0 ∷ g))) (sym a.on_nil)
            ∙ sym (a.on_append (r0 ∷ g) [])
            ∙ ap f (append_right_nil (r0 ∷ g)))

    -- Folding the parts gives the measure of the whole group.
    pub parts_value :
        {F : Type 0} (fs : List F) (G Q : F → List (Row V)) (cols : List (Column V)) (n : String)
        (f : List (Row V) → V)
        → ((x : F) → Shows cols (G x) (Q x))
        → IsAdditive op e f
        → In (n, f) cols
        → column op e n (flatten (map Q fs)) ≡ f (flatten (map G fs))
    parts_value [] G Q cols n f s a i = (column-IsAdditive n).on_nil ∙ sym a.on_nil
    parts_value (x ∷ fs) G Q cols n f s a i =
        (column-IsAdditive n).on_append (Q x) (flatten (map Q fs))
        ∙ ap (λ y. op y (column op e n (flatten (map Q fs))))
            (part_value cols n f (G x) (Q x) a i (s x))
        ∙ ap (op (f (G x))) (parts_value fs G Q cols n f s a i)
        ∙ sym (a.on_append (G x) (flatten (map G fs)))

  Shows-nil : (cols : List (Column V)) (g p : List (Row V)) → Shows cols g p → p ≡ [] → g ≡ []
  unfolding Shows
  Shows-nil cols [] p s e = refl
  Shows-nil cols (r0 ∷ g) p s e = let h = s.1 in cc

  nil-Shows : (cols : List (Column V)) (g p : List (Row V)) → Shows cols g p → g ≡ [] → p ≡ []
  unfolding Shows
  nil-Shows cols [] p s e = s
  nil-Shows cols (r0 ∷ g) p s e = cc

  module _ {F : Type 0} (G Q : F → List (Row V)) (cols : List (Column V))
      (s : (x : F) → Shows cols (G x) (Q x)) where
    pub parts_nil : (fs : List F) → flatten (map G fs) ≡ [] → flatten (map Q fs) ≡ []
    parts_nil [] e = refl
    parts_nil (x ∷ fs) e =
        let both = append_nil (G x) (flatten (map G fs)) e in
        rw (nil-Shows cols (G x) (Q x) (s x) both.0) (parts_nil fs both.1)

    pub nil_parts : (fs : List F) → flatten (map Q fs) ≡ [] → flatten (map G fs) ≡ []
    nil_parts [] e = refl
    nil_parts (x ∷ fs) e =
        let both = append_nil (Q x) (flatten (map Q fs)) e in
        rw (Shows-nil cols (G x) (Q x) (s x) both.0) (nil_parts fs both.1)

  -- The same result, read as that of another group with other columns.
  pub Shows-transfer :
      (cols cols' : List (Column V)) (ps gs out : List (Row V))
      → (gs ≡ [] → ps ≡ [])
      → (ps ≡ [] → gs ≡ [])
      → ((r : Row V)
          → All (λ (c : Column V). r c.0 ≡ c.1 ps) cols
          → All (λ (c : Column V). r c.0 ≡ c.1 gs) cols')
      → Shows cols ps out
      → Shows cols' gs out
  unfolding Shows
  Shows-transfer cols cols' [] [] out h h' f s = s
  Shows-transfer cols cols' [] (g ∷ gs) out h h' f s = let e = h' refl in cc
  Shows-transfer cols cols' (p ∷ ps) [] out h h' f s = let e = h refl in cc
  Shows-transfer cols cols' (p ∷ ps) (g ∷ gs) out h h' f s = (s.0, s.1, f s.0 s.2)
