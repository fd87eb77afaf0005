-- ===== src/Polars/Names.antt =====
-- gleanflow/polars.py: the columns that `_compile_aggs` asks for.
use gleanflow.Prelude.{
  All-In, String, some, List, [], ◌∷◌, ◌++◌, All, In, IsUnique, In-append_left, In-append_right,
  All-map_imp, ◌≢◌, ◌≡◌, refl, inl, inr, Option-cases,
}
use mathlib.Core.Path.{subst}
use gleanflow.Polars.{AggSpec, Op, Compiled, op_of, added, join, compile_aggs}

-- Every entry of `d` stands in `c`.
pub record Includes (c d : Compiled) : Type 0 where
  pub in_map : All (λ e. In e c.map_exprs) d.map_exprs
  pub in_reduce : All (λ e. In e c.reduce_exprs) d.reduce_exprs
  pub in_post : All (λ q. In q c.post) d.post
  pub in_final : All (λ n. In n c.final) d.final

pub All-In_self : {A : Type 0} (xs : List A) → All (λ x. In x xs) xs
All-In_self [] = tt
All-In_self (x ∷ xs) = (inl refl, All-map_imp xs (λ y i. inr i) (All-In_self xs))

left : {A : Type 0} (xs ys : List A) → All (λ x. In x (xs ++ ys)) xs
left xs ys = All-map_imp xs (λ x i. In-append_left x xs ys i) (All-In_self xs)

right : {A : Type 0} (zs xs ys : List A) → All (λ x. In x ys) zs → All (λ x. In x (xs ++ ys)) zs
right zs xs ys h = All-map_imp zs (λ x i. In-append_right x xs ys i) h

Includes-join_left : (c d : Compiled) → Includes (join c d) c
unfolding join
Includes-join_left c d = record {
  in_map = left c.map_exprs d.map_exprs;
  in_reduce = left c.reduce_exprs d.reduce_exprs;
  in_post = left c.post d.post;
  in_final = left c.final d.final;
}

Includes-join_right : (c d e : Compiled) → Includes d e → Includes (join c d) e
unfolding join
Includes-join_right c d e h = record {
  in_map = right e.map_exprs c.map_exprs d.map_exprs h.in_map;
  in_reduce = right e.reduce_exprs c.reduce_exprs d.reduce_exprs h.in_reduce;
  in_post = right e.post c.post d.post h.in_post;
  in_final = right e.final c.final d.final h.in_final;
}

-- The lists hold what each spec adds.
unfoldable pub Compiles : Compiled → AggSpec → Type 0
Compiles c a = (o : Op) × (op_of a.op ≡ some o) × Includes c (added o a.name a.col)

pub compile_aggs-All :
    (aggs : List AggSpec) (c : Compiled) → compile_aggs aggs ≡ some c → All (Compiles c) aggs
unfolding compile_aggs Compiles
compile_aggs-All [] c e = tt
compile_aggs-All (a ∷ aggs) c e = elim (Option-cases (op_of a.op)) [
  | inl bad ↦ let h = rw bad at e in cc
  | inr (o, good) ↦ elim (Option-cases (compile_aggs aggs)) [
    | inl bad ↦ let h = rw (good, bad) at e in cc
    | inr (d, rest) ↦
        let same : some (join (added o a.name a.col) d) ≡ some c = rw (good, rest) at e in
        let here : join (added o a.name a.col) d ≡ c = cc in
        subst (λ c'. All (Compiles c') (a ∷ aggs)) here
          (
            (o, good, Includes-join_left (added o a.name a.col) d),
            All-map_imp aggs (λ b h. (h.0, h.1, Includes-join_right (added o a.name a.col) d _ h.2))
                (compile_aggs-All aggs d rest),
          )
  ]
]

pub All-left : {A : Type 0} (P : A → Type 0) (xs ys : List A) → All P (xs ++ ys) → All P xs
All-left P [] ys h = tt
All-left P (x ∷ xs) ys h = (h.0, All-left P xs ys h.1)

pub IsUnique-left : (xs ys : List String) → IsUnique (xs ++ ys) → IsUnique xs
IsUnique-left [] ys u = tt
IsUnique-left (x ∷ xs) ys u = (All-left (λ y. x ≢ y) xs ys u.0, IsUnique-left xs ys u.1)

pub IsUnique-right : (xs ys : List String) → IsUnique (xs ++ ys) → IsUnique ys
IsUnique-right [] ys u = u
IsUnique-right (x ∷ xs) ys u = IsUnique-right xs ys u.1

-- The two halves share no name.
pub apart : (n : String) (xs ys : List String) → IsUnique (xs ++ ys) → In n xs → In n ys → ⊥
apart n [] ys u i j = elim i [ ]
apart n (x ∷ xs) ys u (inl e) j = All-In (λ y. x ≢ y) n (xs ++ ys) u.0 (In-append_right n xs ys j) e
apart n (x ∷ xs) ys u (inr i) j = apart n xs ys u.1 i j
