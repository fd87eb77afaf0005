-- ===== src/Polars/Answers.antt =====
-- gleanflow/polars.py: what an aggregation means on all rows of a group, and how the frames of the
-- map and the reduce come to it.
use gleanflow.Prelude.{
  String, Option, none, some, List, map, length, In, length-append, ◌≡◌, refl, ap, ◌∙◌,
}
use gleanflow.Polars.{
  Expr, col_sum, col_min, col_max, len, Quotient, AggSpec, Op, sum, min, max, count, mean, Compiled,
  op_of, sum_name, len_name, added,
}
use gleanflow.Polars.Groups.{
  Row, Column, flatten, Values, IsExact, column, eval, Shows, alias, columns_of,
}
use gleanflow.Polars.Parts.{In-map, IsAdditive, column-IsAdditive, parts_value}
use gleanflow.Polars.Names.{Compiles}

module _ {V : Type 0} (v : Values V) where
  -- What an aggregation means on all rows of a group.
  unfoldable pub answer : Op → String → List (Row V) → V
  answer sum col g = column v.plus v.nought col g
  answer min col g = column v.lesser v.null col g
  answer max col g = column v.greater v.null col g
  answer count col g = v.of_nat (length g)
  answer mean col g = v.quot (column v.plus v.nought col g) (v.of_nat (length g))

  -- `null` for an `op` that the code refuses
  unfoldable pub answer_by : Option Op → String → List (Row V) → V
  answer_by none col g = v.null
  answer_by (some o) col g = answer o col g

  unfoldable pub answer_of : AggSpec → Column V
  answer_of a = (a.name, answer_by (op_of a.op) a.col)

  -- The value of the parts' column that holds an expression's values.
  unfoldable pub combined : Expr → List (Row V) → V
  combined (col_sum c n) ps = column v.plus v.nought n ps
  combined (col_min c n) ps = column v.lesser v.null n ps
  combined (col_max c n) ps = column v.greater v.null n ps
  combined (len n) ps = column v.plus v.nought n ps

  module _ (x : IsExact v) where
    count-IsAdditive : (n : String) → IsAdditive v.plus v.nought (eval v (len n))
    unfolding eval
    count-IsAdditive n = record {
      on_nil = x.of_nat_zero;
      on_append = λ g h. ap v.of_nat (length-append g h) ∙ x.of_nat_add (length g) (length h);
    }

    pub combined-eval :
        {F : Type 0} (fs : List F) (G Q : F → List (Row V)) (es : List Expr)
        → ((y : F) → Shows (columns_of v es) (G y) (Q y))
        → (e : Expr) → In e es
        → combined e (flatten (map Q fs)) ≡ eval v e (flatten (map G fs))
    unfolding combined eval alias
    combined-eval fs G Q es s (col_sum c n) i =
        parts_value x.sums fs G Q (columns_of v es) n (column v.plus v.nought c) s
          (column-IsAdditive x.sums c) (In-map (λ e. (alias e, eval v e)) (col_sum c n) es i)
    combined-eval fs G Q es s (col_min c n) i =
        parts_value x.minima fs G Q (columns_of v es) n (column v.lesser v.null c) s
          (column-IsAdditive x.minima c) (In-map (λ e. (alias e, eval v e)) (col_min c n) es i)
    combined-eval fs G Q es s (col_max c n) i =
        parts_value x.maxima fs G Q (columns_of v es) n (column v.greater v.null c) s
          (column-IsAdditive x.maxima c) (In-map (λ e. (alias e, eval v e)) (col_max c n) es i)
    combined-eval fs G Q es s (len n) i =
        parts_value x.sums fs G Q (columns_of v es) n (eval v (len n)) s (count-IsAdditive n)
          (In-map (λ e. (alias e, eval v e)) (len n) es i)

  -- The values of one row of the result, from the frames before it: `ps` are the parts of the group
  -- `gs`, `r` the reduced row, `s` the row with its quotients, `t` the selected one.
  module _ (by : List String) (c : Compiled) (ps gs : List (Row V)) (r s t : Row V)
      (on_parts : (e : Expr) → In e c.map_exprs → combined e ps ≡ eval v e gs)
      (reduced : (e : Expr) → In e c.reduce_exprs → r (alias e) ≡ eval v e ps)
      (divided : (q : Quotient) → In q c.post → s q.name ≡ v.quot (r q.above) (r q.below))
      (kept : (n : String) → In n (map alias c.reduce_exprs) → s n ≡ r n)
      (selected : (n : String) → In n c.final → t n ≡ s n) where
    plain_value :
        (m e : Expr)
        → In m c.map_exprs
        → In e c.reduce_exprs
        → In (alias e) c.final
        → eval v e ps ≡ combined m ps
        → t (alias e) ≡ eval v m gs
    plain_value m e im ir if_ h =
        selected (alias e) if_
        ∙ kept (alias e) (In-map alias e c.reduce_exprs ir)
        ∙ reduced e ir
        ∙ h
        ∙ on_parts m im

    pub row_value : (a : AggSpec) → Compiles c a → t a.name ≡ (answer_of a).1 gs
    unfolding Compiles answer_of answer_by answer added combined eval alias
    row_value a (sum, o, i) = rw o (
        plain_value (col_sum a.col a.name) (col_sum a.name a.name) i.in_map.0 i.in_reduce.0
          i.in_final.0 refl)
    row_value a (min, o, i) = rw o (
        plain_value (col_min a.col a.name) (col_min a.name a.name) i.in_map.0 i.in_reduce.0
          i.in_final.0 refl)
    row_value a (max, o, i) = rw o (
        plain_value (col_max a.col a.name) (col_max a.name a.name) i.in_map.0 i.in_reduce.0
          i.in_final.0 refl)
    row_value a (count, o, i) = rw o (
        plain_value (len a.name) (col_sum a.name a.name) i.in_map.0 i.in_reduce.0 i.in_final.0 refl)
    row_value a (mean, o, i) =
        let quotient : Quotient = record {
          above = sum_name a.name;
          below = len_name a.name;
          name = a.name;
        } in
        let above : r (sum_name a.name) ≡ column v.plus v.nought a.col gs =
          reduced (col_sum (sum_name a.name) (sum_name a.name)) i.in_reduce.0
          ∙ on_parts (col_sum a.col (sum_name a.name)) i.in_map.0 in
        let below : r (len_name a.name) ≡ v.of_nat (length gs) =
          reduced (col_sum (len_name a.name) (len_name a.name)) i.in_reduce.1.0
          ∙ on_parts (len (len_name a.name)) i.in_map.1.0 in
        rw o (
          selected a.name i.in_final.0
          ∙ divided quotient i.in_post.0
          ∙ ap (λ y. v.quot y (r (len_name a.name))) above
          ∙ ap (v.quot (column v.plus v.nought a.col gs)) below)
