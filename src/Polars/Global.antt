-- ===== src/Polars/Global.antt =====
-- gleanflow/polars.py: `groupby_agg` against one `group_by` over all the rows.
use mathlib.Core.Path.{subst}
use gleanflow.Prelude.{
  All-In, String, Option, some, List, [], ◌∷◌, ◌++◌, map, All, In, In-append_left, In-append_right,
  All-map_imp, ◌≡◌, refl, sym, ap, ◌∙◌,
}
use gleanflow.Polars.{
  Expr, Quotient, Polars, AggSpec, Compiled, compile_aggs, map_frame, with_post, reduce_frame,
  concat_partials, groupby_agg,
}
use gleanflow.Polars.Groups.{
  Divides, Row, Column, flatten, Values, IsExact, eval, same_key, group, Shows, alias, columns_of,
  Semantics,
}
use gleanflow.Polars.Parts.{In-map, filter-flatten, parts_nil, nil_parts, Shows-transfer}
use gleanflow.Polars.Names.{
  All-In_self, All-left, compile_aggs-All, IsUnique-left, IsUnique-right, apart,
}
use gleanflow.Polars.Sources.{
  names, NoClash, source, source-flatten, map_frame-Shows, rows-concat_partials, with_post-Rows,
}
use gleanflow.Polars.Steps.{Rows-trans, Shows-Rows, group-Rows, same_key-eq}
use gleanflow.Polars.Answers.{answer_of, combined, combined-eval, row_value}

map-map :
    {A B C : Type 0} (f : A → B) (g : B → C) (xs : List A)
    → map g (map f xs) ≡ map (λ x. g (f x)) xs
map-map f g [] = refl
map-map f g (x ∷ xs) = ap (◌∷◌ (g (f x))) (map-map f g xs)

module _ {pl : Polars} {V : Type 0} {v : Values V} (sem : Semantics pl v) where
  constant-All :
      (es : List Expr) (r : Row V) (ps gs : List (Row V))
      → All (λ (c : Column V). r c.0 ≡ c.1 ps) (columns_of v es)
      → All (λ (c : Column V). r c.0 ≡ c.1 gs) (map (λ e. (alias e, λ rs. eval v e ps)) es)
  constant-All [] r ps gs h = tt
  constant-All (e ∷ es) r ps gs h = (h.0, constant-All es r ps gs h.1)

  answers-All :
      (aggs : List AggSpec) (t : Row V) (gs : List (Row V))
      → All (λ a. t a.name ≡ (answer_of v a).1 gs) aggs
      → All (λ (c : Column V). t c.0 ≡ c.1 gs) (map (answer_of v) aggs)
  unfolding answer_of
  answers-All [] t gs h = tt
  answers-All (a ∷ aggs) t gs h = (h.0, answers-All aggs t gs h.1)

  -- The columns of one row of the result.
  row_answers :
      (by : List String) (c : Compiled) (aggs : List AggSpec) (ps gs : List (Row V)) (r s t : Row V)
      → NoClash by c
      → compile_aggs aggs ≡ some c
      → ((e : Expr) → In e c.map_exprs → combined v e ps ≡ eval v e gs)
      → All
          (λ (k : Column V). r k.0 ≡ k.1 gs)
          (map (λ e. (alias e, λ rs. eval v e ps)) c.reduce_exprs)
      → Divides v c.post r s
      → All (λ n. t n ≡ s n) (by ++ c.final)
      → All (λ (k : Column V). t k.0 ≡ k.1 gs) (map (answer_of v) aggs)
  unfolding NoClash Divides
  row_answers by c aggs ps gs r s t u compiled on_parts reduced divided selected =
      answers-All aggs t gs (
        All-map_imp aggs
          (row_value v by c ps gs r s t on_parts
            (λ e i.
              All-In (λ (k : Column V). r k.0 ≡ k.1 gs) (alias e, λ rs. eval v e ps)
                (map (λ e. (alias e, λ rs. eval v e ps)) c.reduce_exprs) reduced
                (In-map (λ e. (alias e, λ rs. eval v e ps)) e c.reduce_exprs i))
            (λ q i.
              All-In (λ (q : Quotient). s q.name ≡ v.quot (r q.above) (r q.below)) q c.post
                divided.0 i)
            (λ n i. divided.1 n (
              apart n (by ++ map alias c.reduce_exprs) (names c.post) u.1
                (In-append_right n by (map alias c.reduce_exprs) i)))
            (λ n i.
              All-In (λ n. t n ≡ s n) n (by ++ c.final) selected (In-append_right n by c.final i)))
          (compile_aggs-All aggs c compiled))

  -- The quotients and the selection leave the key columns as they are.
  keys_kept :
      (by : List String) (c : Compiled) (r s : Row V)
      → NoClash by c
      → Divides v c.post r s
      → All (λ n. s n ≡ r n) by
  unfolding NoClash Divides
  keys_kept by c r s u divided =
      All-map_imp by
        (λ n i. divided.1 n (
          apart n (by ++ map alias c.reduce_exprs) (names c.post) u.1
            (In-append_left n by (map alias c.reduce_exprs) i)))
        (All-In_self by)

  -- The quotients and the selection, of a frame with one row for a group.
  finish :
      (by : List String) (c : Compiled) (aggs : List AggSpec) (k : Row V) (ps gs : List (Row V))
      (f : pl.Frame)
      → NoClash by c
      → compile_aggs aggs ≡ some c
      → ((e : Expr) → In e c.map_exprs → combined v e ps ≡ eval v e gs)
      → Shows
          (map (λ e. (alias e, λ rs. eval v e ps)) c.reduce_exprs)
          gs
          (group v by k (sem.rows f))
      → Shows
          (map (answer_of v) aggs)
          gs
          (group v by k (sem.rows (pl.select (by ++ c.final) (with_post pl c.post f))))
  unfolding NoClash
  finish by c aggs k ps gs f u compiled on_parts shown =
      let Selected : Row V → Row V → Type 0 = λ s t. All (λ n. t n ≡ s n) (by ++ c.final) in
      let post = with_post pl c.post f in
      let out = pl.select (by ++ c.final) post in
      Shows-Rows v (λ r t. (s : Row V) × Divides v c.post r s × Selected s t)
        (map (λ e. (alias e, λ rs. eval v e ps)) c.reduce_exprs) (map (answer_of v) aggs) gs
        (group v by k (sem.rows f)) (group v by k (sem.rows out))
        (λ r t b h. row_answers by c aggs ps gs r b.0 t u compiled on_parts h b.1 b.2)
        (Rows-trans v (Divides v c.post) Selected (group v by k (sem.rows f))
          (group v by k (sem.rows post)) (group v by k (sem.rows out))
          (group-Rows v (Divides v c.post) by k (sem.rows f) (sem.rows post)
            (λ r s d. same_key-eq v by k r s (keys_kept by c r s u d))
            (with_post-Rows sem c.post f
              (IsUnique-right (by ++ map alias c.reduce_exprs) (names c.post) u.1)))
          (group-Rows v Selected by k (sem.rows post) (sem.rows out)
            (λ s t h. same_key-eq v by k s t (All-left (λ n. t n ≡ s n) by c.final h))
            (sem.select_Rows (by ++ c.final) post u.2)))
        shown

  mapped : Option pl.Predicate → List String → Compiled → List String → pl.Frame
  mapped where_ by c paths = map_frame pl where_ by c.map_exprs (pl.scan_parquet paths)

  -- The partials of a key, and the rows that they are of.
  module _ (where_ : Option pl.Predicate) (by : List String) (c : Compiled)
      (tasks : List (List String)) (k : Row V) where
    part : List String → List (Row V)
    part paths = group v by k (sem.rows (mapped where_ by c paths))

    whole : List String → List (Row V)
    whole paths = group v by k (source sem where_ paths)

    group-parts :
        group v by k (sem.rows (concat_partials pl (map (mapped where_ by c) tasks)))
        ≡ flatten (map part tasks)
    unfolding mapped part
    group-parts =
        ap (group v by k) (
          rows-concat_partials sem (map (mapped where_ by c) tasks)
          ∙ ap flatten (map-map (mapped where_ by c) sem.rows tasks))
        ∙ filter-flatten (same_key v by k) (λ paths. sem.rows (mapped where_ by c paths)) tasks

    group-whole : group v by k (source sem where_ (flatten tasks)) ≡ flatten (map whole tasks)
    unfolding whole
    group-whole =
        ap (group v by k) (source-flatten sem where_ tasks)
        ∙ filter-flatten (same_key v by k) (source sem where_) tasks

    parts-Shows :
        NoClash by c
        → (paths : List String) → Shows (columns_of v c.map_exprs) (whole paths) (part paths)
    unfolding NoClash mapped part whole
    parts-Shows u = map_frame-Shows sem where_ by c.map_exprs k u.0

    -- The reduced frame has a row for the key just where the whole data has it.
    reduced-Shows :
        NoClash by c
        → Shows
            (map (λ e. (alias e, λ rs. eval v e (flatten (map part tasks)))) c.reduce_exprs)
            (flatten (map whole tasks))
            (group v by k (
              sem.rows (
                pl.group_agg by c.reduce_exprs
                  (concat_partials pl (map (mapped where_ by c) tasks)))))
    unfolding NoClash
    reduced-Shows u =
        let df = concat_partials pl (map (mapped where_ by c) tasks) in
        let out = group v by k (sem.rows (pl.group_agg by c.reduce_exprs df)) in
        let reduced =
          sem.group_agg_Shows by c.reduce_exprs df k
            (IsUnique-left (by ++ map alias c.reduce_exprs) (names c.post) u.1) in
        Shows-transfer (columns_of v c.reduce_exprs)
          (map (λ e. (alias e, λ rs. eval v e (flatten (map part tasks)))) c.reduce_exprs)
          (flatten (map part tasks)) (flatten (map whole tasks)) out
          (parts_nil whole part (columns_of v c.map_exprs) (parts-Shows u) tasks)
          (nil_parts whole part (columns_of v c.map_exprs) (parts-Shows u) tasks)
          (λ r.
            constant-All c.reduce_exprs r (flatten (map part tasks)) (flatten (map whole tasks)))
          (subst (λ ps. Shows (columns_of v c.reduce_exprs) ps out) group-parts reduced)

  -- For exact values, and columns that have different names in each frame, `groupby_agg` gives a
  -- frame in which each group of the filtered rows of all files has one row, with the aggregations
  -- over all rows of the group, however the files were dealt to the tasks.
  pub groupby_agg-Shows :
      (x : IsExact v) (where_ : Option pl.Predicate) (by : List String) (aggs : List AggSpec)
      (c : Compiled) (tasks : List (List String))
      → compile_aggs aggs ≡ some c
      → NoClash by c
      → (out : pl.Frame) × (groupby_agg pl where_ by aggs tasks ≡ some out)
        × ((k : Row V)
            → Shows
                (map (answer_of v) aggs)
                (group v by k (source sem where_ (flatten tasks)))
                (group v by k (sem.rows out)))
  unfolding groupby_agg reduce_frame mapped
  groupby_agg-Shows x where_ by aggs c tasks compiled u =
      let df = concat_partials pl (map (mapped where_ by c) tasks) in
      let agg = pl.group_agg by c.reduce_exprs df in
      (
        reduce_frame pl by c df,
        rw compiled refl,
        λ k.
            let ps = flatten (map (part where_ by c tasks k) tasks) in
            let gs = flatten (map (whole where_ by c tasks k) tasks) in
            subst
              (λ rs.
                Shows (map (answer_of v) aggs) rs
                  (group v by k (sem.rows (pl.select (by ++ c.final) (with_post pl c.post agg)))))
              (sym (group-whole where_ by c tasks k))
              (finish by c aggs k ps gs agg u compiled
                (λ e i.
                  combined-eval v x tasks (whole where_ by c tasks k) (part where_ by c tasks k)
                    c.map_exprs (parts-Shows where_ by c tasks k u) e i)
                (reduced-Shows where_ by c tasks k u)),
      )
