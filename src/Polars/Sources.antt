-- ===== src/Polars/Sources.antt =====
-- gleanflow/polars.py: `groupby_agg` in terms of rows: the files of the tasks, the partials, the quotients.
use mathlib.Core.Path.{subst}
use mathlib.Core.List.{map-append}
use gleanflow.Prelude.{
  String, Option, none, some, List, [], ◌∷◌, ◌++◌, map, filter, IsUnique, ◌≡◌, refl, sym, ap, ◌∙◌,
}
use gleanflow.Polars.{Expr, Quotient, Polars, Compiled, map_frame, with_post, concat_partials}
use gleanflow.Polars.Groups.{
  Row, flatten, Values, Divides, group, Shows, Rows, alias, columns_of, Semantics,
}
use gleanflow.Polars.Parts.{filter-flatten}
use gleanflow.Polars.Steps.{Rows-refl}

abbrev pub names : List Quotient → List String
names qs = map (λ (q : Quotient). q.name) qs

-- The columns of each of the frames have different names: of the partials, of the reduced frame with
-- its quotients, and of the result.
unfoldable pub NoClash : List String → Compiled → Type 0
NoClash by c =
    IsUnique (by ++ map alias c.map_exprs)
    × IsUnique ((by ++ map alias c.reduce_exprs) ++ names c.post)
    × IsUnique (by ++ c.final)

append_assoc : {A : Type 0} (xs ys zs : List A) → (xs ++ ys) ++ zs ≡ xs ++ (ys ++ zs)
append_assoc [] ys zs = refl
append_assoc (x ∷ xs) ys zs = ap (◌∷◌ x) (append_assoc xs ys zs)

flatten-append :
    {A : Type 0} (xs ys : List (List A)) → flatten (xs ++ ys) ≡ flatten xs ++ flatten ys
flatten-append [] ys = refl
flatten-append (x ∷ xs) ys =
    ap (◌++◌ x) (flatten-append xs ys) ∙ sym (append_assoc x (flatten xs) (flatten ys))

flatten-tasks :
    {A B : Type 0} (f : A → List B) (tasks : List (List A))
    → flatten (map f (flatten tasks)) ≡ flatten (map (λ ps. flatten (map f ps)) tasks)
flatten-tasks f [] = refl
flatten-tasks f (ps ∷ tasks) =
    ap flatten (map-append f ps (flatten tasks))
    ∙ flatten-append (map f ps) (map f (flatten tasks))
    ∙ ap (◌++◌ (flatten (map f ps))) (flatten-tasks f tasks)

module _ {pl : Polars} {V : Type 0} {v : Values V} (sem : Semantics pl v) where
  -- The rows of a list of files that `where` lets through.
  unfoldable pub source : Option pl.Predicate → List String → List (Row V)
  source none paths = flatten (map sem.file paths)
  source (some w) paths = filter (sem.holds w) (flatten (map sem.file paths))

  pub source-flatten :
      (where_ : Option pl.Predicate) (tasks : List (List String))
      → source where_ (flatten tasks) ≡ flatten (map (source where_) tasks)
  unfolding source
  source-flatten none tasks = flatten-tasks sem.file tasks
  source-flatten (some w) tasks =
      ap (filter (sem.holds w)) (flatten-tasks sem.file tasks)
      ∙ filter-flatten (sem.holds w) (λ ps. flatten (map sem.file ps)) tasks

  -- A map task's frame shows the groups of its files.
  pub map_frame-Shows :
      (where_ : Option pl.Predicate) (by : List String) (es : List Expr) (k : Row V)
      → IsUnique (by ++ map alias es)
      → (paths : List String)
      → Shows
          (columns_of v es)
          (group v by k (source where_ paths))
          (group v by k (sem.rows (map_frame pl where_ by es (pl.scan_parquet paths))))
  unfolding map_frame source
  map_frame-Shows none by es k u paths =
      subst
        (λ rs.
          Shows (columns_of v es) (group v by k rs)
            (group v by k (sem.rows (pl.group_agg by es (pl.scan_parquet paths)))))
        (sem.rows_scan paths) (sem.group_agg_Shows by es (pl.scan_parquet paths) k u)
  map_frame-Shows (some w) by es k u paths =
      subst
        (λ rs.
          Shows (columns_of v es) (group v by k rs)
            (group v by k (sem.rows (pl.group_agg by es (pl.filter w (pl.scan_parquet paths))))))
        (sem.rows_filter w (pl.scan_parquet paths)
          ∙ ap (filter (sem.holds w)) (sem.rows_scan paths))
        (sem.group_agg_Shows by es (pl.filter w (pl.scan_parquet paths)) k u)

  pub rows-concat_partials :
      (fs : List pl.Frame) → sem.rows (concat_partials pl fs) ≡ flatten (map sem.rows fs)
  unfolding concat_partials
  rows-concat_partials [] = sem.rows_empty
  rows-concat_partials (f ∷ fs) = sem.rows_concat (f ∷ fs)

  pub with_post-Rows :
      (qs : List Quotient) (f : pl.Frame)
      → IsUnique (names qs)
      → Rows (Divides v qs) (sem.rows f) (sem.rows (with_post pl qs f))
  unfolding with_post Divides
  with_post-Rows [] f u = Rows-refl v (Divides v []) (λ r. (tt, λ n h. refl)) (sem.rows f)
  with_post-Rows (q ∷ qs) f u = sem.with_columns_Rows (q ∷ qs) f u
