-- ===== src/Tests/Frames.antt =====
-- A Polars over lists of rows: the documented operations have a model.
use mathlib.Core.Path.{subst}
use gleanflow.Prelude.{
  String, Bool, true, false, none, List, [], ◌∷◌, ◌++◌, map, filter, All, In, IsUnique, ◌≡◌, ◌≢◌,
  refl, sym, ap, ◌∙◌, ◌==◌, eq_refl, if◌then◌else◌, inl, inr, Bool-cases,
}
use gleanflow.Text.{ne→==}
use gleanflow.Polars.Names.{All-In_self, apart, IsUnique-right}
use gleanflow.Polars.Sources.{names}
use gleanflow.Pipeline.{contains}
use gleanflow.Polars.{Expr, Quotient, Polars}
use gleanflow.Polars.Groups.{
  Row, Column, flatten, Divides, eval, same_key, group, Shows, Rows, alias, columns_of, Semantics,
}
use gleanflow.Tests.Cells.{Cell, cells, key, key_eq, quot}
use gleanflow.Tests.Keys.{In-contains, OneRow, contains-In, firsts, firsts-OneRow, map_id}

-- The value of the first expression with the alias `n`, over the group of `r`.
cell : List String → List Expr → List (Row Cell) → Row Cell → Row Cell
cell by [] g r n = r n
cell by (e ∷ es) g r n =
    let rest = cell by es g r n in if alias e == n then eval cells e g else rest

aggregate : List String → List Expr → List (Row Cell) → Row Cell → Row Cell
aggregate by es f r n = if contains n by then r n else cell by es (group cells by r f) r n

divide : List Quotient → Row Cell → Row Cell
divide [] r n = r n
divide (q ∷ qs) r n =
    let rest = divide qs r n in if q.name == n then quot (r q.above) (r q.below) else rest

pick : List String → Row Cell → Row Cell
pick ns r n = if contains n ns then r n else none

-- A file holds the rows of a list, and a predicate is a Boolean function.
module _ (files : String → List (Row Cell)) where
  pub row_polars : Polars
  unfolding aggregate firsts divide pick
  row_polars = record {
    Frame = List (Row Cell);
    Predicate = Row Cell → Bool;
    scan_parquet = λ ps. flatten (map files ps);
    filter = filter;
    group_agg = λ by es f. map (aggregate by es f) (firsts by f);
    with_columns = λ qs f. map (divide qs) f;
    select = λ ns f. map (pick ns) f;
    concat = flatten;
    empty = [];
  }

-- The row of a key shows the expressions over the rows of that key.
cell-skip :
    (by : List String) (e : Expr) (es xs : List Expr) (g : List (Row Cell)) (r : Row Cell)
    → All (λ n. alias e ≢ n) (map alias xs)
    → All (λ (c : Column Cell). cell by es g r c.0 ≡ c.1 g) (columns_of cells xs)
    → All (λ (c : Column Cell). cell by (e ∷ es) g r c.0 ≡ c.1 g) (columns_of cells xs)
unfolding cell
cell-skip by e es [] g r u h = tt
cell-skip by e es (x ∷ xs) g r u h =
    (rw (ne→== (alias e) (alias x) u.0) h.0, cell-skip by e es xs g r u.1 h.1)

cell-All :
    (by : List String) (es : List Expr) (g : List (Row Cell)) (r : Row Cell)
    → IsUnique (map alias es)
    → All (λ (c : Column Cell). cell by es g r c.0 ≡ c.1 g) (columns_of cells es)
unfolding cell
cell-All by [] g r u = tt
cell-All by (e ∷ es) g r u =
    (rw (eq_refl (alias e)) refl, cell-skip by e es es g r u.0 (cell-All by es g r u.1))

contains-absent : (n : String) (xs : List String) → (In n xs → ⊥) → contains n xs ≡ false
contains-absent n xs h = elim (Bool-cases (contains n xs)) [
  | inl there ↦ absurd (h (In-contains n xs there))
  | inr apart ↦ apart
]

aggregate-All :
    (by : List String) (es xs : List Expr) (f : List (Row Cell)) (r : Row Cell)
    → ((n : String) → In n by → In n (map alias xs) → ⊥)
    → All
        (λ (c : Column Cell). cell by es (group cells by r f) r c.0 ≡ c.1 (group cells by r f))
        (columns_of cells xs)
    → All
        (λ (c : Column Cell). aggregate by es f r c.0 ≡ c.1 (group cells by r f))
        (columns_of cells xs)
unfolding aggregate
aggregate-All by es [] f r u h = tt
aggregate-All by es (x ∷ xs) f r u h = (
  rw (contains-absent (alias x) by (λ i. u (alias x) i (inl refl))) h.0,
  aggregate-All by es xs f r (λ n i j. u n i (inr j)) h.1,
)

aggregate-key :
    (by cs : List String) (es : List Expr) (f : List (Row Cell)) (k r : Row Cell)
    → All (λ n. In n by) cs
    → key cs k (aggregate by es f r) ≡ key cs k r
unfolding same_key aggregate
aggregate-key by [] es f k r h = refl
aggregate-key by (c ∷ cs) es f k r h =
    rw (contains-In c by h.0, aggregate-key by cs es f k r h.1) refl

group-map :
    (by : List String) (k : Row Cell) (f : Row Cell → Row Cell) (xs : List (Row Cell))
    → ((r : Row Cell) → key by k (f r) ≡ key by k r)
    → group cells by k (map f xs) ≡ map f (group cells by k xs)
group-map by k f [] h = refl
group-map by k f (x ∷ xs) h = elim (Bool-cases (key by k x)) [
  | inl here ↦ rw (h x, here) (ap (◌∷◌ (f x)) (group-map by k f xs h))
  | inr other ↦ rw (h x, other) (group-map by k f xs h)
]

group-same :
    (by : List String) (k r : Row Cell) (xs : List (Row Cell))
    → key by k r ≡ true
    → group cells by r xs ≡ group cells by k xs
group-same by k r [] h = refl
group-same by k r (x ∷ xs) h = rw (key_eq by k r x h, group-same by k r xs h) refl

aggregate-Shows :
    (by : List String) (es : List Expr) (f : List (Row Cell)) (k : Row Cell)
    → IsUnique (by ++ map alias es)
    → Shows
        (columns_of cells es)
        (group cells by k f)
        (group cells by k (map (aggregate by es f) (firsts by f)))
unfolding OneRow Shows
aggregate-Shows by es f k u =
    let keep = λ (r : Row Cell). aggregate-key by by es f k r (All-In_self by) in
    let mapped = group-map by k (aggregate by es f) (firsts by f) keep in
    elim (firsts-OneRow by k f) [
      | inl h ↦ rw (mapped, h.0, h.1) refl
      | inr h ↦
          let r = h.0 in
          let shown =
            aggregate-All by es es f r (λ n. apart n by (map alias es) u)
              (cell-All by es (group cells by r f) r (IsUnique-right by (map alias es) u)) in
          rw (mapped, h.4, h.3)
            (
              aggregate by es f r,
              refl,
              subst
                  (λ g.
                    All (λ (c : Column Cell). aggregate by es f r c.0 ≡ c.1 g)
                      (columns_of cells es))
                  (group-same by k r f h.5 ∙ h.3) shown,
            )
    ]

Rows-map :
    (R : Row Cell → Row Cell → Type 0) (f : Row Cell → Row Cell) (xs : List (Row Cell))
    → ((r : Row Cell) → R r (f r))
    → Rows R xs (map f xs)
unfolding Rows
Rows-map R f [] h = refl
Rows-map R f (x ∷ xs) h = (f x, map f xs, refl, h x, Rows-map R f xs h)

pick-All :
    (ns xs : List String) (r : Row Cell) → All (λ n. In n ns) xs → All (λ n. pick ns r n ≡ r n) xs
unfolding pick
pick-All ns [] r h = tt
pick-All ns (x ∷ xs) r h = (rw (contains-In x ns h.0) refl, pick-All ns xs r h.1)

divide-skip :
    (q : Quotient) (qs xs : List Quotient) (r : Row Cell)
    → All (λ n. q.name ≢ n) (names xs)
    → All (λ (p : Quotient). divide qs r p.name ≡ quot (r p.above) (r p.below)) xs
    → All (λ (p : Quotient). divide (q ∷ qs) r p.name ≡ quot (r p.above) (r p.below)) xs
unfolding divide
divide-skip q qs [] r u h = tt
divide-skip q qs (x ∷ xs) r u h = (rw (ne→== q.name x.name u.0) h.0, divide-skip q qs xs r u.1 h.1)

divide-All :
    (qs : List Quotient) (r : Row Cell)
    → IsUnique (names qs)
    → All (λ (p : Quotient). divide qs r p.name ≡ quot (r p.above) (r p.below)) qs
unfolding divide
divide-All [] r u = tt
divide-All (q ∷ qs) r u =
    (rw (eq_refl q.name) refl, divide-skip q qs qs r u.0 (divide-All qs r u.1))

divide-other :
    (qs : List Quotient) (r : Row Cell) (n : String) → (In n (names qs) → ⊥) → divide qs r n ≡ r n
unfolding divide
divide-other [] r n h = refl
divide-other (q ∷ qs) r n h =
    rw (ne→== q.name n (λ e. h (inl e))) (divide-other qs r n (λ i. h (inr i)))

pub row_semantics : (files : String → List (Row Cell)) → Semantics (row_polars files) cells
unfolding row_polars Divides
row_semantics files = record {
  rows = λ f. f;
  file = files;
  holds = λ w. w;
  rows_scan = λ ps. refl;
  rows_filter = λ w f. refl;
  rows_empty = refl;
  rows_concat = λ fs. ap flatten (sym (map_id fs));
  group_agg_Shows = λ by es f k u. aggregate-Shows by es f k u;
  with_columns_Rows = λ qs f u.
      Rows-map (Divides cells qs) (divide qs) f
        (λ r. (divide-All qs r u, λ n h. divide-other qs r n h));
  select_Rows = λ ns f u.
      Rows-map (λ r s. All (λ n. s n ≡ r n) ns) (pick ns) f
        (λ r. pick-All ns ns r (All-In_self ns));
}
