-- ===== src/Polars/Groups.antt =====
-- gleanflow/polars.py: what it relies on of Polars, its documented `group_by`, and how the values of
-- a group's parts combine.
use mathlib.Core.List.{map-append}
use gleanflow.Prelude.{
  ℕ, ◌+◌, String, Bool, true, List, [], ◌∷◌, ◌++◌, map, filter, ◌&&◌, length, All, In, IsUnique,
  ◌≡◌, sym, ap, ◌∙◌,
}
use gleanflow.Polars.{Expr, col_sum, col_min, col_max, len, Quotient, Polars}

-- A row of a frame, by column.
abbrev pub Row : Type 0 → Type 0
Row V = String → V

-- A column of a result: its name, and what it holds of a group.
abbrev pub Column : Type 0 → Type 0
Column V = String × (List (Row V) → V)

abbrev pub flatten {ℓ} : {A : Type ℓ} → List (List A) → List A
flatten [] = []
flatten (xs ∷ xss) = xs ++ flatten xss

-- The values of the cells. `null` is Polars' missing value.
pub record Values (V : Type 0) : Type 0 where
  pub nought : V
  pub null : V
  pub plus : V → V → V
  pub lesser : V → V → V
  pub greater : V → V → V
  pub quot : V → V → V
  pub of_nat : ℕ → V
  -- whether two keys are the same, null among them
  pub same : V → V → Bool

-- An operation that folds a column, from `e`: `e` need not be neutral for a value of the column.
pub record IsCombining {V : Type 0} (op : V → V → V) (e : V) : Type 0 where
  pub assoc : (x y z : V) → op (op x y) z ≡ op x (op y z)
  pub start : op e e ≡ e
  pub again : (x y : V) → op e (op x y) ≡ op x y

-- Exact numbers: sums of floats are these up to rounding.
pub record IsExact {V : Type 0} (v : Values V) : Type 0 where
  pub sums : IsCombining v.plus v.nought
  pub minima : IsCombining v.lesser v.null
  pub maxima : IsCombining v.greater v.null
  pub of_nat_zero : v.of_nat 0 ≡ v.nought
  pub of_nat_add : (m n : ℕ) → v.of_nat (m + n) ≡ v.plus (v.of_nat m) (v.of_nat n)

module _ {V : Type 0} where
  unfoldable pub fold : (V → V → V) → V → List V → V
  fold op e [] = e
  fold op e (x ∷ xs) = op x (fold op e xs)

  -- The value of a column over a group.
  unfoldable pub column : (V → V → V) → V → String → List (Row V) → V
  column op e c g = fold op e (map (λ r. r c) g)

  unfoldable pub eval : Values V → Expr → List (Row V) → V
  eval v (col_sum c n) g = column v.plus v.nought c g
  eval v (col_min c n) g = column v.lesser v.null c g
  eval v (col_max c n) g = column v.greater v.null c g
  eval v (len n) g = v.of_nat (length g)

  -- `same` on the key columns
  unfoldable pub same_key : Values V → List String → Row V → Row V → Bool
  same_key v [] k r = true
  same_key v (c ∷ cs) k r = v.same (k c) (r c) && same_key v cs k r

  -- The rows with the key of `k`.
  abbrev pub group : Values V → List String → Row V → List (Row V) → List (Row V)
  group v by k rs = filter (same_key v by k) rs

  -- `out` has one row for the group `g`, with these columns, and none where `g` is empty.
  unfoldable pub Shows : List (Column V) → List (Row V) → List (Row V) → Type 0
  Shows cols [] out = out ≡ []
  Shows cols (r0 ∷ g) out =
      (r : Row V) × (out ≡ r ∷ []) × All (λ (c : Column V). r c.0 ≡ c.1 (r0 ∷ g)) cols

  -- Rows of two lists are related in their order.
  unfoldable pub Rows : (Row V → Row V → Type 0) → List (Row V) → List (Row V) → Type 0
  Rows R [] ys = ys ≡ []
  Rows R (x ∷ xs) ys = (y : Row V) × (zs : List (Row V)) × (ys ≡ y ∷ zs) × R x y × Rows R xs zs

  -- `s` is `r` with the quotients.
  unfoldable pub Divides : Values V → List Quotient → Row V → Row V → Type 0
  Divides v qs r s =
      All (λ (q : Quotient). s q.name ≡ v.quot (r q.above) (r q.below)) qs
      × ((n : String) → (In n (map (λ (q : Quotient). q.name) qs) → ⊥) → s n ≡ r n)

unfoldable pub alias : Expr → String
alias (col_sum c n) = n
alias (col_min c n) = n
alias (col_max c n) = n
alias (len n) = n

abbrev pub columns_of : {V : Type 0} → Values V → List Expr → List (Column V)
columns_of v es = map (λ e. (alias e, eval v e)) es

-- What the frames hold and what the operations document.
pub record Semantics (pl : Polars) {V : Type 0} (v : Values V) : Type 0 where
  pub rows : pl.Frame → List (Row V)
  pub file : String → List (Row V)
  pub holds : pl.Predicate → Row V → Bool
  pub rows_scan : (ps : List String) → rows (pl.scan_parquet ps) ≡ flatten (map file ps)
  pub rows_filter :
      (w : pl.Predicate) (f : pl.Frame) → rows (pl.filter w f) ≡ filter (holds w) (rows f)
  pub rows_empty : rows pl.empty ≡ []
  pub rows_concat : (fs : List pl.Frame) → rows (pl.concat fs) ≡ flatten (map rows fs)
  pub group_agg_Shows :
      (by : List String) (es : List Expr) (f : pl.Frame) (k : Row V)
      → IsUnique (by ++ map alias es)
      → Shows (columns_of v es) (group v by k (rows f)) (group v by k (rows (pl.group_agg by es f)))
  pub with_columns_Rows :
      (qs : List Quotient) (f : pl.Frame)
      → IsUnique (map (λ (q : Quotient). q.name) qs)
      → Rows (Divides v qs) (rows f) (rows (pl.with_columns qs f))
  pub select_Rows :
      (ns : List String) (f : pl.Frame)
      → IsUnique ns
      → Rows (λ r s. All (λ n. s n ≡ r n) ns) (rows f) (rows (pl.select ns f))

module _ {V : Type 0} {op : V → V → V} {e : V} (c : IsCombining op e) where
  fold-start : (xs : List V) → op e (fold op e xs) ≡ fold op e xs
  unfolding fold
  fold-start [] = c.start
  fold-start (x ∷ xs) = c.again x (fold op e xs)

  fold-append : (xs ys : List V) → fold op e (xs ++ ys) ≡ op (fold op e xs) (fold op e ys)
  unfolding fold
  fold-append [] ys = sym (fold-start ys)
  fold-append (x ∷ xs) ys = ap (op x) (fold-append xs ys) ∙ sym (c.assoc x _ _)

  pub column-append :
      (n : String) (g h : List (Row V))
      → column op e n (g ++ h) ≡ op (column op e n g) (column op e n h)
  unfolding column
  column-append n g h =
      ap (fold op e) (map-append (λ (r : Row V). r n) g h) ∙ fold-append (map (λ r. r n) g) _
