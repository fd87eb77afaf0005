-- ===== src/Polars.antt =====
-- gleanflow/polars.py: a group-by over many files as a map stage and a reduce stage. Polars itself
-- is a parameter, the operations on frames that the code calls; the expressions that the code hands
-- to it are data. A lazy frame is the frame that it collects to.
pub mod Groups
pub mod Parts
pub mod Names
pub mod Steps
pub mod Answers
pub mod Sources
pub mod Stages
pub mod Tasks
pub mod Global
use Prim.Native.String.{◌++◌ as append}
use gleanflow.Prelude.{String, Option, none, some, List, [], ◌∷◌, ◌++◌, map, ◌==◌, if◌then◌else◌}
use gleanflow.Json.{◌>>=◌}

-- `pl.col(c).sum().alias(n)`, `.min()`, `.max()`, and `pl.len().alias(n)`
pub data Expr : Type 0 where
  col_sum col_min col_max : String → String → Expr
  len : String → Expr

-- `(pl.col(s) / pl.col(n)).alias(name)`
pub record Quotient : Type 0 where
  pub above : String
  pub below : String
  pub name : String

pub record Polars : Type 1 where
  pub Frame : Type 0
  pub Predicate : Type 0
  pub scan_parquet : List String → Frame
  pub filter : Predicate → Frame → Frame
  -- `f.group_by(by).agg(exprs)`
  pub group_agg : List String → List Expr → Frame → Frame
  pub with_columns : List Quotient → Frame → Frame
  pub select : List String → Frame → Frame
  pub concat : List Frame → Frame
  -- `pl.DataFrame()`
  pub empty : Frame

-- `(name, op, col)`; `col` is ignored for `count`
pub record AggSpec : Type 0 where
  pub name : String
  pub op : String
  pub col : String

pub data Op : Type 0 where
  sum min max count mean : Op

-- The lists that `_compile_aggs` returns.
pub record Compiled : Type 0 where
  pub map_exprs : List Expr
  pub reduce_exprs : List Expr
  pub post : List Quotient
  pub final : List String

-- The tests on `op`; `none` stands for the ValueError.
unfoldable pub op_of : String → Option Op
op_of op =
    if op == "sum"
    then some sum
    else if op == "min"
    then some min
    else if op == "max"
    then some max
    else if op == "count"
    then some count
    else if op == "mean"
    then some mean
    else none

-- `f"{name}__s"` and `f"{name}__n"`
unfoldable pub sum_name : String → String
sum_name name = append name "__s"

unfoldable pub len_name : String → String
len_name name = append name "__n"

-- What one turn of the loop of `_compile_aggs` appends to the lists.
unfoldable pub added : Op → String → String → Compiled
added sum name col = record {
  map_exprs = col_sum col name ∷ [];
  reduce_exprs = col_sum name name ∷ [];
  post = [];
  final = name ∷ [];
}
added min name col = record {
  map_exprs = col_min col name ∷ [];
  reduce_exprs = col_min name name ∷ [];
  post = [];
  final = name ∷ [];
}
added max name col = record {
  map_exprs = col_max col name ∷ [];
  reduce_exprs = col_max name name ∷ [];
  post = [];
  final = name ∷ [];
}
added count name col = record {
  map_exprs = len name ∷ [];
  reduce_exprs = col_sum name name ∷ [];
  post = [];
  final = name ∷ [];
}
added mean name col =
    let s = sum_name name in
    let n = len_name name in
    record {
      map_exprs = col_sum col s ∷ len n ∷ [];
      reduce_exprs = col_sum s s ∷ col_sum n n ∷ [];
      post = record { above = s; below = n; name = name } ∷ [];
      final = name ∷ [];
    }

unfoldable pub join : Compiled → Compiled → Compiled
join c d = record {
  map_exprs = c.map_exprs ++ d.map_exprs;
  reduce_exprs = c.reduce_exprs ++ d.reduce_exprs;
  post = c.post ++ d.post;
  final = c.final ++ d.final;
}

unfoldable pub compile_aggs : List AggSpec → Option Compiled
compile_aggs [] = some (record { map_exprs = []; reduce_exprs = []; post = []; final = [] })
compile_aggs (a ∷ aggs) = do
  op ← op_of a.op
  rest ← compile_aggs aggs
  some (join (added op a.name a.col) rest)

module _ (pl : Polars) where
  -- `_map` of `groupby_agg`; `by` is the list of key columns
  unfoldable pub map_frame : Option pl.Predicate → List String → List Expr → pl.Frame → pl.Frame
  map_frame none by map_exprs lf = pl.group_agg by map_exprs lf
  map_frame (some w) by map_exprs lf = pl.group_agg by map_exprs (pl.filter w lf)

  unfoldable pub with_post : List Quotient → pl.Frame → pl.Frame
  with_post [] out = out
  with_post (q ∷ post) out = pl.with_columns (q ∷ post) out

  -- `_reduce` of `groupby_agg`
  unfoldable pub reduce_frame : List String → Compiled → pl.Frame → pl.Frame
  reduce_frame by c df =
      pl.select (by ++ c.final) (with_post c.post (pl.group_agg by c.reduce_exprs df))

  -- `pl.concat(frames) if frames else pl.DataFrame()`
  unfoldable pub concat_partials : List pl.Frame → pl.Frame
  concat_partials [] = pl.empty
  concat_partials (f ∷ fs) = pl.concat (f ∷ fs)

  -- The frame of the reduce stage: one map task for each group of files, and one reduce task.
  unfoldable pub groupby_agg :
      Option pl.Predicate → List String → List AggSpec → List (List String) → Option pl.Frame
  groupby_agg where_ by aggs tasks = do
    c ← compile_aggs aggs
    let partials = map (λ paths. map_frame where_ by c.map_exprs (pl.scan_parquet paths)) tasks in
        some (reduce_frame by c (concat_partials partials))
