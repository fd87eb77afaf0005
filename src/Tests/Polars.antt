-- ===== src/Tests/Polars.antt =====
-- A group-by over three files in two map tasks.
use gleanflow.Prelude.{
  ℕ, String, none, some, Bool, true, false, not, List, [], ◌∷◌, ◌++◌, map, ◌≡◌, refl, ◌==◌,
  if◌then◌else◌, IsUnique, ◌&&◌, ◌≢◌, All, arith, eq_iff, sym,
}
use gleanflow.Pipeline.{contains}
use gleanflow.Polars.{
  Op, AggSpec, Compiled, compile_aggs, groupby_agg, op_of, added, join, sum_name, len_name,
}
use gleanflow.Polars.Groups.{Row, Shows, group, alias}
use gleanflow.Polars.Sources.{NoClash, source, names}
use gleanflow.Polars.Answers.{answer_of}
use gleanflow.Polars.Global.{groupby_agg-Shows}
use gleanflow.Tests.Cells.{Cell, cells, cells-IsExact}
use gleanflow.Tests.Frames.{row_polars, row_semantics}

abbrev row : ℕ → Cell → Row Cell
row user amount n = if n == "user" then some user else if n == "amount" then amount else none

-- The rows of three files; one amount is missing.
abbrev files : String → List (Row Cell)
files path =
    if path == "a"
    then row 1 (some 10) ∷ row 2 (some 5) ∷ []
    else if path == "b"
    then row 1 (some 20) ∷ []
    else if path == "c"
    then row 2 none ∷ row 1 (some 3) ∷ []
    else []

abbrev aggs : List AggSpec
aggs =
    record { name = "hits"; op = "count"; col = "" }
    ∷ record { name = "spend"; op = "sum"; col = "amount" }
    ∷ record { name = "avg"; op = "mean"; col = "amount" }
    ∷ []

unique_names : List String → Bool
unique_names [] = true
unique_names (x ∷ xs) = let rest = unique_names xs in not (contains x xs) && rest

all_apart : (x : String) (xs : List String) → contains x xs ≡ false → All (λ y. x ≢ y) xs
unfolding contains
all_apart x [] h = tt
all_apart x (y ∷ ys) h = (
  λ e. let same : (y == x) ≡ true = (eq_iff y x).1 (sym e) in ground arith,
  all_apart x ys (ground arith),
)

unique_names-IsUnique : (xs : List String) → unique_names xs ≡ true → IsUnique xs
unfolding unique_names
unique_names-IsUnique [] h = tt
unique_names-IsUnique (x ∷ xs) h =
    (all_apart x xs (ground arith), unique_names-IsUnique xs (ground arith))

compiled : Compiled
unfolding added join sum_name len_name
compiled = join (added Op.count "hits" "") (
    join (added Op.sum "spend" "amount") (
      join (added Op.mean "avg" "amount")
        (record { map_exprs = []; reduce_exprs = []; post = []; final = [] })))

compiled_eq : compile_aggs aggs ≡ some compiled
unfolding compile_aggs op_of compiled
compiled_eq = refl

compiled-NoClash : NoClash ("user" ∷ []) compiled
unfolding NoClash compiled unique_names alias contains added join sum_name len_name
compiled-NoClash = (
  unique_names-IsUnique ("user" ∷ [] ++ map alias compiled.map_exprs) refl,
  unique_names-IsUnique (("user" ∷ [] ++ map alias compiled.reduce_exprs) ++ names compiled.post)
      refl,
  unique_names-IsUnique ("user" ∷ [] ++ compiled.final) refl,
)

abbrev tasks : List (List String)
tasks = ("a" ∷ "b" ∷ []) ∷ ("c" ∷ []) ∷ []

groupby_agg-Shows_example :
    (out : (row_polars files).Frame) × (groupby_agg (row_polars files) none ("user" ∷ []) aggs tasks
      ≡ some out)
    × ((k : Row Cell)
        → Shows
            (map (answer_of cells) aggs)
            (group cells ("user" ∷ []) k (source (row_semantics files) none ("a" ∷ "b" ∷ "c" ∷ [])))
            (group cells ("user" ∷ []) k ((row_semantics files).rows out)))
groupby_agg-Shows_example =
    groupby_agg-Shows (row_semantics files) cells-IsExact none ("user" ∷ []) aggs compiled tasks
      compiled_eq compiled-NoClash
