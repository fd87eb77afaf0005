-- ===== src/Tests/Cells.antt =====
-- Cells of a frame that are a number or nothing, and the equality of keys.
use gleanflow.Prelude.{
  ℕ, ◌+◌, ◌/◌, min, max, String, Bool, true, false, Option, none, some, List, [], ◌∷◌, ◌≡◌, refl,
  ap, arith, nat_beq,
}
use gleanflow.Polars.Groups.{Row, Values, IsExact, same_key}

-- A cell: a number, or nothing.
abbrev pub Cell : Type 0
Cell = Option ℕ

unfoldable pub number : Cell → ℕ
number none = 0
number (some n) = n

abbrev pub plus : Cell → Cell → Cell
unfolding number
plus a b = some (number a + number b)

unfoldable pub quot : Cell → Cell → Cell
unfolding number
quot a b = some (number a / number b)

abbrev pub lesser : Cell → Cell → Cell
lesser none b = b
lesser (some a) none = some a
lesser (some a) (some b) = some (min a b)

abbrev pub greater : Cell → Cell → Cell
greater none b = b
greater (some a) none = some a
greater (some a) (some b) = some (max a b)

abbrev pub same : Cell → Cell → Bool
same none none = true
same none (some b) = false
same (some a) none = false
same (some a) (some b) = nat_beq a b

abbrev pub cells : Values Cell
cells = record {
  nought = some 0;
  null = none;
  plus = plus;
  lesser = lesser;
  greater = greater;
  quot = quot;
  of_nat = some;
  same = same;
}

pub lesser_assoc : (x y z : Cell) → lesser (lesser x y) z ≡ lesser x (lesser y z)
lesser_assoc none y z = refl
lesser_assoc (some x) none z = refl
lesser_assoc (some x) (some y) none = refl
lesser_assoc (some x) (some y) (some z) = ap some (omega arith)

pub greater_assoc : (x y z : Cell) → greater (greater x y) z ≡ greater x (greater y z)
greater_assoc none y z = refl
greater_assoc (some x) none z = refl
greater_assoc (some x) (some y) none = refl
greater_assoc (some x) (some y) (some z) = ap some (omega arith)

pub cells-IsExact : IsExact cells
unfolding number
cells-IsExact = record {
  sums = record {
    assoc = λ x y z. ap some (omega arith);
    start = refl;
    again = λ x y. ap some (omega arith);
  };
  minima = record { assoc = lesser_assoc; start = refl; again = λ x y. refl };
  maxima = record { assoc = greater_assoc; start = refl; again = λ x y. refl };
  of_nat_zero = refl;
  of_nat_add = λ m n. refl;
}

-- `same_key` is an equivalence.
abbrev pub key : List String → Row Cell → Row Cell → Bool
key by r s = same_key cells by r s

pub same_eq : (a b : Cell) → same a b ≡ true → a ≡ b
same_eq none none h = refl
same_eq none (some b) h = cc
same_eq (some a) none h = cc
same_eq (some a) (some b) h = ap some (ground arith)

pub key_eq : (by : List String) (r s t : Row Cell) → key by r s ≡ true → key by r t ≡ key by s t
unfolding same_key
key_eq [] r s t h = refl
key_eq (c ∷ by) r s t h =
    let here : same (r c) (s c) ≡ true = ground arith in
    let rest : key by r s ≡ true = ground arith in
    rw (same_eq (r c) (s c) here, key_eq by r s t rest) refl
