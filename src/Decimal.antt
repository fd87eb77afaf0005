-- ===== src/Decimal.antt =====
-- Python's `str(n)` and `int(s)` on decimal numbers, as the program uses them in ids and keys.
use Prim.Native.Char.{Char, code}
use Prim.Native.String.{◌++◌}
use text.Mathlib.TextLemmas.{nil-append, cons-append}
use gleanflow.Prelude.{
  Bool, true, ◌&&◌, Option, none, some, leb, ℕ, zero, suc, List, [], ◌∷◌, ◌+◌, ◌-◌, ◌*◌, ◌/◌, ◌%◌,
  ◌<◌, String, ◌≡◌, refl, sym, ap, ◌∙◌, arith, ltb, if◌then◌else◌, inl, inr, Bool-cases,
}

-- The characters of the digits; what is above 9 does not occur.
digit_from : List Char → ℕ → Char
digit_from [] n = "0"
digit_from (c ∷ cs) zero = c
digit_from (c ∷ cs) (suc n) = digit_from cs n

abbrev all_digits : List Char
all_digits = "0" ∷ "1" ∷ "2" ∷ "3" ∷ "4" ∷ "5" ∷ "6" ∷ "7" ∷ "8" ∷ "9" ∷ []

abbrev digit : ℕ → Char
digit = digit_from all_digits

str_fuel : ℕ → ℕ → String
str_fuel zero n = ""
str_fuel (suc f) n =
    let rest = str_fuel f (n / 10) in
    if ltb n 10 then String.◌∷◌ (digit n) "" else rest ++ String.◌∷◌ (digit (n % 10)) ""

-- `str(n)`: a number has fewer digits than its value and one.
unfoldable pub str : ℕ → String
unfolding str_fuel digit_from
str n = str_fuel (suc n) n

-- The value of a text of digits, read behind the digits of `acc`.
unfoldable pub read : ℕ → String → ℕ
read acc String.[] = acc
read acc (String.◌∷◌ c s) = read (acc * 10 + (code c - 48)) s

pub read-append : (acc : ℕ) (s t : String) → read acc (s ++ t) ≡ read (read acc s) t
unfolding read
read-append acc String.[] t = rw nil-append
read-append acc (String.◌∷◌ c s) t = rw cons-append (read-append (acc * 10 + (code c - 48)) s t)

code-digit : (n : ℕ) → n < 10 → code (digit n) ≡ 48 + n
unfolding digit_from
code-digit zero h = refl
code-digit (suc zero) h = refl
code-digit (suc (suc zero)) h = refl
code-digit (suc (suc (suc zero))) h = refl
code-digit (suc (suc (suc (suc zero)))) h = refl
code-digit (suc (suc (suc (suc (suc zero))))) h = refl
code-digit (suc (suc (suc (suc (suc (suc zero)))))) h = refl
code-digit (suc (suc (suc (suc (suc (suc (suc zero))))))) h = refl
code-digit (suc (suc (suc (suc (suc (suc (suc (suc zero)))))))) h = refl
code-digit (suc (suc (suc (suc (suc (suc (suc (suc (suc zero))))))))) h = refl
code-digit (suc (suc (suc (suc (suc (suc (suc (suc (suc (suc n)))))))))) h = absurd (omega arith)

read-str_fuel : (f n : ℕ) → n < f → read 0 (str_fuel f n) ≡ n
unfolding read str_fuel
read-str_fuel zero n h = elim h [ ]
read-str_fuel (suc f) n h = elim (Bool-cases (ltb n 10)) [
  | inl small ↦ rw small (omega (arith, code-digit n (ground arith)))
  | inr large ↦
      rw (large, read-append, read-str_fuel f (n / 10) (ground arith))
        (omega (arith, code-digit (n % 10) (omega arith)))
]

-- Reading back what `str` printed.
pub read-str : (n : ℕ) → read 0 (str n) ≡ n
unfolding str
read-str n = read-str_fuel (suc n) n (omega arith)

pub str_inj : (m n : ℕ) → str m ≡ str n → m ≡ n
str_inj m n e = sym (read-str m) ∙ ap (read 0) e ∙ read-str n

unfoldable pub is_digit : ℕ → Bool
is_digit c = leb 48 c && leb c 57

unfoldable pub all_digits_in : String → Bool
all_digits_in String.[] = true
all_digits_in (String.◌∷◌ c s) = is_digit (code c) && all_digits_in s

-- `int(s)` of a text of digits; `none` stands for the ValueError, and for the signs, blanks and
-- underscores that Python also reads.
unfoldable pub int : String → Option ℕ
int String.[] = none
int (String.◌∷◌ c s) =
    if all_digits_in (String.◌∷◌ c s) then some (read 0 (String.◌∷◌ c s)) else none

str_2026 : str 2026 ≡ "2026"
unfolding str
str_2026 = refl
