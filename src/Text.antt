-- ===== src/Text.antt =====
-- Texts built from literals and names: Python's f-strings, prefixes and suffixes.
use Prim.Native.Char.{Char, code}
use Prim.Native.String.{◌++◌}
use text.Mathlib.TextLemmas.{nil-append, cons-append, append_cancel_left, append_cancel_right}
use gleanflow.Prelude.{
  ℕ, zero, suc, ◌+◌, ◌-◌, String, ◌≡◌, ◌≢◌, ap, ◌∙◌, Bool, true, false, nat_beq, ◌&&◌, ◌||◌, arith,
  ◌==◌, eq_iff, eq_refl, refl, List, [], ◌∷◌,
}

-- The code of the character at a place, 0 behind the end.
abbrev pub code_at : ℕ → String → ℕ
code_at i String.[] = 0
code_at zero (String.◌∷◌ c s) = code c
code_at (suc i) (String.◌∷◌ c s) = code_at i s

-- No character of the text is `b`.
abbrev pub Lacks : String → String → Type 0
Lacks b String.[] = Unit
Lacks b (String.◌∷◌ c s) = ((String.◌∷◌ c "" == b) ≡ false) × Lacks b s

-- `s.startswith(p)`
unfoldable pub starts_with : String → String → Bool
starts_with String.[] s = true
starts_with (String.◌∷◌ c p) String.[] = false
starts_with (String.◌∷◌ c p) (String.◌∷◌ d s) = nat_beq (code c) (code d) && starts_with p s

-- `p in s`
unfoldable pub is_in : String → String → Bool
is_in p String.[] = starts_with p String.[]
is_in p (String.◌∷◌ d s) = starts_with p (String.◌∷◌ d s) || is_in p s

-- `f"{p}{s}.json"`
unfoldable pub wrap : String → String → String
wrap p s = p ++ (s ++ ".json")

pub wrap_inj : (p s t : String) → wrap p s ≡ wrap p t → s ≡ t
unfolding wrap
wrap_inj p s t e = append_cancel_right s t ".json" (append_cancel_left p _ _ e)

pub wrap-eq : (p s t : String) → (wrap p s == wrap p t) ≡ (s == t)
wrap-eq p s t =
    ground (
      arith,
      eq_iff s t,
      eq_iff (wrap p s) (wrap p t),
      wrap_inj p s t,
      λ (e : s ≡ t). ap (wrap p) e,
    )

pub ne→== : (s t : String) → s ≢ t → (s == t) ≡ false
ne→== s t h = ground (arith, eq_iff s t)

pub code-result : (s : String) → code_at 1 (wrap "results/" s) ≡ code "e"
unfolding wrap
code-result s = ap (code_at 1) (
    cons-append "r" "esults/" (s ++ ".json")
    ∙ ap (String.◌∷◌ "r") (cons-append "e" "sults/" (s ++ ".json")))

pub code-running : (s : String) → code_at 1 (wrap "running/" s) ≡ code "u"
unfolding wrap
code-running s = ap (code_at 1) (
    cons-append "r" "unning/" (s ++ ".json")
    ∙ ap (String.◌∷◌ "r") (cons-append "u" "nning/" (s ++ ".json")))

pub code-failure : (s : String) → code_at 1 (wrap "failures/" s) ≡ code "a"
unfolding wrap
code-failure s = ap (code_at 1) (
    cons-append "f" "ailures/" (s ++ ".json")
    ∙ ap (String.◌∷◌ "f") (cons-append "a" "ilures/" (s ++ ".json")))

-- `len(s)` and `s[n:]`, by characters
unfoldable pub size : String → ℕ
size String.[] = 0
size (String.◌∷◌ c s) = suc (size s)

unfoldable pub drop_chars : ℕ → String → String
drop_chars zero s = s
drop_chars (suc n) String.[] = String.[]
drop_chars (suc n) (String.◌∷◌ c s) = drop_chars n s

pub drop_chars-append : (n : ℕ) (p s : String) → drop_chars (size p + n) (p ++ s) ≡ drop_chars n s
unfolding size drop_chars
drop_chars-append n String.[] s = let start : 0 + n ≡ n = omega arith in rw (nil-append, start) refl
drop_chars-append n (String.◌∷◌ c p) s =
    let next : suc (size p) + n ≡ suc (size p + n) = omega arith in
    rw (cons-append, next) (drop_chars-append n p s)

-- `s.endswith(e)`
unfoldable pub ends_with : String → String → Bool
ends_with e String.[] = e == ""
ends_with e (String.◌∷◌ c s) = e == String.◌∷◌ c s || ends_with e s

ends_with_refl : (e : String) → ends_with e e ≡ true
unfolding ends_with
ends_with_refl String.[] = eq_refl ""
ends_with_refl (String.◌∷◌ c s) = rw (eq_refl (String.◌∷◌ c s)) refl

pub or_true : (b : Bool) → (b || true) ≡ true
or_true true = refl
or_true false = refl

pub ends_with-append : (p e : String) → ends_with e (p ++ e) ≡ true
unfolding ends_with
ends_with-append String.[] e = rw (nil-append e) (ends_with_refl e)
ends_with-append (String.◌∷◌ c p) e =
    rw cons-append (rw (ends_with-append p e) (or_true (e == String.◌∷◌ c (p ++ e))))

-- `s[:n]`, and `s[i:-n]` from a text that has the `n` characters
unfoldable pub take_chars : ℕ → String → String
take_chars zero s = ""
take_chars (suc n) String.[] = ""
take_chars (suc n) (String.◌∷◌ c s) = String.◌∷◌ c (take_chars n s)

unfoldable pub cut_end : ℕ → String → String
cut_end n s = take_chars (size s - n) s

-- The first of the pieces of a text grows by a character.
unfoldable pub add_to_head : Char → List String → List String
add_to_head c [] = String.◌∷◌ c "" ∷ []
add_to_head c (l ∷ ls) = String.◌∷◌ c l ∷ ls
