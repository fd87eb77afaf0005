-- ===== src/Cli/Pairs.antt =====
-- The run arguments of cli.py.
use Prim.Native.String.{◌++◌ as append}
use mathlib.Core.List.{append-nil, append_assoc}
use text.Mathlib.TextLemmas.{nil-append, cons-append}
use gleanflow.Prelude.{
  String, ◌≡◌, ◌≢◌, refl, sym, ap, ◌∙◌, Option, some, true, false, List, [], ◌∷◌, ◌++◌, map, All,
  IsUnique, ◌==◌, Bool-cases, inl, inr,
}
use gleanflow.Prelude.Dict.{Dict, put, has, has-put, keys}
use gleanflow.Json.{Json}
use gleanflow.Text.{Lacks, ne→==}
use gleanflow.Cli.{found, split_at, coerce, put_pair, kv_from, kv}

split_at-append :
    (k v : String) → Lacks "=" k → split_at "=" (append k (append "=" v)) ≡ some (k, v)
unfolding split_at found
split_at-append String.[] v h =
    ap (split_at "=")
      (nil-append (append "=" v) ∙ cons-append "=" "" v ∙ ap (String.◌∷◌ "=") (nil-append v))
split_at-append (String.◌∷◌ c k) v h =
    ap (split_at "=") (cons-append c k (append "=" v))
    ∙ rw (h.0, split_at)
        (ap (found (String.◌∷◌ c "")) (split_at-append k v h.1)
          ∙ ap (λ (s : String). some (s, v))
              (cons-append c "" k ∙ ap (String.◌∷◌ c) (nil-append k)))

put_absent :
    {V : Type 0} (k : String) (v : V) (d : Dict V) → has k d ≡ false → put k v d ≡ d ++ (k, v) ∷ []
unfolding has put
put_absent k v [] h = refl
put_absent k v ((j, w) ∷ d) h = elim (Bool-cases (j == k)) [
  | inl here ↦ let c : true ≡ false = rw here at h in cc
  | inr other ↦ rw other (ap (◌∷◌ (j, w)) (put_absent k v d (rw other at h)))
]

nothing_yet : (V : Type 0) (ps : List (String × String)) → All (λ p. has {V = V} p.0 [] ≡ false) ps
unfolding has
nothing_yet V [] = tt
nothing_yet V (p ∷ ps) = (refl, nothing_yet V ps)

-- An argument of the command line.
abbrev pub pair_text : String × String → String
pair_text p = append p.0 (append "=" p.1)

module _ {W : Type 0} (to_int : String → Option (Json W)) (to_float : String → Option W) where
  abbrev pub coerced : String × String → String × Json W
  coerced p = (p.0, coerce to_int to_float p.1)

  absent_after :
      (k : String) (v : Json W) (out : Dict (Json W)) (ps : List (String × String))
      → All (λ j. k ≢ j) (keys ps)
      → All (λ p. has p.0 out ≡ false) ps
      → All (λ p. has p.0 (put k v out) ≡ false) ps
  absent_after k v out [] d a = tt
  absent_after k v out (p ∷ ps) d a =
      let other : (k == p.0) ≡ false = ne→== k p.0 d.0 in
      (rw (has-put, other) a.0, absent_after k v out ps d.1 a.1)

  kv_from-pairs :
      (out : Dict (Json W)) (ps : List (String × String))
      → All (λ p. Lacks "=" p.0) ps
      → IsUnique (keys ps)
      → All (λ p. has p.0 out ≡ false) ps
      → kv_from to_int to_float out (map pair_text ps) ≡ out ++ map coerced ps
  unfolding kv_from put_pair
  kv_from-pairs out [] l u a = sym (append-nil out)
  kv_from-pairs out ((k, v) ∷ ps) l u a =
      let x = coerce to_int to_float v in
      ap (λ o. kv_from to_int to_float (put_pair to_int to_float o out) (map pair_text ps))
        (split_at-append k v l.0)
      ∙ (kv_from-pairs (put k x out) ps l.1 u.1 (absent_after k x out ps u.0 a.1)
          ∙ ap (λ d. d ++ map coerced ps) (put_absent k x out a.0)
          ∙ append_assoc out ((k, x) ∷ []) (map coerced ps))

  -- Arguments `k=v` with distinct keys without `=` become these keys with the values `_coerce` makes of
  -- the texts, in their order.
  pub kv-pairs :
      (ps : List (String × String))
      → All (λ p. Lacks "=" p.0) ps
      → IsUnique (keys ps)
      → kv to_int to_float (map pair_text ps) ≡ map coerced ps
  unfolding kv
  kv-pairs ps l u = kv_from-pairs [] ps l u (nothing_yet (Json W) ps)
