-- ===== src/Store/Interface.antt =====
-- gleanflow/store.py: what `LocalStore` and `S3Store` promise to a client of `Store`.
use gleanflow.Prelude.{
  String, Option, none, some, Bool, true, false, List, [], ◌∷◌, ◌≡◌, ◌∙◌, sym, ap, ◌==◌, All,
  if◌then◌else◌,
}
use gleanflow.Json.{◌>>=◌}
use gleanflow.Controller.Steps.{bind_some, some_inj}
use gleanflow.Prelude.Dict.{Dict, get, put, get-put}

-- The operations, on states `S` with objects `B`; `put_bytes` and `get_bytes` are `none` where they
-- raise.
pub record StoreOps (S B : Type 0) : Type 0 where
  pub put_bytes : String → B → S → Option S
  pub get_bytes : String → S → Option B
  pub exists : String → S → Bool

unfoldable pub is_some : {B : Type 0} → Option B → Bool
is_some none = false
is_some (some b) = true

-- The laws, for the keys that a store accepts.
pub record IsStore {S B : Type 0} (Key : String → Type 0) (o : StoreOps S B) : Type 0 where
  pub get_put :
      (k j : String) (b : B) (s s' : S)
      → Key k
      → Key j
      → o.put_bytes k b s ≡ some s'
      → o.get_bytes j s' ≡ (if k == j then some b else o.get_bytes j s)
  pub exists_get : (k : String) (s : S) (b : B) → o.get_bytes k s ≡ some b → o.exists k s ≡ true

-- A run of puts.
unfoldable pub put_all : {S B : Type 0} → StoreOps S B → List (String × B) → S → Option S
put_all o [] s = some s
put_all o ((k, b) ∷ ps) s = o.put_bytes k b s >>= put_all o ps

unfoldable pub put_each : {B : Type 0} → List (String × B) → Dict B → Dict B
put_each [] d = d
put_each ((k, b) ∷ ps) d = put_each ps (put k b d)

module _ {S B : Type 0} {Key : String → Type 0} {o : StoreOps S B} (lawful : IsStore Key o) where
  -- Whatever is put, in whichever order, a lawful store in which it could be put holds what the mapping
  -- holds.
  pub put_all-put_each :
      (ps : List (String × B)) (s s' : S) (d : Dict B)
      → All (λ p. Key p.0) ps
      → put_all o ps s ≡ some s'
      → ((j : String) → Key j → o.get_bytes j s ≡ get j d)
      → (j : String) → Key j
      → o.get_bytes j s' ≡ get j (put_each ps d)
  unfolding put_all put_each
  put_all-put_each [] s s' d ks e h j kj =
      let same : s ≡ s' = some_inj e in ap (o.get_bytes j) (sym same) ∙ h j kj
  put_all-put_each ((k, b) ∷ ps) s s' d ks e h j kj =
      let (s1, put1, rest) = bind_some (o.put_bytes k b s) (put_all o ps) s' e in
      put_all-put_each ps s1 s' (put k b d) ks.1 rest
        (λ i ki.
          lawful.get_put k i b s s1 ks.0 ki put1
          ∙ ap (λ x. if k == i then some b else x) (h i ki)
          ∙ sym (get-put k i b d))
        j kj
