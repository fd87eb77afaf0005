-- ===== src/Store/S3.antt =====
-- gleanflow/store.py: `S3Store`. The service is a parameter: its operations on its own state, and one
-- page of a listing.
use Prim.Native.String.{◌++◌ as append}
use text.Mathlib.TextLemmas.{append_cancel_left, nil-append, cons-append}
use mathlib.Core.List.{map-append}
use gleanflow.Prelude.{
  ◌⊎◌, ℕ, zero, suc, ◌+◌, ◌≤◌, String, Option, none, some, Bool, true, false, List, [], ◌∷◌, ◌++◌,
  map, ◌==◌, if◌then◌else◌, ◌≡◌, refl, sym, ap, ◌∙◌, arith, eq_iff, Bool-cases, inl, inr,
}
use gleanflow.Json.{◌>>=◌}
use gleanflow.Text.{size, drop_chars, drop_chars-append}
use gleanflow.Controller.Steps.{some_inj}
use gleanflow.Store.Interface.{StoreOps, IsStore, is_some}

-- `list_objects_v2`'s answer: the keys of `Contents`, `IsTruncated` and `NextContinuationToken`.
pub record Page : Type 0 where
  pub contents : List String
  pub truncated : Bool
  pub next : Option String

-- The operations of the service on keys of one bucket; `get_object` is `none` where it raises.
pub record S3Ops (S B : Type 0) : Type 0 where
  pub put_object : String → B → S → S
  pub get_object : String → S → Option B
  pub head_object : String → S → Bool
  pub list_objects_v2 : String → Option String → S → Page

-- What the service documents of its objects.
pub record IsS3 {S B : Type 0} (s3 : S3Ops S B) : Type 0 where
  pub get-put :
      (k j : String) (b : B) (s : S)
      → s3.get_object j (s3.put_object k b s) ≡ (if k == j then some b else s3.get_object j s)
  pub head-get : (k : String) (s : S) → s3.head_object k s ≡ is_some (s3.get_object k s)

-- `_k`
unfoldable pub object_key : String → String → String
object_key prefix key = if prefix == "" then key else append prefix (append "/" key)

-- the key of a listed object: `k[len(self.prefix) + 1:] if self.prefix else k`
unfoldable pub listed_key : String → String → String
listed_key prefix k = if prefix == "" then k else drop_chars (size prefix + 1) k

module _ {S B : Type 0} (s3 : S3Ops S B) (prefix : String) where
  unfoldable pub s3_store : StoreOps S B
  s3_store = record {
    put_bytes = λ key b s. some (s3.put_object (object_key prefix key) b s);
    get_bytes = λ key. s3.get_object (object_key prefix key);
    exists = λ key. s3.head_object (object_key prefix key);
  }

  -- The loop of `list`, on fuel; `none` stands for the KeyError of a page without its token. An
  -- empty token is none.
  unfoldable pub list_pages : ℕ → String → Option String → List String → S → Option (List String)
  list_pages zero base token out s = none
  list_pages (suc fuel) base token out s =
      let page = s3.list_objects_v2 base token s in
      let out' = out ++ map (listed_key prefix) page.contents in
      let more =
        page.next >>= λ t. list_pages fuel base (if t == "" then none else some t) out' s in
      if page.truncated then more else some out'

  unfoldable pub list : ℕ → String → S → Option (List String)
  list fuel key_prefix s = list_pages fuel (object_key prefix key_prefix) none [] s

pub object_key_inj : (p j k : String) → object_key p j ≡ object_key p k → j ≡ k
unfolding object_key
object_key_inj p j k e = elim (Bool-cases (p == "")) [
  | inl bare ↦ let h : j ≡ k = rw bare at e in h
  | inr deep ↦
      let h : append p (append "/" j) ≡ append p (append "/" k) = rw deep at e in
      append_cancel_left "/" j k (append_cancel_left p _ _ h)
]

-- What a listing takes off is what `_k` put in front.
pub listed_key-object_key : (p k : String) → listed_key p (object_key p k) ≡ k
unfolding listed_key object_key drop_chars
listed_key-object_key p k = elim (Bool-cases (p == "")) [
  | inl bare ↦ rw bare refl
  | inr deep ↦ rw deep (
      drop_chars-append 1 p (append "/" k)
      ∙ ap (drop_chars 1) (cons-append "/" "" k ∙ ap (String.◌∷◌ "/") (nil-append k)))
]

object_key-eq : (p k j : String) → (object_key p k == object_key p j) ≡ (k == j)
object_key-eq p k j = ground (
  arith,
  eq_iff k j,
  eq_iff (object_key p k) (object_key p j),
  object_key_inj p k j,
  λ (e : k ≡ j). ap (object_key p) e,
)

map_listed : (p : String) (ks : List String) → map (listed_key p) (map (object_key p) ks) ≡ ks
map_listed p [] = refl
map_listed p (k ∷ ks) =
    ap (◌∷◌ (listed_key p (object_key p k))) (map_listed p ks)
    ∙ ap (λ j. j ∷ ks) (listed_key-object_key p k)

append_assoc : {A : Type 0} (xs ys zs : List A) → (xs ++ ys) ++ zs ≡ xs ++ (ys ++ zs)
append_assoc [] ys zs = refl
append_assoc (x ∷ xs) ys zs = ap (◌∷◌ x) (append_assoc xs ys zs)

module _ {S B : Type 0} (s3 : S3Ops S B) (base : String) (s : S) where
  -- From a token on, the service gives the keys `ks` on at most `n` pages. Every page but the last is
  -- marked as truncated and has the token of the next.
  unfoldable pub Serves : ℕ → Option String → List String → Type 0
  Serves zero token ks = ⊥
  Serves (suc n) token ks =
      let page = s3.list_objects_v2 base token s in
      ((page.truncated ≡ false) × (ks ≡ page.contents))
      ⊎ ((t : String) × (rest : List String) × (page.truncated ≡ true)
          × (page.next ≡ some t)
          × ((t == "") ≡ false)
          × (ks ≡ page.contents ++ rest)
          × Serves n (some t) rest)

  list_pages-Serves :
      (prefix : String) (n fuel : ℕ) (token : Option String) (ks out : List String)
      → Serves n token ks
      → n ≤ fuel
      → list_pages s3 prefix fuel base token out s ≡ some (out ++ map (listed_key prefix) ks)
  unfolding Serves list_pages
  list_pages-Serves prefix zero fuel token ks out h le = absurd h
  list_pages-Serves prefix (suc n) zero token ks out h le = absurd (omega arith)
  list_pages-Serves prefix (suc n) (suc fuel) token ks out (inl h) le = rw (h.0, h.1) refl
  list_pages-Serves prefix (suc n) (suc fuel) token ks out (inr h) le =
      let page = s3.list_objects_v2 base token s in
      let out' = out ++ map (listed_key prefix) page.contents in
      let rest = list_pages-Serves prefix n fuel (some h.0) h.1 out' h.6 (omega arith) in
      rw (h.2, h.3, h.4, rest, h.5)
        (ap some (
          append_assoc out (map (listed_key prefix) page.contents) (map (listed_key prefix) h.1)
          ∙ ap (◌++◌ out) (sym (map-append (listed_key prefix) page.contents h.1))))

-- Where the service gives the objects of the keys on at most `n` pages, `list` with fuel for them
-- ends and gives all the keys, in the order of the pages, without the store's prefix.
pub list-Serves :
    {S B : Type 0} (s3 : S3Ops S B) (prefix key_prefix : String) (n fuel : ℕ) (ks : List String)
    (s : S)
    → Serves s3 (object_key prefix key_prefix) s n none (map (object_key prefix) ks)
    → n ≤ fuel
    → list s3 prefix fuel key_prefix s ≡ some ks
unfolding list
list-Serves s3 prefix key_prefix n fuel ks s h le =
    list_pages-Serves s3 (object_key prefix key_prefix) s prefix n fuel none
      (map (object_key prefix) ks) [] h le
    ∙ ap some (map_listed prefix ks)

module _ {S B : Type 0} {s3 : S3Ops S B} (lawful : IsS3 s3) (prefix : String) where
  -- Every key is accepted.
  pub s3_store-IsStore : IsStore (λ k. Unit) (s3_store s3 prefix)
  unfolding s3_store is_some
  s3_store-IsStore = record {
    get_put = λ k j b s s' hk hj e.
        ap (λ (t : S). s3.get_object (object_key prefix j) t) (sym (some_inj e))
        ∙ lawful.get-put (object_key prefix k) (object_key prefix j) b s
        ∙ ap (λ (t : Bool). if t then some b else s3.get_object (object_key prefix j) s)
            (object_key-eq prefix k j);
    exists_get = λ k s b h. lawful.head-get (object_key prefix k) s ∙ rw h refl;
  }
