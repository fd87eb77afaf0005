-- ===== src/Parts/Keys.antt =====
-- The keys that a `PartWriter` of store.py adds to a store.
use mathlib.Core.List.{append_assoc, append-nil}
use mathlib.Core.Path.{subst}
use gleanflow.Prelude.{
  ℕ, suc, ◌+◌, ◌≤◌, ◌<◌, length-append, ◌≡◌, refl, sym, ap, ◌∙◌, String, Bool, true, false, List,
  [], ◌∷◌, ◌++◌, All, In, length, arith, leb, Bool-cases, inl, inr, filter, filter-append, ◌⊎◌,
}
use gleanflow.Prelude.Dict.{has, keys, has-In, In-has, keys-put_absent}
use gleanflow.Text.{starts_with}
use gleanflow.Json.{Json}
use gleanflow.Store.{Store, list_keys}
use gleanflow.Store.Listing.{text_le, sorted_by, insert_by}
use gleanflow.Parts.{PartWriter, open_parts, put_part, flush_part, add_record, write, close}
use gleanflow.Parts.Files.{part_keys, all_rows, IsPart, Stored}
use gleanflow.Parts.Written.{
  parts_hold_rows, IsWritten, add_record-IsWritten, write-IsWritten, open_parts-IsWritten,
}

In-append : (a : String) (xs ys : List String) → In a (xs ++ ys) → In a xs ⊎ In a ys
In-append a [] ys i = inr i
In-append a (x ∷ xs) ys (inl e) = inl (inl e)
In-append a (x ∷ xs) ys (inr i) = elim (In-append a xs ys i) [ inl l ↦ inl (inr l) | inr r ↦ inr r ]

module _ {W R : Type 0} (name : ℕ → String) (encode : List R → Json W)
    (name_inj : (m n : ℕ) → name m ≡ name n → m ≡ n) (s0 : Store W)
    (fresh : (n : ℕ) → has (name n) s0 ≡ false) where
  -- The keys of the store are those before and those of the parts.
  Grown : PartWriter W R → Type 0
  Grown p = keys p.store ≡ keys s0 ++ p.keys

  later_name :
      (n m : ℕ) (ps : List (List R)) → n + length ps ≤ m → In (name m) (part_keys name n ps) → ⊥
  later_name n m [] h i = elim i [ ]
  later_name n m (p ∷ ps) h (inl e) = let same = name_inj n m e in absurd (omega arith)
  later_name n m (p ∷ ps) h (inr i) = later_name (suc n) m ps (omega arith) i

  new_name :
      (p : PartWriter W R) (parts : List (List R))
      → p.keys ≡ part_keys name 0 parts
      → p.part ≡ length parts
      → Grown p
      → has (name p.part) p.store ≡ false
  unfolding Grown
  new_name p parts l c g = elim (Bool-cases (has (name p.part) p.store)) [
    | inr absent ↦ absent
    | inl there ↦
        let i = has-In (name p.part) p.store there in
        let j : In (name p.part) (keys s0 ++ p.keys) = subst (In (name p.part)) g i in
        elim (In-append (name p.part) (keys s0) p.keys j) [
          | inl old ↦ let h = In-has (name p.part) s0 old in let f = fresh p.part in absurd (ne h f)
          | inr new ↦
              absurd (later_name 0 p.part parts (omega (arith, c)) (subst (In (name p.part)) l new))
        ]
  ]
    where
      ne : {b : Bool} → b ≡ true → b ≡ false → ⊥
      ne h f = cc

  put_part-Grown :
      (p : PartWriter W R) (parts : List (List R))
      → p.keys ≡ part_keys name 0 parts
      → p.part ≡ length parts
      → Grown p
      → Grown (put_part name encode p)
  unfolding Grown put_part
  put_part-Grown p parts l c g =
      keys-put_absent (name p.part) (encode p.buf) p.store (new_name p parts l c g)
      ∙ ap (λ ks. ks ++ name p.part ∷ []) g
      ∙ append_assoc (keys s0) p.keys (name p.part ∷ [])

  flush_part-Grown :
      (xs : List R) (p : PartWriter W R) (parts : List (List R))
      → p.keys ≡ part_keys name 0 parts
      → p.part ≡ length parts
      → Grown p
      → Grown (flush_part name encode xs p)
  unfolding flush_part
  flush_part-Grown [] p parts l c g = g
  flush_part-Grown (x ∷ xs) p parts l c g = put_part-Grown p parts l c g

  add_record-Grown :
      (rows : List R) (r : R) (p : PartWriter W R)
      → IsWritten name encode name_inj rows p
      → Grown p
      → Grown (add_record name encode p r)
  unfolding add_record Grown
  add_record-Grown rows r p w g =
      let grown = record p { buf = p.buf ++ r ∷ [] } in
      elim (Bool-cases (leb p.cap (length grown.buf))) [
        | inl full ↦ rw full (flush_part-Grown grown.buf grown w.parts w.listed w.counted g)
        | inr fits ↦ rw fits g
      ]

  write-Grown :
      (rows more : List R) (p : PartWriter W R)
      → IsWritten name encode name_inj rows p
      → Grown p
      → Grown (write name encode more p)
  unfolding write
  write-Grown rows [] p w g = g
  write-Grown rows (r ∷ more) p w g =
      write-Grown (rows ++ r ∷ []) more (add_record name encode p r)
        (add_record-IsWritten name encode name_inj rows r p w) (add_record-Grown rows r p w g)

  -- A closed writer that had written `rows` in a store without its parts has added their keys.
  close-Grown :
      (rows : List R) (p : PartWriter W R)
      → IsWritten name encode name_inj rows p
      → Grown p
      → keys (close name encode p).0.store ≡ keys s0 ++ (close name encode p).1
  unfolding close Grown
  close-Grown rows p w g = flush_part-Grown p.buf p w.parts w.listed w.counted g

  pub keys-write :
      (top : ℕ) (rows : List R)
      → keys (close name encode (write name encode rows (open_parts s0 top))).0.store
        ≡ keys s0 ++ (close name encode (write name encode rows (open_parts s0 top))).1
  unfolding Grown
  keys-write top rows =
      let p = open_parts s0 top in
      let opened = open_parts-IsWritten name encode name_inj s0 top in
      close-Grown rows (write name encode rows p)
        (write-IsWritten name encode name_inj [] rows p opened)
        (write-Grown [] rows p opened (unfold open_parts in sym (append-nil (keys s0))))

-- Keys in ascending order are sorted as they are.
unfoldable pub IsAscending : List String → Type 0
IsAscending [] = Unit
IsAscending (k ∷ []) = Unit
IsAscending (k ∷ j ∷ ks) = (text_le k j ≡ true) × IsAscending (j ∷ ks)

sorted_ascending : (ks : List String) → IsAscending ks → sorted_by (λ s. s) ks ≡ ks
unfolding sorted_by insert_by IsAscending
sorted_ascending [] h = refl
sorted_ascending (k ∷ []) h = refl
sorted_ascending (k ∷ j ∷ ks) h =
    rw (sorted_ascending (j ∷ ks) h.1) (unfold insert_by in rw h.0 refl)

absent_name :
    {W : Type 0} (s0 : Store W) (prefix k : String)
    → starts_with prefix k ≡ true
    → (has k s0 ≡ true → starts_with prefix k ≡ false)
    → has k s0 ≡ false
absent_name s0 prefix k h f = elim (Bool-cases (has k s0)) [
  | inl there ↦ let no = f there in cc
  | inr absent ↦ absent
]

filter_out :
    (p : String → Bool) (xs : List String)
    → ((k : String) → In k xs → p k ≡ false)
    → filter p xs ≡ []
filter_out p [] h = refl
filter_out p (x ∷ xs) h = rw (h x (inl refl)) (filter_out p xs (λ k i. h k (inr i)))

module _ {R : Type 0} (name : ℕ → String) where
  filter-part_keys :
      (p : String → Bool) (n : ℕ) (parts : List (List R))
      → ((m : ℕ) → p (name m) ≡ true)
      → filter p (part_keys name n parts) ≡ part_keys name n parts
  filter-part_keys p n [] h = refl
  filter-part_keys p n (q ∷ parts) h =
      rw (h n) (ap (◌∷◌ (name n)) (filter-part_keys p (suc n) parts h))

  part_keys-IsAscending :
      (n : ℕ) (parts : List (List R))
      → ((m : ℕ) → suc m < n + length parts → text_le (name m) (name (suc m)) ≡ true)
      → IsAscending (part_keys name n parts)
  unfolding IsAscending
  part_keys-IsAscending n [] h = tt
  part_keys-IsAscending n (q ∷ []) h = tt
  part_keys-IsAscending n (q ∷ r ∷ parts) h =
      (h n (omega arith), part_keys-IsAscending (suc n) (r ∷ parts) (λ m l. h m (omega arith)))

  length-all_rows :
      (top : ℕ) (parts : List (List R))
      → All (IsPart top) parts
      → length parts ≤ length (all_rows parts)
  length-all_rows top [] h = omega arith
  length-all_rows top (q ∷ parts) h =
      let rest = length-all_rows top parts h.1 in
      let sum = length-append q (all_rows parts) in let one = h.0.0 in omega (arith, rest, sum, one)

-- Where the parts' names begin with a prefix under which the store has no key, and go up, a listing
-- of the prefix gives the parts in their order.
pub list_keys-close :
    {W R : Type 0} (name : ℕ → String) (encode : List R → Json W)
    (name_inj : (m n : ℕ) → name m ≡ name n → m ≡ n) (s0 : Store W) (prefix : String) (top : ℕ)
    (rows : List R)
    → ((m : ℕ) → starts_with prefix (name m) ≡ true)
    → ((k : String) → has k s0 ≡ true → starts_with prefix k ≡ false)
    → ((m : ℕ) → suc m < length rows → text_le (name m) (name (suc m)) ≡ true)
    → let closed = close name encode (write name encode rows (open_parts s0 top)) in
      (parts : List (List R)) × (all_rows parts ≡ rows)
      × (list_keys prefix closed.0.store ≡ part_keys name 0 parts)
      × Stored name encode 0 parts closed.0.store
unfolding list_keys write
list_keys-close name encode name_inj s0 prefix top rows starts empty up =
    let closed = close name encode (write name encode rows (open_parts s0 top)) in
    let fresh : (n : ℕ) → has (name n) s0 ≡ false =
      λ n. absent_name s0 prefix (name n) (starts n) (empty (name n)) in
    let (parts, holds, capped, listed, stored) =
      parts_hold_rows name encode name_inj s0 top rows [] in
    let count = length-all_rows name top parts capped in
    let same : all_rows parts ≡ rows = holds ∙ append-nil rows in
    let size : length (all_rows parts) ≡ length rows = ap length same in
    let old : filter (starts_with prefix) (keys s0) ≡ [] =
      filter_out (starts_with prefix) (keys s0) (λ k i. empty k (In-has k s0 i)) in
    let new : keys closed.0.store ≡ keys s0 ++ part_keys name 0 parts =
      keys-write name encode name_inj s0 fresh top rows ∙ ap (λ ks. keys s0 ++ ks) listed in
    let kept : filter (starts_with prefix) (keys closed.0.store) ≡ part_keys name 0 parts =
      ap (filter (starts_with prefix)) new
      ∙ filter-append (starts_with prefix) (keys s0) (part_keys name 0 parts)
      ∙ ap (λ ks. ks ++ filter (starts_with prefix) (part_keys name 0 parts)) old
      ∙ filter-part_keys name (starts_with prefix) 0 parts starts in
    (
      parts,
      same,
      ap (sorted_by (λ s. s)) kept
          ∙ sorted_ascending (part_keys name 0 parts)
              (part_keys-IsAscending name 0 parts (λ m l. up m (omega (arith, count, size, l)))),
      stored,
    )
