-- ===== src/Parts/Written.antt =====
-- What a `PartWriter` of store.py has written.
use gleanflow.Prelude.{
  ℕ, suc, ◌+◌, ◌≤◌, ◌<◌, ◌≡◌, refl, sym, ap, ◌∙◌, String, List, [], ◌∷◌, ◌++◌, All, length,
  length-append, arith, ◌⊎◌, leb, Bool-cases, inl, inr,
}
use mathlib.Core.List.{append-nil, append_assoc}
use mathlib.Core.Path.{subst}
use gleanflow.Json.{Json}
use gleanflow.Store.{Store}
use gleanflow.Parts.{PartWriter, open_parts, put_part, flush_part, add_record, write, close}
use gleanflow.Parts.Files.{
  all_rows, all_rows-snoc, IsPart, All-snoc, Stored, Stored-snoc, part_keys, part_keys-snoc,
}

module _ {W R : Type 0} (name : ℕ → String) (encode : List R → Json W)
    (name_inj : (m n : ℕ) → name m ≡ name n → m ≡ n) where
  -- What `write` keeps: the rows so far are those of the parts and of the buffer.
  pub record IsWritten (rows : List R) (p : PartWriter W R) : Type 0 where
    pub parts : List (List R)
    pub covers : all_rows parts ++ p.buf ≡ rows
    pub capped : All (IsPart p.cap) parts
    pub listed : p.keys ≡ part_keys name 0 parts
    pub counted : p.part ≡ length parts
    pub stored : Stored name encode 0 parts p.store
    pub room : (length p.buf ≤ p.cap) × ((length p.buf < p.cap) ⊎ (p.buf ≡ []))

  put_part-IsWritten :
      (rows : List R) (p : PartWriter W R) (parts : List (List R))
      → all_rows parts ++ p.buf ≡ rows
      → All (IsPart p.cap) parts
      → IsPart p.cap p.buf
      → p.keys ≡ part_keys name 0 parts
      → p.part ≡ length parts
      → Stored name encode 0 parts p.store
      → IsWritten rows (put_part name encode p)
  unfolding put_part
  put_part-IsWritten rows p parts c ok here l n st =
      let start : 0 + length parts ≡ length parts = omega arith in
      record {
        parts = parts ++ p.buf ∷ [];
        covers = rw (append-nil, all_rows-snoc) c;
        capped = All-snoc (IsPart p.cap) parts p.buf ok here;
        listed = rw (part_keys-snoc, start, n, l);
        counted = omega (arith, n, length-append parts (p.buf ∷ []));
        stored = rw n (rw start at (Stored-snoc name encode name_inj 0 parts p.buf p.store st));
        room = (omega arith, inr refl);
      }

  flush_part-snoc :
      (xs : List R) (r : R) (p : PartWriter W R)
      → flush_part name encode (xs ++ r ∷ []) p ≡ put_part name encode p
  unfolding flush_part
  flush_part-snoc [] r p = refl
  flush_part-snoc (x ∷ xs) r p = refl

  pub add_record-IsWritten :
      (rows : List R) (r : R) (p : PartWriter W R)
      → IsWritten rows p
      → IsWritten (rows ++ r ∷ []) (add_record name encode p r)
  unfolding add_record
  add_record-IsWritten rows r p w =
      let grown = record p { buf = p.buf ++ r ∷ [] } in
      let covers : all_rows w.parts ++ grown.buf ≡ rows ++ r ∷ [] =
        sym (append_assoc (all_rows w.parts) p.buf (r ∷ [])) ∙ ap (λ xs. xs ++ r ∷ []) w.covers in
      let more : length grown.buf ≡ length p.buf + 1 = length-append p.buf (r ∷ []) in
      elim (Bool-cases (leb p.cap (length grown.buf))) [
        | inl full ↦
            let one : p.buf ≡ [] → length p.buf ≡ 0 = λ e. ap length e in
            let here : IsPart p.cap grown.buf = (omega arith, ground (arith, w.room)) in
            rw (full, flush_part-snoc)
              (put_part-IsWritten (rows ++ r ∷ []) grown w.parts covers w.capped here w.listed
                w.counted w.stored)
        | inr fits ↦ rw fits (record {
          parts = w.parts;
          covers = covers;
          capped = w.capped;
          listed = w.listed;
          counted = w.counted;
          stored = w.stored;
          room = (ground arith, inl (ground arith));
        })
      ]

  -- A writer that has written `rows` has written `rows ++ more` after `write more`.
  pub write-IsWritten :
      (rows more : List R) (p : PartWriter W R)
      → IsWritten rows p
      → IsWritten (rows ++ more) (write name encode more p)
  unfolding write
  write-IsWritten rows [] p w = rw append-nil w
  write-IsWritten rows (r ∷ more) p w =
      subst (λ xs. IsWritten xs (write name encode more (add_record name encode p r)))
        (append_assoc rows (r ∷ []) more)
        (write-IsWritten (rows ++ r ∷ []) more (add_record name encode p r)
          (add_record-IsWritten rows r p w))

  pub open_parts-IsWritten : (store : Store W) (top : ℕ) → IsWritten [] (open_parts store top)
  unfolding open_parts
  open_parts-IsWritten store top = record {
    parts = [];
    covers = refl;
    capped = tt;
    listed = refl;
    counted = refl;
    stored = tt;
    room = (omega arith, inr refl);
  }

  flush_part-IsWritten :
      (rows xs : List R) (p : PartWriter W R)
      → p.buf ≡ xs
      → IsWritten rows p
      → IsWritten rows (flush_part name encode xs p)
        × ((flush_part name encode xs p).buf ≡ [])
        × ((flush_part name encode xs p).cap ≡ p.cap)
  unfolding flush_part put_part
  flush_part-IsWritten rows [] p e w = (w, e, refl)
  flush_part-IsWritten rows (x ∷ xs) p e w =
      let some_rows : length p.buf ≡ suc (length xs) = ap length e in
      (
        put_part-IsWritten rows p w.parts w.covers w.capped (omega arith, inl w.room.0) w.listed
            w.counted w.stored,
        refl,
        refl,
      )

  close_lem :
      (rows : List R) (p : PartWriter W R)
      → IsWritten rows p
      → (parts : List (List R)) × (all_rows parts ≡ rows)
        × All (IsPart p.cap) parts
        × ((close name encode p).1 ≡ part_keys name 0 parts)
        × Stored name encode 0 parts (close name encode p).0.store
  unfolding close
  close_lem rows p w =
      let (w', empty, same) = flush_part-IsWritten rows p.buf p refl w in
      (w'.parts, rw (empty, append-nil) at w'.covers, rw same at w'.capped, w'.listed, w'.stored)

  cap-write : (rows : List R) (p : PartWriter W R) → (write name encode rows p).cap ≡ p.cap
  unfolding write add_record
  cap-write [] p = refl
  cap-write (r ∷ rows) p =
      let grown = record p { buf = p.buf ++ r ∷ [] } in
      cap-write rows (add_record name encode p r)
      ∙ elim (Bool-cases (leb p.cap (length grown.buf))) [
        | inl full ↦ rw (full, flush_part-snoc) (unfold put_part in refl)
        | inr fits ↦ rw fits
      ]

  -- Where parts of different numbers have different names, the rows given to a fresh writer by two
  -- calls of `write` and a `close` are in the parts whose keys `close` returns: the parts in the
  -- store hold the rows in order, and each has a row, and at most `cap_rows` rows or one row.
  pub parts_hold_rows :
      (store : Store W) (top : ℕ) (rows more : List R)
      → let closed =
          close name encode
            (write name encode more (write name encode rows (open_parts store top))) in
        (parts : List (List R)) × (all_rows parts ≡ rows ++ more)
        × All (IsPart top) parts
        × (closed.1 ≡ part_keys name 0 parts)
        × Stored name encode 0 parts closed.0.store
  parts_hold_rows store top rows more =
      let fresh = open_parts store top in
      let first = write name encode rows fresh in
      let written =
        write-IsWritten rows more first
          (write-IsWritten [] rows fresh (open_parts-IsWritten store top)) in
      let same : (write name encode more first).cap ≡ top =
        cap-write more first ∙ cap-write rows fresh ∙ (unfold open_parts in refl) in
      let (parts, holds, capped, listed, stored) =
        close_lem (rows ++ more) (write name encode more first) written in
      (parts, holds, subst (λ n. All (IsPart n) parts) same capped, listed, stored)
