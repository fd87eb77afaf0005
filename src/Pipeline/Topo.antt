-- ===== src/Pipeline/Topo.antt =====
-- When a list of stages is in the order of its pipeline, and what `topo_order`'s loop in pipeline.py
-- keeps of it.
use gleanflow.Prelude.{
  ◌≡◌, ◌≢◌, refl, sym, ◌∙◌, String, Option, none, some, true, false, ◌||◌, List, [], ◌∷◌, ◌++◌, map,
  All, IsUnique, ◌==◌, eq_iff, arith,
}
use mathlib.Core.List.{append-nil, append_assoc, map-append}
use gleanflow.Stage.{Stage}
use gleanflow.Pipeline.{Pipeline, Visited, contains, upstream_stage, mark}

contains-snoc :
    (k j : String) (xs : List String) → contains k (xs ++ j ∷ []) ≡ (j == k || contains k xs)
unfolding contains
contains-snoc k j [] = refl
contains-snoc k j (x ∷ xs) = ground (arith, contains-snoc k j xs)

All-snoc :
    (x k : String) (xs : List String)
    → x ≢ k
    → All (λ y. x ≢ y) xs
    → All (λ y. x ≢ y) (xs ++ k ∷ [])
All-snoc x k [] h a = (h, tt)
All-snoc x k (y ∷ xs) h a = (a.0, All-snoc x k xs h a.1)

IsUnique-snoc :
    (k : String) (xs : List String) → contains k xs ≡ false → IsUnique xs → IsUnique (xs ++ k ∷ [])
unfolding contains
IsUnique-snoc k [] h u = (tt, tt)
IsUnique-snoc k (x ∷ xs) h u =
    (All-snoc x k xs (λ e. ground (arith, eq_iff x k)) u.0, IsUnique-snoc k xs (ground arith) u.1)

module _ {W F : Type 0} where
  abbrev pub StandsIn : List String → Option (Stage W F) → Type 0
  StandsIn before none = Unit
  StandsIn before (some up) = contains up.name before ≡ true

  StandsIn-same :
      (xs ys : List String) (o : Option (Stage W F))
      → ((k : String) → contains k xs ≡ contains k ys)
      → StandsIn xs o
      → StandsIn ys o
  StandsIn-same xs ys none same h = tt
  StandsIn-same xs ys (some up) same h = sym (same up.name) ∙ h

  abbrev pub names : List (Stage W F) → List String
  names = map (λ st. st.name)

module _ {W F : Type 0} (pipe : Pipeline W F) where
  -- The stage that `st` reads, if it is one of the pipeline's, is among the names.
  abbrev pub UpstreamIn : List String → Stage W F → Type 0
  UpstreamIn before st = StandsIn before (upstream_stage pipe st)

  abbrev pub IsTopo : List String → List (Stage W F) → Type 0
  IsTopo before [] = Unit
  IsTopo before (st ∷ sts) = UpstreamIn before st × IsTopo (before ++ st.name ∷ []) sts

  IsTopo-snoc :
      (before : List String) (sts : List (Stage W F)) (st : Stage W F)
      → IsTopo before sts
      → UpstreamIn (before ++ names sts) st
      → IsTopo before (sts ++ st ∷ [])
  IsTopo-snoc before [] st t h = (rw append-nil at h, tt)
  IsTopo-snoc before (x ∷ sts) st t h =
      (t.0, IsTopo-snoc (before ++ x.name ∷ []) sts st t.1 (rw append_assoc h))

  -- What the loop keeps.
  pub record IsOrdered (s : Visited W F) : Type 0 where
    pub same : (k : String) → contains k s.seen ≡ contains k (names s.order)
    pub unique : IsUnique (names s.order)
    pub topo : IsTopo [] s.order

  pub mark-IsOrdered :
      (st : Stage W F) (s : Visited W F)
      → contains st.name s.seen ≡ false
      → UpstreamIn s.seen st
      → IsOrdered s
      → IsOrdered (mark st s)
  unfolding contains mark
  mark-IsOrdered st s new up o =
      let grown : names (s.order ++ st ∷ []) ≡ names s.order ++ st.name ∷ [] =
        map-append (λ (x : Stage W F). x.name) s.order (st ∷ []) in
      record {
        same = λ k. rw (grown, contains-snoc k st.name (names s.order)) (ground (arith, o.same k));
        unique =
            rw grown (IsUnique-snoc st.name (names s.order) (sym (o.same st.name) ∙ new) o.unique);
        topo =
            IsTopo-snoc [] s.order st o.topo
              (StandsIn-same s.seen (names s.order) (upstream_stage pipe st) o.same up);
      }
