-- ===== src/Pipeline/Order.antt =====
-- `topo_order` of pipeline.py: on a pipeline without cycles it ends, and each stage stands once,
-- behind the stage that it reads.
use gleanflow.Prelude.{
  ℕ, zero, suc, ◌≤◌, ◌<◌, ◌≡◌, refl, sym, ap, ◌∙◌, String, Option, none, some, true, false, ◌⊎◌,
  inl, inr, List, [], ◌∷◌, All, All-map_imp, IsUnique, ◌==◌, eq_iff, eq_refl, arith, Bool-cases,
  Option-cases, if◌then◌else◌,
}
use gleanflow.Prelude.Dict.{Dict, get, values}
use gleanflow.Json.{◌>>=◌}
use gleanflow.Stage.{Stage, upstream_name}
use gleanflow.Pipeline.{
  Pipeline, Visited, contains, upstream_stage, mark, visit, visit_all, topo_order,
}
use mathlib.Core.Path.{subst}
use gleanflow.Pipeline.Topo.{names, UpstreamIn, IsTopo, IsOrdered, mark-IsOrdered}

module _ {W F : Type 0} (pipe : Pipeline W F) where
  -- The stage that `st` reads, if any, has a lower rank.
  abbrev pub Below : (String → ℕ) → Stage W F → Option (Stage W F) → Type 0
  Below rank st none = Unit
  Below rank st (some up) = rank up.name < rank st.name

  -- `rank` grows along the edges, so the pipeline has no cycle.
  abbrev pub IsRanked : (String → ℕ) → Type 0
  IsRanked rank = All (λ st. Below rank st (upstream_stage pipe st)) (values pipe.stages)

  All-values :
      (P : Stage W F → Type 0) (k : String) (st : Stage W F) (d : Dict (Stage W F))
      → get k d ≡ some st
      → All P (values d)
      → P st
  unfolding get
  All-values P k st [] e a = cc
  All-values P k st ((j, x) ∷ d) e a = elim (Bool-cases (j == k)) [
    | inl here ↦ let same : x ≡ st = ground arith in subst P same a.0
    | inr there ↦ All-values P k st d (rw there at e) a.1
  ]

  named_get :
      (o : Option String) (up : Stage W F)
      → (o >>= λ k. if k == "" then none else get k pipe.stages) ≡ some up
      → (k : String) × (get k pipe.stages ≡ some up)
  named_get none up e = cc
  named_get (some k) up e = (k, ground arith)

  upstream_get :
      (st up : Stage W F)
      → upstream_stage pipe st ≡ some up
      → (k : String) × (get k pipe.stages ≡ some up)
  unfolding upstream_stage
  upstream_get st up e = named_get (upstream_name st) up e

  module _ (rank : String → ℕ) (ranked : IsRanked rank) where
    -- What a visit of `st` makes of the state.
    record Visits (st : Stage W F) (s s' : Visited W F) : Type 0 where
      ordered : IsOrdered pipe s'
      has_it : contains st.name s'.seen ≡ true
      keeps : (k : String) → contains k s.seen ≡ true → contains k s'.seen ≡ true
      -- only stages of lower rank are visited on the way
      bounded :
          (k : String)
          → contains k s'.seen ≡ true
          → (contains k s.seen ≡ true) ⊎ (rank k ≤ rank st.name)

    mark_bounded :
        (st : Stage W F) (s : Visited W F) (k : String)
        → contains k (mark st s).seen ≡ true
        → (contains k s.seen ≡ true) ⊎ (rank k ≤ rank st.name)
    unfolding mark contains
    mark_bounded st s k h = elim (Bool-cases (st.name == k)) [
      | inl here ↦ inr (omega (arith, ap rank ((eq_iff st.name k).0 here)))
      | inr there ↦ inl (ground arith)
    ]

    Visits-mark_leaf :
        (st : Stage W F) (s : Visited W F)
        → contains st.name s.seen ≡ false
        → upstream_stage pipe st ≡ none
        → IsOrdered pipe s
        → Visits st s (mark st s)
    Visits-mark_leaf st s new leaf o = record {
      ordered = mark-IsOrdered pipe st s new (rw leaf tt) o;
      has_it = unfold mark contains in ground (arith, eq_refl st.name);
      keeps = λ k h. unfold mark contains in ground arith;
      bounded = λ k h. mark_bounded st s k h;
    }

    Visits-mark :
        (st up : Stage W F) (s s' : Visited W F)
        → contains st.name s.seen ≡ false
        → upstream_stage pipe st ≡ some up
        → rank up.name < rank st.name
        → Visits up s s'
        → Visits st s (mark st s')
    Visits-mark st up s s' new e below v =
        let new' : contains st.name s'.seen ≡ false = elim (Bool-cases (contains st.name s'.seen)) [
          | inl seen ↦ elim (v.bounded st.name seen) [
            | inl before ↦ cc
            | inr le ↦ absurd (omega arith)
          ]
          | inr absent ↦ absent
        ] in
        let before : UpstreamIn pipe s'.seen st = rw e v.has_it in
        record {
          ordered = mark-IsOrdered pipe st s' new' before v.ordered;
          has_it = unfold mark contains in ground (arith, eq_refl st.name);
          keeps = λ k h. unfold mark contains in ground (arith, v.keeps k h);
          bounded = λ k h. elim (mark_bounded st s' k h) [
            | inl m ↦ elim (v.bounded k m) [ inl b ↦ inl b | inr le ↦ inr (omega arith) ]
            | inr le ↦ inr le
          ];
        }

    visit_lem :
        (limit : ℕ) (st : Stage W F) (s : Visited W F)
        → rank st.name < limit
        → Below rank st (upstream_stage pipe st)
        → IsOrdered pipe s
        → (s' : Visited W F) × (visit pipe limit st s ≡ some s') × Visits st s s'
    unfolding visit
    visit_lem zero st s h b o = elim h [ ]
    visit_lem (suc limit) st s h b o = elim (Bool-cases (contains st.name s.seen)) [
      | inl seen ↦ (
        s,
        rw seen,
        record { ordered = o; has_it = seen; keeps = λ k m. m; bounded = λ k m. inl m },
      )
      | inr new ↦ elim (Option-cases (upstream_stage pipe st)) [
        | inl leaf ↦ (mark st s, rw (new, leaf), Visits-mark_leaf st s new leaf o)
        | inr (up, e) ↦
            let below : rank up.name < rank st.name = subst (Below rank st) e b in
            let (k, at) = upstream_get st up e in
            let b' =
              All-values (λ x. Below rank x (upstream_stage pipe x)) k up pipe.stages at ranked in
            let (s', done, v) = visit_lem limit up s (omega arith) b' o in
            (mark st s', rw (new, e, done), Visits-mark st up s s' new e below v)
      ]
    ]

    visit_all_lem :
        (limit : ℕ) (sts : List (Stage W F)) (s : Visited W F)
        → All (λ st. Below rank st (upstream_stage pipe st)) sts
        → All (λ st. rank st.name < limit) sts
        → IsOrdered pipe s
        → (s' : Visited W F) × (visit_all pipe limit sts s ≡ some s')
          × IsOrdered pipe s'
          × All (λ st. contains st.name s'.seen ≡ true) sts
          × ((k : String) → contains k s.seen ≡ true → contains k s'.seen ≡ true)
    unfolding visit_all
    visit_all_lem limit [] s bs hs o = (s, refl, o, tt, λ k m. m)
    visit_all_lem limit (st ∷ sts) s bs hs o =
        let (s1, first, v) = visit_lem limit st s hs.0 bs.0 o in
        let (s2, rest, o2, all, keeps) = visit_all_lem limit sts s1 bs.1 hs.1 v.ordered in
        (s2, rw first rest, o2, (keeps st.name v.has_it, all), λ k m. keeps k (v.keeps k m))

    -- On a pipeline whose stages can be ranked along their edges, each rank below the recursion
    -- limit, `topo_order` returns an order in which every stage's name stands exactly once, and each
    -- stage stands behind the stage that it reads.
    pub topo_order_sorts :
        (limit : ℕ)
        → All (λ st. rank st.name < limit) (values pipe.stages)
        → (order : List (Stage W F)) × (topo_order pipe limit ≡ some order)
          × IsTopo pipe [] order
          × IsUnique (names order)
          × All (λ st. contains st.name (names order) ≡ true) (values pipe.stages)
    unfolding topo_order
    topo_order_sorts limit hs =
        let start : Visited W F = record { seen = []; order = [] } in
        let (s, done, o, all, keeps) =
          visit_all_lem limit (values pipe.stages) start ranked hs
            (record { same = λ k. refl; unique = tt; topo = tt }) in
        (
          s.order,
          rw done,
          o.topo,
          o.unique,
          All-map_imp (values pipe.stages) (λ st m. sym (o.same st.name) ∙ m) all,
        )
