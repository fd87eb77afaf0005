-- ===== src/Queue/Local/Methods.antt =====
-- Each method of the local queue keeps the invariant and accounts for every task.
use mathlib.Core.Path.{subst}
use gleanflow.Prelude.{
  ℕ, ◌+◌, ◌≤◌, ◌≡◌, refl, ap, ◌∙◌, inl, inr, List, [], ◌∷◌, All, arith, String, ◌==◌, eq_iff,
  eq_refl, some, Option-cases, if◌then◌else◌,
}
use gleanflow.Prelude.Dict.{get, All-get, All-put}
use gleanflow.Queue.Local.{
  LocalQueue, key_of, attempt_of, sweep, claim_ready, claim, extend, ack, fail,
}
use gleanflow.Queue.Local.Places.{
  one_if, count_key, count_key-put_new, count_key-put_old, count_refs, places,
}
use gleanflow.Queue.Local.Steps.{
  places-release, release-IsValid, key_held, one_held, places_held, redeliver_held-IsValid,
  places-redeliver_held, sweep-IsValid, places-sweep,
}
use gleanflow.Queue.Local.Valid.{IsValid}

module _ {W : Type 0} where
  count-ready :
      (j : String) (r : ℕ) (rest : List ℕ) (q : LocalQueue W)
      → q.ready ≡ r ∷ rest
      → count_refs (key_of q) j q.ready ≡ one_if (key_of q r) j + count_refs (key_of q) j rest
  unfolding count_refs
  count-ready j r rest q e = ap (count_refs (key_of q) j) e

  -- The head of `_ready` is not in flight.
  pub head_not_inflight :
      (r : ℕ) (rest : List ℕ) (q : LocalQueue W)
      → q.ready ≡ r ∷ rest
      → IsValid q
      → count_key (key_of q r) q.inflight ≡ 0
  unfolding places
  head_not_inflight r rest q e v =
      let k = key_of q r in ground (arith, count-ready k r rest q e, eq_refl k, v.once k)

  places-claim_ready :
      (j : String) (l : List ℕ) (deadline : ℕ) (q : LocalQueue W)
      → q.ready ≡ l
      → IsValid q
      → places j (claim_ready l deadline q).0 ≡ places j q
  unfolding claim_ready places
  places-claim_ready j [] deadline q e v = refl
  places-claim_ready j (r ∷ rest) deadline q e v =
      let k = key_of q r in
      omega (
        arith,
        count-ready j r rest q e,
        count_key-put_new k j (r, deadline) q.inflight (head_not_inflight r rest q e v),
      )

  left_at :
      (r : ℕ) (rest : List ℕ) (q : LocalQueue W)
      → q.ready ≡ r ∷ rest
      → IsValid q
      → All (λ s. attempt_of q s ≤ q.max_redeliveries) (r ∷ rest)
  left_at r rest q e v = subst (All (λ s. attempt_of q s ≤ q.max_redeliveries)) e v.ready_left

  claim_ready-IsValid :
      (l : List ℕ) (deadline : ℕ) (q : LocalQueue W)
      → q.ready ≡ l
      → IsValid q
      → IsValid (claim_ready l deadline q).0
  unfolding claim_ready
  claim_ready-IsValid [] deadline q e v = v
  claim_ready-IsValid (r ∷ rest) deadline q e v = record {
    keyed = All-put _ (key_of q r) (r, deadline) q.inflight refl v.keyed;
    once = λ j. rw (places-claim_ready j (r ∷ rest) deadline q e v) (v.once j);
    ready_left = (left_at r rest q e v).1;
    inflight_left =
        All-put _ (key_of q r) (r, deadline) q.inflight (left_at r rest q e v).0 v.inflight_left;
    dead_over = v.dead_over;
  }

  pub claim-IsValid : (now lease : ℕ) (q : LocalQueue W) → IsValid q → IsValid (claim now lease q).0
  unfolding claim
  claim-IsValid now lease q v =
      claim_ready-IsValid (sweep now q).ready (now + lease) (sweep now q) refl
        (sweep-IsValid now q v)

  -- A claim, with its sweep, neither loses nor copies a task.
  pub places-claim :
      (j : String) (now lease : ℕ) (q : LocalQueue W)
      → IsValid q
      → places j (claim now lease q).0 ≡ places j q
  unfolding claim
  places-claim j now lease q v =
      places-claim_ready j (sweep now q).ready (now + lease) (sweep now q) refl
        (sweep-IsValid now q v)
      ∙ places-sweep j now q v

  pub places-extend :
      (j : String) (now r lease : ℕ) (q : LocalQueue W)
      → places j (extend now r lease q) ≡ places j q
  unfolding places
  places-extend j now r lease q = elim (Option-cases (get (key_of q r) q.inflight)) [
    | inl e ↦ unfold extend in rw (e, extend)
    | inr ((t, d), e) ↦
        unfold extend in
        rw (e, extend, count_key-put_old (key_of q r) j (t, now + lease) (t, d) q.inflight e)
  ]

  pub extend-IsValid :
      (now r lease : ℕ) (q : LocalQueue W) → IsValid q → IsValid (extend now r lease q)
  unfolding extend
  extend-IsValid now r lease q v = elim (Option-cases (get (key_of q r) q.inflight)) [
    | inl e ↦ rw (e, extend) v
    | inr ((t, d), e) ↦
        let k = key_of q r in
        let same = key_held k t d q v e in
        let left = All-get _ k (t, d) q.inflight e v.inflight_left in
        let moved = λ (j : String). rw (e, extend) at (places-extend j now r lease q) in
        rw (e, extend)
          (record {
            keyed = All-put _ k (t, now + lease) q.inflight same v.keyed;
            once = λ j. rw (moved j) (v.once j);
            ready_left = v.ready_left;
            inflight_left = All-put _ k (t, now + lease) q.inflight left v.inflight_left;
            dead_over = v.dead_over;
          })
  ]

  pub ack-IsValid : (r : ℕ) (q : LocalQueue W) → IsValid q → IsValid (ack r q)
  unfolding ack
  ack-IsValid r q v = release-IsValid (key_of q r) q v

  -- The lease on `r` is held: `r` is the task in flight under its key.
  abbrev pub Leased : ℕ → LocalQueue W → Type 0
  Leased r q = (deadline : ℕ) × (get (key_of q r) q.inflight ≡ some (r, deadline))

  pub fail-IsValid : (r : ℕ) (q : LocalQueue W) → Leased r q → IsValid q → IsValid (fail r q)
  unfolding fail ack
  fail-IsValid r q (d, held) v = redeliver_held-IsValid (key_of q r) r d q v held

  pub places-fail :
      (j : String) (r : ℕ) (q : LocalQueue W)
      → Leased r q
      → IsValid q
      → places j (fail r q) ≡ places j q
  unfolding fail ack
  places-fail j r q (d, held) v = places-redeliver_held (key_of q r) r d q v held j

  -- After `ack` no task with the key is left in flight, and the others stand where they stood.
  pub places-ack :
      (j : String) (r : ℕ) (q : LocalQueue W)
      → Leased r q
      → IsValid q
      → places j (ack r q) ≡ (if key_of q r == j then 0 else places j q)
  unfolding ack
  places-ack j r q (d, held) v =
      let k = key_of q r in
      ground (
        arith,
        eq_iff k j,
        places-release j k q,
        places_held k r d q v held,
        one_held k r d q v held,
      )
