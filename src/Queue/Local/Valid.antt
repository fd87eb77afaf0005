-- ===== src/Queue/Local/Valid.antt =====
-- The invariant of the local queue, and that a redelivery keeps it.
use gleanflow.Prelude.{
  ℕ, ◌+◌, ◌≤◌, ◌<◌, ◌≡◌, inl, inr, List, [], ◌∷◌, All, All-append, arith, String, eq_iff, eq_refl,
  nat_beq_refl, ltb, Bool-cases,
}
use gleanflow.Prelude.Dict.{Dict}
use gleanflow.Queue.Local.{LocalQueue, key_of, attempt_of, bump, redeliver, enqueue}
use gleanflow.Queue.Local.Places.{
  one_if, count_key, count_refs, places, key-bump, key-bump_at, redeliver_cases, places-bump,
  places-enqueue, places-bury, bury,
}

module _ {W : Type 0} where
  pub record IsValid (q : LocalQueue W) : Type 0 where
    -- an entry of `_inflight` stands under the key of its task
    pub keyed : All (λ e. key_of q e.1.0 ≡ e.0) q.inflight
    -- a key stands in one place at most
    pub once : (k : String) → places k q ≤ 1
    -- a task that may still be delivered has redeliveries left
    pub ready_left : All (λ r. attempt_of q r ≤ q.max_redeliveries) q.ready
    pub inflight_left : All (λ e. attempt_of q e.1.0 ≤ q.max_redeliveries) q.inflight
    -- a dead task has used them up
    pub dead_over : All (λ r. q.max_redeliveries < attempt_of q r) q.dlq

  bump-other :
      (r s : ℕ) (q : LocalQueue W)
      → one_if (key_of q s) (key_of q r) ≡ 0
      → attempt_of (bump r q) s ≡ attempt_of q s
  unfolding bump
  bump-other r s q h = ground (arith, eq_refl (key_of q s))

  All-bump :
      (P : ℕ → Type 0) (r : ℕ) (q : LocalQueue W) (xs : List ℕ)
      → count_refs (key_of q) (key_of q r) xs ≡ 0
      → All (λ s. P (attempt_of q s)) xs
      → All (λ s. P (attempt_of (bump r q) s)) xs
  unfolding count_refs
  All-bump P r q [] h a = tt
  All-bump P r q (s ∷ xs) h a =
      (rw (bump-other r s q (omega arith)) a.0, All-bump P r q xs (omega arith) a.1)

  inflight-bump :
      (P : ℕ → Type 0) (r : ℕ) (q : LocalQueue W) (d : Dict (ℕ × ℕ))
      → count_key (key_of q r) d ≡ 0
      → All (λ e. key_of q e.1.0 ≡ e.0) d
      → All (λ e. P (attempt_of q e.1.0)) d
      → All (λ e. P (attempt_of (bump r q) e.1.0)) d
  unfolding count_key
  inflight-bump P r q [] h k a = tt
  inflight-bump P r q ((j, (s, t)) ∷ d) h k a = (
    rw (bump-other r s q (rw k.0 (omega arith))) a.0,
    inflight-bump P r q d (omega arith) k.1 a.1,
  )

  nowhere :
      (k : String) (q : LocalQueue W)
      → places k q ≡ 0
      → (count_refs (key_of q) k q.ready ≡ 0)
        × (count_key k q.inflight ≡ 0)
        × (count_refs (key_of q) k q.dlq ≡ 0)
  unfolding places
  nowhere k q h = omega arith

  -- A task that stands nowhere in the queue may be changed.
  bump-IsValid :
      (r : ℕ) (q : LocalQueue W) → places (key_of q r) q ≡ 0 → IsValid q → IsValid (bump r q)
  bump-IsValid r q h v =
      let (in_ready, in_flight, in_dlq) = nowhere (key_of q r) q h in
      record {
        keyed = rw (key-bump r q) (unfold bump in v.keyed);
        once = λ k. rw (places-bump k r q) (v.once k);
        ready_left =
            unfold bump in All-bump (λ n. n ≤ q.max_redeliveries) r q q.ready in_ready v.ready_left;
        inflight_left =
            unfold bump in
            inflight-bump (λ n. n ≤ q.max_redeliveries) r q q.inflight in_flight v.keyed
              v.inflight_left;
        dead_over =
            unfold bump in All-bump (λ n. q.max_redeliveries < n) r q q.dlq in_dlq v.dead_over;
      }

  once_more :
      (q : LocalQueue W) (k j : String)
      → places k q ≡ 0
      → places j q ≤ 1
      → one_if k j + places j q ≤ 1
  once_more q k j h o = ground (arith, eq_iff k j)

  pub enqueue-IsValid :
      (r : ℕ) (q : LocalQueue W)
      → places (key_of q r) q ≡ 0
      → attempt_of q r ≤ q.max_redeliveries
      → IsValid q
      → IsValid (enqueue r q)
  enqueue-IsValid r q h left v = record {
    keyed = unfold enqueue in v.keyed;
    once = λ k. rw (places-enqueue k r q) (once_more q (key_of q r) k h (v.once k));
    ready_left = unfold enqueue in All-append _ q.ready (r ∷ []) v.ready_left (left, tt);
    inflight_left = unfold enqueue in v.inflight_left;
    dead_over = unfold enqueue in v.dead_over;
  }

  bury-IsValid :
      (r : ℕ) (q : LocalQueue W)
      → places (key_of q r) q ≡ 0
      → q.max_redeliveries < attempt_of q r
      → IsValid q
      → IsValid (bury r q)
  bury-IsValid r q h over v = record {
    keyed = unfold bury in v.keyed;
    once = λ k. rw (places-bury k r q) (once_more q (key_of q r) k h (v.once k));
    ready_left = unfold bury in v.ready_left;
    inflight_left = unfold bury in v.inflight_left;
    dead_over = unfold bury in All-append _ q.dlq (r ∷ []) v.dead_over (over, tt);
  }

  -- A redelivery of a task that was taken from the queue keeps the invariant.
  pub redeliver-IsValid :
      (r : ℕ) (q : LocalQueue W) → places (key_of q r) q ≡ 0 → IsValid q → IsValid (redeliver r q)
  redeliver-IsValid r q h v =
      let absent : places (key_of (bump r q) r) (bump r q) ≡ 0 =
        rw (key-bump_at r r q, places-bump (key_of q r) r q) h in
      rw (redeliver_cases r q) (elim (Bool-cases (ltb q.max_redeliveries (attempt_of q r + 1))) [
        | inl over ↦ rw over (
            bury-IsValid r (bump r q) absent (unfold bump in ground (arith, nat_beq_refl r))
              (bump-IsValid r q h v))
        | inr left ↦ rw left (
            enqueue-IsValid r (bump r q) absent (unfold bump in ground (arith, nat_beq_refl r))
              (bump-IsValid r q h v))
      ])
