-- ===== src/Queue/Local/Redelivery.antt =====
-- What happens when a lease of local.py is over: the task is delivered again, or is dead.
use mathlib.Core.Path.{subst}
use gleanflow.Prelude.{
  ℕ, ◌+◌, ◌≤◌, ◌<◌, ◌≡◌, ◌≢◌, refl, sym, ap, ◌∙◌, true, inl, inr, List, [], ◌∷◌, All, All-map_imp,
  IsUnique, In, In-append_left, In-append_right, arith, String, ◌==◌, eq_iff, eq_refl, none, some,
  nat_beq_refl, leb, Bool-cases, Option-cases, ◌⊎◌,
}
use gleanflow.Prelude.Dict.{Dict, get, get-remove, remove}
use gleanflow.Queue.Local.{
  LocalQueue, key_of, attempt_of, bump, redeliver, sweep_key, sweep_keys, sweep, expired,
}
use gleanflow.Queue.Local.Places.{count_key}
use gleanflow.Queue.Local.Valid.{IsValid}
use gleanflow.Queue.Local.Steps.{sweep_key-IsValid, key_held, inflight-le-places}
use gleanflow.Queue.Local.Lease.{
  due, not_due_of_absent, inflight-redeliver, get-sweep_key, get-sweep_keys, key-sweep_key,
}

module _ {W : Type 0} where
  -- The task has been delivered again, or is dead if its attempts are used up.
  abbrev pub Landed : LocalQueue W → ℕ → Type 0
  Landed q r =
      ((attempt_of q r ≤ q.max_redeliveries) × In r q.ready)
      ⊎ ((q.max_redeliveries < attempt_of q r) × In r q.dlq)

  Landed-redeliver_self : (r : ℕ) (q : LocalQueue W) → Landed (redeliver r q) r
  unfolding redeliver bump
  Landed-redeliver_self r q = ground (
    arith,
    nat_beq_refl r,
    In-append_right r q.ready (r ∷ []) (inl refl),
    In-append_right r q.dlq (r ∷ []) (inl refl),
  )

  Landed-redeliver : (r s : ℕ) (q : LocalQueue W) → s ≢ r → Landed q r → Landed (redeliver s q) r
  unfolding redeliver bump
  Landed-redeliver r s q h (inl (left, m)) = ground (arith, In-append_left r q.ready (s ∷ []) m)
  Landed-redeliver r s q h (inr (over, m)) = ground (arith, In-append_left r q.dlq (s ∷ []) m)

  attempt-redeliver :
      (r s : ℕ) (q : LocalQueue W) → s ≢ r → attempt_of (redeliver s q) r ≡ attempt_of q r
  unfolding redeliver bump
  attempt-redeliver r s q h = ground arith

  attempt-redeliver_self :
      (r : ℕ) (q : LocalQueue W) → attempt_of (redeliver r q) r ≡ attempt_of q r + 1
  unfolding redeliver bump
  attempt-redeliver_self r q = ground (arith, nat_beq_refl r)

  module _ (j k : String) (r : ℕ) (q : LocalQueue W) (v : IsValid q) (other : j ≢ k)
      (named : key_of q r ≡ k) where
    other_task : (s d : ℕ) → get j q.inflight ≡ some (s, d) → s ≢ r
    other_task s d e same = other (sym (key_held j s d q v e) ∙ ap (key_of q) same ∙ named)

    attempt-sweep_key : attempt_of (sweep_key j q) r ≡ attempt_of q r
    unfolding sweep_key
    attempt-sweep_key = elim (Option-cases (get j q.inflight)) [
      | inl e ↦ rw (e, sweep_key)
      | inr ((s, d), e) ↦
          rw (e, sweep_key)
            (attempt-redeliver r s (record q { inflight = remove j q.inflight }) (other_task s d e))
    ]

    Landed-sweep_key : Landed q r → Landed (sweep_key j q) r
    unfolding sweep_key
    Landed-sweep_key l = elim (Option-cases (get j q.inflight)) [
      | inl e ↦ rw (e, sweep_key) l
      | inr ((s, d), e) ↦
          rw (e, sweep_key)
            (Landed-redeliver r s (record q { inflight = remove j q.inflight }) (other_task s d e)
              l)
    ]

  -- Sweeping other keys keeps the task where it landed.
  Landed-sweep_keys :
      (ks : List String) (k : String) (r n : ℕ) (q : LocalQueue W)
      → IsValid q
      → key_of q r ≡ k
      → All (λ j. j ≢ k) ks
      → attempt_of q r ≡ n
      → Landed q r
      → (attempt_of (sweep_keys ks q) r ≡ n) × Landed (sweep_keys ks q) r
  unfolding sweep_keys
  Landed-sweep_keys [] k r n q v named others a l = (a, l)
  Landed-sweep_keys (j ∷ ks) k r n q v named others a l =
      Landed-sweep_keys ks k r n (sweep_key j q) (sweep_key-IsValid j q v)
        (key-sweep_key j r q ∙ named) others.1 (attempt-sweep_key j k r q v others.0 named ∙ a)
        (Landed-sweep_key j k r q v others.0 named l)

  -- What a sweep over the keys `ks` does with the task in flight under one of them.
  abbrev Redelivered : String → ℕ → LocalQueue W → LocalQueue W → Type 0
  Redelivered k r q q' =
      (get k q'.inflight ≡ none) × (attempt_of q' r ≡ attempt_of q r + 1) × Landed q' r

  sweep_key_redelivers :
      (k : String) (r deadline : ℕ) (q : LocalQueue W)
      → get k q.inflight ≡ some (r, deadline)
      → Redelivered k r q (sweep_key k q)
  unfolding sweep_key
  sweep_key_redelivers k r deadline q held =
      let freed = record q { inflight = remove k q.inflight } in
      rw (held, sweep_key)
        (
          rw (inflight-redeliver r freed) (ground (arith, get-remove k k q.inflight, eq_refl k)),
          attempt-redeliver_self r freed,
          Landed-redeliver_self r freed,
        )

  -- The keys behind the task's own leave it where it landed.
  keep-Redelivered :
      (ks : List String) (k : String) (r deadline : ℕ) (q : LocalQueue W)
      → IsValid q
      → get k q.inflight ≡ some (r, deadline)
      → All (λ j. j ≢ k) ks
      → Redelivered k r q (sweep_keys ks (sweep_key k q))
  keep-Redelivered ks k r deadline q v held others =
      let q' = sweep_key k q in
      let (gone, counted, landed) = sweep_key_redelivers k r deadline q held in
      let named : key_of q' r ≡ k = key-sweep_key k r q ∙ key_held k r deadline q v held in
      let kept =
        Landed-sweep_keys ks k r (attempt_of q r + 1) q' (sweep_key-IsValid k q v) named others
          counted landed in
      (get-sweep_keys ks k q' others ∙ gone, kept.0, kept.1)

  sweep_keys_redeliver :
      (ks : List String) (k : String) (r deadline : ℕ) (q : LocalQueue W)
      → IsValid q
      → get k q.inflight ≡ some (r, deadline)
      → In k ks
      → IsUnique ks
      → Redelivered k r q (sweep_keys ks q)
  unfolding sweep_keys
  sweep_keys_redeliver [] k r deadline q v held m u = elim m [ ]
  sweep_keys_redeliver (j ∷ ks) k r deadline q v held m u = elim (Bool-cases (j == k)) [
    | inl here ↦
        let same = (eq_iff j k).0 here in
        let others : All (λ i. i ≢ k) ks = All-map_imp ks (λ i h e. h (same ∙ sym e)) u.0 in
        subst (λ i. Redelivered k r q (sweep_keys ks (sweep_key i q))) (sym same)
          (keep-Redelivered ks k r deadline q v held others)
    | inr there ↦
        let other : j ≢ k = λ e. ground (arith, eq_iff j k) in
        let q' = sweep_key j q in
        let named = key_held k r deadline q v held in
        let counted = attempt-sweep_key j k r q v other named in
        let behind : In k ks = elim m [ inl e ↦ absurd (other e) | inr i ↦ i ] in
        let done =
          sweep_keys_redeliver ks k r deadline q' (sweep_key-IsValid j q v)
            (get-sweep_key j k q other ∙ held) behind u.1 in
        (done.0, done.1 ∙ ap (λ n. n + 1) counted, done.2)
  ]

due_of_get :
    (k : String) (now r deadline : ℕ) (d : Dict (ℕ × ℕ))
    → get k d ≡ some (r, deadline)
    → deadline ≤ now
    → In k (due now d)
unfolding get
due_of_get k now r deadline [] g h = cc
due_of_get k now r deadline ((j, (s, t)) ∷ d) g h = elim (Bool-cases (j == k)) [
  | inl here ↦ let over : leb t now ≡ true = ground arith in rw over (inl ((eq_iff j k).0 here))
  | inr there ↦
      let rest = due_of_get k now r deadline d (rw there at g) h in
      elim (Bool-cases (leb t now)) [ inl over ↦ rw over (inr rest) | inr runs ↦ rw runs rest ]
]

due-IsUnique :
    (now : ℕ) (d : Dict (ℕ × ℕ)) → ((k : String) → count_key k d ≤ 1) → IsUnique (due now d)
unfolding count_key
due-IsUnique now [] h = tt
due-IsUnique now ((j, (s, t)) ∷ d) h =
    let absent : count_key j d ≡ 0 = ground (arith, h j, eq_refl j) in
    let rest = due-IsUnique now d (λ k. omega (arith, h k)) in
    let others : All (λ i. j ≢ i) (due now d) =
      All-map_imp (due now d) (λ i g e. g (sym e)) (not_due_of_absent j now d absent) in
    elim (Bool-cases (leb t now)) [ inl over ↦ rw over (others, rest) | inr runs ↦ rw runs rest ]

-- The sweep at or after a lease's deadline takes the task out of flight, counts the attempt, and
-- makes the task ready again if it has at most `max_redeliveries` attempts, and dead otherwise.
pub sweep_redelivers :
    {W : Type 0} (k : String) (r deadline now : ℕ) (q : LocalQueue W)
    → IsValid q
    → get k q.inflight ≡ some (r, deadline)
    → deadline ≤ now
    → (get k (sweep now q).inflight ≡ none)
      × (attempt_of (sweep now q) r ≡ attempt_of q r + 1)
      × Landed (sweep now q) r
unfolding sweep expired
sweep_redelivers k r deadline now q v held over =
    sweep_keys_redeliver (expired now q) k r deadline q v held
      (due_of_get k now r deadline q.inflight held over)
      (due-IsUnique now q.inflight (λ j. omega (arith, v.once j, inflight-le-places j q)))
