-- ===== src/Queue/Local/Places.antt =====
-- How often a key stands in the queue: ready, in flight or dead-lettered.
use mathlib.Core.Path.{fun_ext}
use gleanflow.Prelude.{
  ℕ, ◌+◌, ◌<◌, ◌≡◌, refl, inl, inr, List, [], ◌∷◌, ◌++◌, arith, String, ◌==◌, eq_iff, some, ltb,
  Bool-cases, if◌then◌else◌,
}
use gleanflow.Prelude.Dict.{Dict, get, put, remove}
use gleanflow.Queue.Local.{LocalQueue, key_of, attempt_of, bump, redeliver, enqueue}

-- 1 if the texts are equal.
abbrev pub one_if : String → String → ℕ
one_if j k = if j == k then 1 else 0

module _ {ℓ} {V : Type ℓ} where
  -- the entries of a dictionary with the key
  unfoldable pub count_key : String → Dict V → ℕ
  count_key k [] = 0
  count_key k ((j, v) ∷ d) = one_if j k + count_key k d

  pub count_key-remove :
      (k j : String) (d : Dict V) → count_key j (remove k d) ≡ (if k == j then 0 else count_key j d)
  unfolding count_key remove
  count_key-remove k j [] = ground arith
  count_key-remove k j ((i, v) ∷ d) =
      ground (arith, eq_iff k j, eq_iff i k, eq_iff i j, count_key-remove k j d)

  pub count_key-put_new :
      (k j : String) (v : V) (d : Dict V)
      → count_key k d ≡ 0
      → count_key j (put k v d) ≡ one_if k j + count_key j d
  unfolding count_key put
  count_key-put_new k j v [] h = refl
  count_key-put_new k j v ((i, w) ∷ d) h =
      ground (arith, eq_iff k j, eq_iff i k, eq_iff i j, count_key-put_new k j v d)

  pub count_key-put_old :
      (k j : String) (v w : V) (d : Dict V)
      → get k d ≡ some w
      → count_key j (put k v d) ≡ count_key j d
  unfolding count_key put get
  count_key-put_old k j v w [] h = cc
  count_key-put_old k j v w ((i, u) ∷ d) h =
      ground (arith, eq_iff k j, eq_iff i k, eq_iff i j, count_key-put_old k j v w d)

  pub count_key_pos : (k : String) (v : V) (d : Dict V) → get k d ≡ some v → 0 < count_key k d
  unfolding count_key get
  count_key_pos k v [] h = cc
  count_key_pos k v ((i, w) ∷ d) h = ground (arith, count_key_pos k v d)

-- the references to tasks with the key
unfoldable pub count_refs : (ℕ → String) → String → List ℕ → ℕ
count_refs key k [] = 0
count_refs key k (r ∷ rs) = one_if (key r) k + count_refs key k rs

pub count_refs-snoc :
    (key : ℕ → String) (k : String) (rs : List ℕ) (r : ℕ)
    → count_refs key k (rs ++ r ∷ []) ≡ one_if (key r) k + count_refs key k rs
unfolding count_refs
count_refs-snoc key k [] r = refl
count_refs-snoc key k (s ∷ rs) r = omega (arith, count_refs-snoc key k rs r)

module _ {W : Type 0} where
  -- the places at which a task with the key stands
  unfoldable pub places : String → LocalQueue W → ℕ
  places k q =
      count_refs (key_of q) k q.ready + count_key k q.inflight + count_refs (key_of q) k q.dlq

  -- `dlq.append(task)`
  unfoldable pub bury : ℕ → LocalQueue W → LocalQueue W
  bury r q = record q { dlq = q.dlq ++ r ∷ [] }

  -- A redelivery counts the attempt, and makes the task ready again or dead.
  pub redeliver_cases :
      (r : ℕ) (q : LocalQueue W)
      → redeliver r q ≡ (
          if ltb q.max_redeliveries (attempt_of q r + 1)
          then bury r (bump r q)
          else enqueue r (bump r q))
  unfolding redeliver bury enqueue bump
  redeliver_cases r q = ground arith

  pub key-bump_at : (r s : ℕ) (q : LocalQueue W) → key_of (bump r q) s ≡ key_of q s
  unfolding bump
  key-bump_at r s q = ground arith

  pub key-bump : (r : ℕ) (q : LocalQueue W) → key_of (bump r q) ≡ key_of q
  key-bump r q = fun_ext (λ s. key-bump_at r s q)

  pub places-bump : (k : String) (r : ℕ) (q : LocalQueue W) → places k (bump r q) ≡ places k q
  unfolding places
  places-bump k r q = rw (key-bump r q) (unfold bump in refl)

  pub places-enqueue :
      (k : String) (r : ℕ) (q : LocalQueue W)
      → places k (enqueue r q) ≡ one_if (key_of q r) k + places k q
  unfolding places enqueue
  places-enqueue k r q = omega (arith, count_refs-snoc (key_of q) k q.ready r)

  pub places-bury :
      (k : String) (r : ℕ) (q : LocalQueue W)
      → places k (bury r q) ≡ one_if (key_of q r) k + places k q
  unfolding places bury
  places-bury k r q = omega (arith, count_refs-snoc (key_of q) k q.dlq r)

  -- A redelivery adds the task in one place.
  pub places-redeliver :
      (k : String) (r : ℕ) (q : LocalQueue W)
      → places k (redeliver r q) ≡ one_if (key_of q r) k + places k q
  places-redeliver k r q =
      rw (redeliver_cases r q) (elim (Bool-cases (ltb q.max_redeliveries (attempt_of q r + 1))) [
        | inl over ↦ rw (over, places-bury k r (bump r q), key-bump_at r r q, places-bump k r q)
        | inr left ↦ rw (left, places-enqueue k r (bump r q), key-bump_at r r q, places-bump k r q)
      ])
