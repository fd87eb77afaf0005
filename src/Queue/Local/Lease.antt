-- ===== src/Queue/Local/Lease.antt =====
-- What a lease of local.py promises while it runs: exclusive delivery.
use gleanflow.Prelude.{
  ℕ, ◌+◌, ◌<◌, ◌≡◌, ◌≢◌, refl, ap, ◌∙◌, false, Option, none, ◌⊎◌, inl, inr, List, [], ◌∷◌, map,
  filter, All, arith, String, ◌==◌, eq_iff, some, leb, Bool-cases, Option-cases,
}
use gleanflow.Prelude.Dict.{Dict, get, get-put, get-remove, remove}
use gleanflow.Queue.Local.{
  LocalQueue, key_of, bump, redeliver, sweep_key, sweep_keys, sweep, expired, claim_ready, claim,
}
use gleanflow.Queue.Local.Places.{count_key, count_key_pos}
use gleanflow.Queue.Local.Valid.{IsValid}
use gleanflow.Queue.Local.Steps.{sweep-IsValid, one_held}
use gleanflow.Queue.Local.Methods.{head_not_inflight}

-- The entries of `_inflight` whose deadline is not after `now`, by key.
abbrev pub due : ℕ → Dict (ℕ × ℕ) → List String
due now d = map (λ e. e.0) (filter (λ e. leb e.1.1 now) d)

pub not_due_of_absent :
    (k : String) (now : ℕ) (d : Dict (ℕ × ℕ)) → count_key k d ≡ 0 → All (λ j. j ≢ k) (due now d)
unfolding count_key
not_due_of_absent k now [] h = tt
not_due_of_absent k now ((j, (s, t)) ∷ d) h =
    let rest = not_due_of_absent k now d (omega arith) in
    let other : j ≢ k = λ e. ground (arith, (eq_iff j k).1 e) in
    elim (Bool-cases (leb t now)) [ inl over ↦ rw over (other, rest) | inr runs ↦ rw runs rest ]

not_due :
    (k : String) (now r deadline : ℕ) (d : Dict (ℕ × ℕ))
    → get k d ≡ some (r, deadline)
    → now < deadline
    → count_key k d ≡ 1
    → All (λ j. j ≢ k) (due now d)
unfolding count_key get
not_due k now r deadline [] g h c = tt
not_due k now r deadline ((j, (s, t)) ∷ d) g h c = elim (Bool-cases (j == k)) [
  | inl here ↦
      let runs : leb t now ≡ false = ground arith in
      rw runs (not_due_of_absent k now d (ground arith))
  | inr there ↦
      let rest = not_due k now r deadline d (rw there at g) h (ground arith) in
      let other : j ≢ k = λ e. ground (arith, eq_iff j k) in
      elim (Bool-cases (leb t now)) [ inl over ↦ rw over (other, rest) | inr runs ↦ rw runs rest ]
]

module _ {W : Type 0} where
  pub inflight-redeliver : (r : ℕ) (q : LocalQueue W) → (redeliver r q).inflight ≡ q.inflight
  unfolding redeliver bump
  inflight-redeliver r q = ground arith

  pub key-redeliver : (r s : ℕ) (q : LocalQueue W) → key_of (redeliver r q) s ≡ key_of q s
  unfolding redeliver bump
  key-redeliver r s q = ground arith

  pub key-sweep_key :
      (k : String) (s : ℕ) (q : LocalQueue W) → key_of (sweep_key k q) s ≡ key_of q s
  unfolding sweep_key
  key-sweep_key k s q = elim (Option-cases (get k q.inflight)) [
    | inl e ↦ rw (e, sweep_key)
    | inr ((r, d), e) ↦
        rw (e, sweep_key) (key-redeliver r s (record q { inflight = remove k q.inflight }))
  ]

  pub key-sweep_keys :
      (ks : List String) (s : ℕ) (q : LocalQueue W) → key_of (sweep_keys ks q) s ≡ key_of q s
  unfolding sweep_keys
  key-sweep_keys [] s q = refl
  key-sweep_keys (k ∷ ks) s q = key-sweep_keys ks s (sweep_key k q) ∙ key-sweep_key k s q

  pub get-sweep_key :
      (j k : String) (q : LocalQueue W) → j ≢ k → get k (sweep_key j q).inflight ≡ get k q.inflight
  unfolding sweep_key
  get-sweep_key j k q h = elim (Option-cases (get j q.inflight)) [
    | inl e ↦ rw (e, sweep_key)
    | inr ((r, d), e) ↦
        rw (e, sweep_key, inflight-redeliver r (record q { inflight = remove j q.inflight }))
          (ground (arith, get-remove j k q.inflight, eq_iff j k))
  ]

  pub get-sweep_keys :
      (ks : List String) (k : String) (q : LocalQueue W)
      → All (λ j. j ≢ k) ks
      → get k (sweep_keys ks q).inflight ≡ get k q.inflight
  unfolding sweep_keys
  get-sweep_keys [] k q h = refl
  get-sweep_keys (j ∷ ks) k q h = get-sweep_keys ks k (sweep_key j q) h.1 ∙ get-sweep_key j k q h.0

  module _ (k : String) (r deadline now : ℕ) (q : LocalQueue W) (v : IsValid q)
      (held : get k q.inflight ≡ some (r, deadline)) (runs : now < deadline) where
    held_by_sweep : get k (sweep now q).inflight ≡ some (r, deadline)
    unfolding sweep expired
    held_by_sweep =
        get-sweep_keys (expired now q) k q
          (not_due k now r deadline q.inflight held runs (one_held k r deadline q v held))
        ∙ held

    not_head : (s : ℕ) (rest : List ℕ) → (sweep now q).ready ≡ s ∷ rest → key_of q s ≢ k
    not_head s rest e same =
        let kept : key_of (sweep now q) s ≡ key_of q s =
          unfold sweep in key-sweep_keys (expired now q) s q in
        absurd (
          omega (
            arith,
            head_not_inflight s rest (sweep now q) e (sweep-IsValid now q v),
            ap (λ j. count_key j (sweep now q).inflight) (kept ∙ same),
            count_key_pos k (r, deadline) (sweep now q).inflight held_by_sweep,
          ))

    -- What an answer of `claim` may be while the lease runs.
    abbrev Spared : LocalQueue W × Option ℕ → Type 0
    Spared answer =
        (get k answer.0.inflight ≡ some (r, deadline))
        × ((answer.1 ≡ none) ⊎ ((s : ℕ) × (answer.1 ≡ some s) × (key_of q s ≢ k)))

    claim_ready-Spared :
        (until : ℕ) (l : List ℕ)
        → (sweep now q).ready ≡ l
        → Spared (claim_ready l until (sweep now q))
    unfolding claim_ready
    claim_ready-Spared until [] e = (held_by_sweep, inl refl)
    claim_ready-Spared until (t ∷ rest) e =
        let other = not_head t rest e in
        let kept : key_of (sweep now q) t ≡ key_of q t =
          unfold sweep in key-sweep_keys (expired now q) t q in
        (
          get-put (key_of (sweep now q) t) k (t, until) (sweep now q).inflight
              ∙ rw kept ground (arith, eq_iff (key_of q t) k, held_by_sweep),
          inr (t, refl, other),
        )

    -- While a lease runs, every claim leaves it as it is, whether it finds a task or none, and no claim
    -- hands out a task with the leased key.
    pub claim_exclusive :
        (lease : ℕ)
        → (get k (claim now lease q).0.inflight ≡ some (r, deadline))
          × (((claim now lease q).1 ≡ none)
              ⊎ ((s : ℕ) × ((claim now lease q).1 ≡ some s) × (key_of q s ≢ k)))
    unfolding claim
    claim_exclusive lease = claim_ready-Spared (now + lease) (sweep now q).ready refl
