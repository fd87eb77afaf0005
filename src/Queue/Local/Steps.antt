-- ===== src/Queue/Local/Steps.antt =====
-- `_sweep` of local.py keeps the invariant and accounts for every task: it takes expired tasks out
-- of flight and delivers each again.
use gleanflow.Prelude.{
  ℕ, ◌+◌, ◌≤◌, ◌≡◌, refl, ◌∙◌, inl, inr, List, [], ◌∷◌, arith, String, ◌==◌, eq_iff, eq_refl, some,
  Option-cases, if◌then◌else◌,
}
use gleanflow.Prelude.Dict.{get, remove, All-get, All-remove}
use gleanflow.Queue.Local.{LocalQueue, key_of, redeliver, sweep_key, sweep_keys, sweep, expired}
use gleanflow.Queue.Local.Places.{
  count_key, count_key_pos, count_key-remove, places, places-redeliver,
}
use gleanflow.Queue.Local.Valid.{IsValid, redeliver-IsValid}

module _ {W : Type 0} where
  -- `_inflight.pop(k)`
  abbrev pub release : String → LocalQueue W → LocalQueue W
  release k q = record q { inflight = remove k q.inflight }

  pub places-release :
      (j k : String) (q : LocalQueue W)
      → places j (release k q) + (if k == j then count_key j q.inflight else 0) ≡ places j q
  unfolding places
  places-release j k q = ground (arith, count_key-remove k j q.inflight)

  pub release-IsValid : (k : String) (q : LocalQueue W) → IsValid q → IsValid (release k q)
  release-IsValid k q v = record {
    keyed = All-remove _ k q.inflight v.keyed;
    once = λ j. omega (arith, places-release j k q, v.once j);
    ready_left = v.ready_left;
    inflight_left = All-remove _ k q.inflight v.inflight_left;
    dead_over = v.dead_over;
  }

  pub inflight-le-places : (k : String) (q : LocalQueue W) → count_key k q.inflight ≤ places k q
  unfolding places
  inflight-le-places k q = omega arith

  module _ (k : String) (r deadline : ℕ) (q : LocalQueue W) (v : IsValid q)
      (held : get k q.inflight ≡ some (r, deadline)) where
    pub key_held : key_of q r ≡ k
    key_held = All-get (λ e. key_of q e.1.0 ≡ e.0) k (r, deadline) q.inflight held v.keyed

    pub one_held : count_key k q.inflight ≡ 1
    one_held =
        omega
          (arith, v.once k, count_key_pos k (r, deadline) q.inflight held, inflight-le-places k q)

    pub places_held : places k (release k q) ≡ 0
    places_held = ground (arith, places-release k k q, v.once k, eq_refl k, one_held)

    release_absent : places (key_of q r) (release k q) ≡ 0
    release_absent = rw key_held places_held

    pub redeliver_held-IsValid : IsValid (redeliver r (release k q))
    redeliver_held-IsValid =
        redeliver-IsValid r (release k q) release_absent (release-IsValid k q v)

    -- Taking a task out of flight and delivering it again leaves it in one place.
    pub places-redeliver_held : (j : String) → places j (redeliver r (release k q)) ≡ places j q
    places-redeliver_held j =
        rw (places-redeliver j r (release k q), key_held)
          (ground (arith, eq_iff k j, places-release j k q, one_held))

  pub sweep_key-IsValid : (k : String) (q : LocalQueue W) → IsValid q → IsValid (sweep_key k q)
  unfolding sweep_key
  sweep_key-IsValid k q v = elim (Option-cases (get k q.inflight)) [
    | inl e ↦ rw (e, sweep_key) v
    | inr ((r, d), e) ↦ rw (e, sweep_key) (redeliver_held-IsValid k r d q v e)
  ]

  places-sweep_key :
      (j k : String) (q : LocalQueue W) → IsValid q → places j (sweep_key k q) ≡ places j q
  unfolding sweep_key
  places-sweep_key j k q v = elim (Option-cases (get k q.inflight)) [
    | inl e ↦ rw (e, sweep_key)
    | inr ((r, d), e) ↦ rw (e, sweep_key) (places-redeliver_held k r d q v e j)
  ]

  sweep_keys-IsValid : (ks : List String) (q : LocalQueue W) → IsValid q → IsValid (sweep_keys ks q)
  unfolding sweep_keys
  sweep_keys-IsValid [] q v = v
  sweep_keys-IsValid (k ∷ ks) q v = sweep_keys-IsValid ks (sweep_key k q) (sweep_key-IsValid k q v)

  places-sweep_keys :
      (j : String) (ks : List String) (q : LocalQueue W)
      → IsValid q
      → places j (sweep_keys ks q) ≡ places j q
  unfolding sweep_keys
  places-sweep_keys j [] q v = refl
  places-sweep_keys j (k ∷ ks) q v =
      places-sweep_keys j ks (sweep_key k q) (sweep_key-IsValid k q v) ∙ places-sweep_key j k q v

  pub sweep-IsValid : (now : ℕ) (q : LocalQueue W) → IsValid q → IsValid (sweep now q)
  unfolding sweep
  sweep-IsValid now q v = sweep_keys-IsValid (expired now q) q v

  pub places-sweep :
      (j : String) (now : ℕ) (q : LocalQueue W) → IsValid q → places j (sweep now q) ≡ places j q
  unfolding sweep
  places-sweep j now q v = places-sweep_keys j (expired now q) q v
