-- ===== src/Queue/Local/Stale.antt =====
-- `fail` of local.py called by a worker whose lease is over.
use gleanflow.Prelude.{ℕ, ◌+◌, ◌≡◌, refl, none, [], ◌∷◌, String, arith, eq_refl}
use gleanflow.Prelude.Dict.{Dict, get}
use gleanflow.Queue.Local.{LocalQueue, key_of, fail, ack}
use gleanflow.Queue.Local.Places.{count_key, places, places-redeliver}
use gleanflow.Queue.Local.Steps.{release, places-release}

count_key_absent : {V : Type 0} (k : String) (d : Dict V) → get k d ≡ none → count_key k d ≡ 0
unfolding count_key get
count_key_absent k [] h = refl
count_key_absent k ((j, v) ∷ d) h = ground (arith, count_key_absent k d)

module _ {W : Type 0} where
  -- `fail` does not check the lease: where no task with the key is in flight, as after the lease ran
  -- out and the task was delivered again, `fail` adds a place at which the key stands.
  pub fail_copies :
      (r : ℕ) (q : LocalQueue W)
      → get (key_of q r) q.inflight ≡ none
      → places (key_of q r) (fail r q) ≡ places (key_of q r) q + 1
  unfolding fail ack
  fail_copies r q h =
      let k = key_of q r in
      ground (
        arith,
        places-redeliver k r (release k q),
        places-release k k q,
        count_key_absent k q.inflight h,
        eq_refl k,
      )
