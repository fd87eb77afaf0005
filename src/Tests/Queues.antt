-- ===== src/Tests/Queues.antt =====
-- The local queue with two tasks: `s.a` is claimed at time 0 for 10 ticks, `s.b` is ready.
use gleanflow.Prelude.{
  ℕ, zero, suc, ◌+◌, ◌≡◌, ◌≢◌, ◌⊎◌, refl, some, none, [], ◌∷◌, ◌==◌, if◌then◌else◌, arith,
}
use gleanflow.Prelude.Dict.{get, put, remove}
use gleanflow.Task.{Task}
use gleanflow.Queue.Local.{
  LocalQueue, key_of, attempt_of, enqueue, sweep, expired, sweep_keys, sweep_key, redeliver, bump,
  claim, claim_ready, extend, ack, fail, depth,
}
use gleanflow.Queue.Local.Places.{one_if, places, count_refs, count_key}
use gleanflow.Queue.Local.Valid.{IsValid}
use gleanflow.Queue.Local.Methods.{Leased}
use gleanflow.Queue.Local.Reach.{
  enqueued, claimed, Reach, here, next, Reach-IsValid, init, init-IsValid, accounts_delivery,
  accounts_settlement,
}
use gleanflow.Queue.Local.Lease.{claim_exclusive}
use gleanflow.Queue.Local.Stale.{fail_copies}
use gleanflow.Queue.Local.Redelivery.{Landed, sweep_redelivers}

abbrev tasks : ℕ → Task ℕ
tasks zero = record { stage = "s"; key = "s.a"; params = []; weight = 1; attempt = 0 }
tasks (suc n) = record { stage = "s"; key = "s.b"; params = []; weight = 1; attempt = 0 }

abbrev empty : LocalQueue ℕ
empty = init tasks 1

abbrev one_ready : LocalQueue ℕ
one_ready = enqueue 0 empty

abbrev one_leased : LocalQueue ℕ
one_leased = (claim 0 10 one_ready).0

abbrev leased_and_ready : LocalQueue ℕ
leased_and_ready = enqueue 1 one_leased

Reach-one_leased : Reach empty one_leased
unfolding init places count_refs count_key
Reach-one_leased = next (next here (enqueued 0 refl (omega arith) refl)) (claimed 0 10 refl)

Reach-leased_and_ready : Reach empty leased_and_ready
unfolding init enqueue claim sweep expired sweep_keys claim_ready put places count_refs count_key
Reach-leased_and_ready = next Reach-one_leased (enqueued 1 refl (omega arith) refl)

Reach-IsValid_example : IsValid leased_and_ready
Reach-IsValid_example = Reach-IsValid Reach-leased_and_ready (init-IsValid tasks 1)

two-IsValid : IsValid leased_and_ready
two-IsValid = Reach-IsValid Reach-leased_and_ready (init-IsValid tasks 1)

a_held : get "s.a" leased_and_ready.inflight ≡ some (0, 10)
unfolding init enqueue claim sweep expired sweep_keys claim_ready put get
a_held = refl

claims_b : (claim 5 10 leased_and_ready).1 ≡ some 1
unfolding init enqueue claim sweep expired sweep_keys sweep_key claim_ready put get
claims_b = refl

claim_exclusive_example :
    (get "s.a" (claim 5 10 leased_and_ready).0.inflight ≡ some (0, 10))
    × (((claim 5 10 leased_and_ready).1 ≡ none)
        ⊎ ((s : ℕ) × ((claim 5 10 leased_and_ready).1 ≡ some s)
            × (key_of leased_and_ready s ≢ "s.a")))
claim_exclusive_example =
    claim_exclusive "s.a" 0 10 5 leased_and_ready two-IsValid a_held (omega arith) 10

sweep_redelivers_example :
    (get "s.a" (sweep 10 leased_and_ready).inflight ≡ none)
    × (attempt_of (sweep 10 leased_and_ready) 0 ≡ attempt_of leased_and_ready 0 + 1)
    × Landed (sweep 10 leased_and_ready) 0
sweep_redelivers_example =
    sweep_redelivers "s.a" 0 10 10 leased_and_ready two-IsValid a_held (omega arith)

accounts_delivery_example :
    (places "s.b" (claim 5 10 leased_and_ready).0 ≡ places "s.b" leased_and_ready)
    × (places "s.b" (extend 5 0 10 leased_and_ready) ≡ places "s.b" leased_and_ready)
    × (places "s.b" (depth 5 leased_and_ready).0 ≡ places "s.b" leased_and_ready)
    × (places "s.b" (enqueue 0 leased_and_ready)
        ≡ one_if (key_of leased_and_ready 0) "s.b" + places "s.b" leased_and_ready)
accounts_delivery_example = accounts_delivery "s.b" 5 10 0 leased_and_ready two-IsValid

a-Leased : Leased 0 leased_and_ready
unfolding init enqueue claim sweep expired sweep_keys claim_ready put get
a-Leased = (10, refl)

accounts_settlement_example :
    (places "s.a" (fail 0 leased_and_ready) ≡ places "s.a" leased_and_ready)
    × (places "s.a" (ack 0 leased_and_ready)
        ≡ (if key_of leased_and_ready 0 == "s.a" then 0 else places "s.a" leased_and_ready))
accounts_settlement_example = accounts_settlement "s.a" 0 leased_and_ready two-IsValid a-Leased

-- The lease on `s.a` runs out and it is delivered again: then its first worker fails it.
abbrev delivered_again : LocalQueue ℕ
delivered_again = sweep 10 leased_and_ready

a_not_held : get (key_of delivered_again 0) delivered_again.inflight ≡ none
unfolding init enqueue claim sweep expired sweep_keys sweep_key redeliver bump claim_ready put get
    remove
a_not_held = refl

fail_copies_example :
    places (key_of delivered_again 0) (fail 0 delivered_again)
    ≡ places (key_of delivered_again 0) delivered_again + 1
fail_copies_example = fail_copies 0 delivered_again a_not_held

-- Two expiries are one more than `max_redeliveries`: the task is dead.
a_dies : (sweep 30 (claim 20 10 (sweep 10 one_leased)).0).dlq ≡ 0 ∷ []
unfolding init enqueue claim sweep expired sweep_keys sweep_key redeliver bump claim_ready put get
    remove
a_dies = refl
