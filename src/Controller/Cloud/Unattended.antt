-- ===== src/Controller/Cloud/Unattended.antt =====
-- What becomes of a chunk that fails for good on the aws backend of controller.py.
use gleanflow.Prelude.{
  ℕ, zero, suc, ◌+◌, ◌≤◌, ◌≡◌, refl, String, false, ◌&&◌, List, [], ◌∷◌, In, inl, inr, leb, nat_beq,
  arith, Bool-cases,
}
use gleanflow.Prelude.Dict.{Dict, keys}
use gleanflow.Float.{FloatOps}
use gleanflow.Json.{Json}
use gleanflow.Task.{Task}
use gleanflow.Store.{Store}
use gleanflow.Markers.{has_result}
use gleanflow.Queue.Sqs.{SqsOps, depth}
use gleanflow.Fleet.Batch.{BatchOps, failed_count}
use gleanflow.Controller.Drain.{all_done}
use gleanflow.Controller.Cloud.{
  Cloud, CloudEnd, returned, chunks_dead, workers_dying, too_late, waiting, dlq_of, dead_in,
  none_done, size_fleet, refresh, guard_crash, cloud_turn, cloud_drain,
}

-- The drain gave up on the deadline or on dying workers: it neither returned nor saw a dead chunk.
abbrev pub IsGivenUp : {Q B W : Type 0} → CloudEnd Q B W → Type 0
IsGivenUp (returned c) = ⊥
IsGivenUp (chunks_dead c) = ⊥
IsGivenUp (workers_dying c) = Unit
IsGivenUp (too_late c) = Unit
IsGivenUp waiting = ⊥

all_done-lacks :
    {W : Type 0} (store : Store W) (k : String) (ks : List String)
    → In k ks
    → has_result store k ≡ false
    → all_done store ks ≡ false
unfolding all_done
all_done-lacks store k [] i h = elim i [ ]
all_done-lacks store k (j ∷ ks) (inl e) h =
    let here : has_result store j ≡ false = rw e h in rw here refl
all_done-lacks store k (j ∷ ks) (inr i) h = let rest = all_done-lacks store k ks i h in ground arith

module _ {Q B W : Type 0} ⦃f : FloatOps W⦄ (sqs : SqsOps Q W) (batch : BatchOps B W)
    (stage : String) (max_workers : ℕ) (stamp : ℕ → Json W) where
  store-size_fleet :
      (c : Cloud Q B W) → (size_fleet sqs batch stage max_workers stamp c).store ≡ c.store
  unfolding size_fleet
  store-size_fleet c = elim (Bool-cases (nat_beq (depth sqs c.queue) 0)) [
    | inl empty ↦ rw empty refl
    | inr more ↦ rw more refl
  ]

  guard_crash-IsGivenUp :
      (now : ℕ) (active : Dict (Task W)) (c : Cloud Q B W) (go_on : CloudEnd Q B W)
      → IsGivenUp go_on
      → IsGivenUp (guard_crash sqs batch stage max_workers stamp now active c go_on)
  unfolding guard_crash
  guard_crash-IsGivenUp now active c go_on h =
      elim (Bool-cases (
        none_done c.store (keys active)
        && leb c.fleet.cfg.worker_failure_cap (failed_count batch c.fleet))) [
          | inl dying ↦ rw dying tt
          | inr alive ↦ rw alive h
        ]

  cloud_turn-IsGivenUp :
      (now deadline : ℕ) (active : Dict (Task W))
      (remedied : List (Task W) → Cloud Q B W → CloudEnd Q B W) (c : Cloud Q B W)
      (go_on : Cloud Q B W → CloudEnd Q B W) (k : String)
      → In k (keys active)
      → has_result c.store k ≡ false
      → (leb deadline now ≡ false → (c' : Cloud Q B W) → IsGivenUp (go_on c'))
      → IsGivenUp
          (cloud_turn sqs batch stage max_workers stamp now deadline active remedied c go_on)
  unfolding cloud_turn dlq_of dead_in refresh
  cloud_turn-IsGivenUp now deadline active remedied c go_on k i lacks rest =
      let c1 =
        refresh sqs batch stage max_workers stamp now active
          (size_fleet sqs batch stage max_workers stamp c) in
      let unfinished : all_done c1.store (keys active) ≡ false =
        all_done-lacks c1.store k (keys active) i (rw store-size_fleet lacks) in
      elim (Bool-cases (leb deadline now)) [
        | inl over ↦ rw over tt
        | inr runs ↦
            rw (runs, unfinished) (guard_crash-IsGivenUp now active c1 (go_on c1) (rest runs c1))
      ]

  module _ (clock : ℕ → ℕ) (others : ℕ → Cloud Q B W → Cloud Q B W) (deadline : ℕ)
      (remedied : List (Task W) → Cloud Q B W → CloudEnd Q B W) where
    -- On the aws backend a chunk whose result never appears, as one that SQS has moved to its
    -- dead-letter queue, is not noticed: whatever the failure handler would do, the drain waits for its
    -- deadline, unless the count of failed worker jobs stops it.
    pub cloud_drain-IsGivenUp :
        (turns i : ℕ) (active : Dict (Task W)) (c : Cloud Q B W) (k : String)
        → In k (keys active)
        → ((j : ℕ) (c' : Cloud Q B W) → has_result (others j c').store k ≡ false)
        → deadline ≤ clock (i + turns)
        → IsGivenUp (
            cloud_drain sqs batch stage max_workers stamp clock others deadline remedied
              (suc turns)
              i
              active
              c)
    unfolding cloud_drain
    cloud_drain-IsGivenUp zero i active c k member never late =
        let same : i + 0 ≡ i = omega arith in
        let over : deadline ≤ clock i = rw same at late in
        cloud_turn-IsGivenUp (clock i) deadline active remedied (others i c) (λ c'. waiting) k
          member (never i c) (λ runs c'. absurd (ground arith))
    cloud_drain-IsGivenUp (suc turns) i active c k member never late =
        let moved : i + suc turns ≡ suc i + turns = omega arith in
        let late' : deadline ≤ clock (suc i + turns) = rw moved at late in
        cloud_turn-IsGivenUp (clock i) deadline active remedied (others i c)
          (cloud_drain sqs batch stage max_workers stamp clock others deadline remedied (suc turns)
            (suc i) active)
          k member (never i c)
          (λ runs c'. cloud_drain-IsGivenUp turns (suc i) active c' k member never late')
