-- ===== src/Agent/Triage.antt =====
-- What the triage of agent.py without an LLM proposes.
use gleanflow.Prelude.{
  ℕ, ◌*◌, ◌+◌, ◌%◌, ◌≤◌, ◌<◌, ◌≡◌, refl, String, none, some, true, false, ◌⊎◌, inl, inr, arith, ltb,
  Bool-cases,
}
use gleanflow.Prelude.Dict.{get, get_or}
use gleanflow.Float.{FloatOps}
use gleanflow.Stage.{round_up}
use gleanflow.Stage.Memory.{round_up_bounds}
use gleanflow.Agent.{FailureEvent, n_members, is_oom, heuristic}

module _ {W : Type 0} ⦃f : FloatOps W⦄ (ninety : W → W) (lower : String → String) where
  -- The triage asks for a resplit only for an out-of-memory chunk with two members or more; for one
  -- with fewer it asks for a retry with twice the memory (of 16384 MB, if that is not known) rounded
  -- up to the next multiple of 4096 MB, and for any other failure it reports.
  pub heuristic_lem :
      (event : FailureEvent W)
      → ((is_oom ninety lower event ≡ true)
          × (2 ≤ n_members event)
          × ((heuristic ninety lower event).action ≡ "resplit"))
        ⊎ ((mem : ℕ) × (is_oom ninety lower event ≡ true)
            × (n_members event ≤ 1)
            × ((heuristic ninety lower event).action ≡ "retry_with")
            × ((heuristic ninety lower event).mem ≡ some mem)
            × (mem % 4096 ≡ 0)
            × (get_or 16384 (get "mem" event.resources) * 2 ≤ mem)
            × (mem < get_or 16384 (get "mem" event.resources) * 2 + 4096))
        ⊎ ((is_oom ninety lower event ≡ false)
            × ((heuristic ninety lower event).action ≡ "report")
            × ((heuristic ninety lower event).mem ≡ none))
  unfolding heuristic
  heuristic_lem event =
      let twice = get_or 16384 (get "mem" event.resources) * 2 in
      let (above, near, whole) = round_up_bounds twice in
      elim (Bool-cases (is_oom ninety lower event)) [
        | inl oom ↦ elim (Bool-cases (ltb 1 (n_members event))) [
          | inl many ↦ rw (oom, many) (inl (refl, ground arith, refl))
          | inr few ↦
              rw (oom, few)
                (inr (inl (round_up twice, refl, ground arith, refl, refl, whole, above, near)))
        ]
        | inr other ↦ rw other (inr (inr (refl, refl, refl)))
      ]
