-- ===== src/Controller/Triage/Offline.antt =====
-- What `_handle_failures` of controller.py does with the default agent when no LLM answers.
use gleanflow.Prelude.{
  ℕ, ◌*◌, ◌≤◌, ◌≡◌, refl, Option, none, some, true, false, ◌⊎◌, inl, inr, List, [], ◌∷◌, ◌++◌,
  Bool-cases, ltb, nat_beq, nat_beq_refl, arith,
}
use gleanflow.Prelude.Dict.{get, get_or}
use gleanflow.Float.{FloatOps}
use gleanflow.Json.{Json, ◌>>=◌}
use gleanflow.Config.{PipelineConfig}
use gleanflow.Stage.{Stage, round_up}
use gleanflow.Queue.Local.{enqueue}
use gleanflow.Worker.Outcomes.{store-track, queue-track}
use gleanflow.Agent.{FailureEvent, Remediation, n_members, is_oom, heuristic}
use gleanflow.Agent.Llm.{Services, prompt, replied, or_heuristic, ask_llm}
use gleanflow.Controller.Event.{failure_event}
use gleanflow.Controller.Remedy.{Run, retry_with, resplit, apply, queue_task, set_task}
use gleanflow.Controller.Failures.{is_remediate, refuses, note_failed, handle_dead, handle_failures}
use gleanflow.Controller.Triage.{agent_handler}

module _ {W : Type 0} where
  abbrev pub split_into : Run W × List ℕ → Option (Run W × Option (List ℕ))
  split_into p = some (p.0, some p.1)

module _ {W F : Type 0} ⦃f : FloatOps W⦄ (now : Json W) (st : Stage W F) (cfg : PipelineConfig)
    (sv : Services W) (budget r : ℕ) (run : Run W) (event : FailureEvent W) where
  -- What `_handle_failures` does on one dead chunk, when the default agent hears nothing of the LLM.
  abbrev pub Answered : Type 0
  Answered =
      let noted = note_failed now st.name r run in
      let answer =
        handle_failures now st cfg (some (agent_handler sv cfg st)) budget (r ∷ []) run in
      ((is_oom sv.ninety sv.lower event ≡ true)
        × (2 ≤ n_members event)
        × (answer ≡ (resplit now st cfg r noted >>= split_into)))
      ⊎ ((rem : Remediation) × (is_oom sv.ninety sv.lower event ≡ true)
          × (n_members event ≤ 1)
          × (rem.mem ≡ some (round_up (get_or 16384 (get "mem" event.resources) * 2)))
          × (answer ≡ some (retry_with now st.name r rem noted, some (r ∷ [])))
          × ((retry_with now st.name r rem noted).world.queue.ready
              ≡ run.world.queue.ready ++ r ∷ [])
          × (((retry_with now st.name r rem noted).world.queue.heap r).attempt ≡ 0)
          × ((retry_with now st.name r rem noted).world.store ≡ run.world.store))
      ⊎ ((is_oom sv.ninety sv.lower event ≡ false) × (answer ≡ some (noted, none)))

module _ {W F : Type 0} ⦃f : FloatOps W⦄ (now : Json W) (st : Stage W F) (cfg : PipelineConfig)
    (sv : Services W) (budget r : ℕ) (run : Run W) (event : FailureEvent W)
    (told : failure_event cfg st (run.world.queue.heap r) run.world.store ≡ some event)
    (offline : sv.complete (prompt sv event) ≡ none) where
  proposes :
      agent_handler sv cfg st r (note_failed now st.name r run)
      ≡ some (heuristic sv.ninety sv.lower event)
  unfolding agent_handler note_failed ask_llm replied or_heuristic
  proposes = rw (store-track, queue-track, told, offline) refl

  module _ (policy : is_remediate cfg.failure_policy ≡ true) (left : 1 ≤ budget) where
    abbrev noted : Run W
    noted = note_failed now st.name r run

    spent : nat_beq budget 0 ≡ false
    spent = ground arith

    on_retry :
        is_oom sv.ninety sv.lower event ≡ true
        → ltb 1 (n_members event) ≡ false
        → handle_failures now st cfg (some (agent_handler sv cfg st)) budget (r ∷ []) run
          ≡ some
              (retry_with now st.name r (heuristic sv.ninety sv.lower event) noted, some (r ∷ []))
    unfolding handle_failures handle_dead refuses apply get_or heuristic
    on_retry oom one = rw (proposes, policy, oom, one, spent) refl

    split_again :
        (o : Option (Run W × List ℕ))
        → ((o >>= split_into) >>= λ (p : Run W × Option (List ℕ)). elim p.1 [
          | none ↦ some (p.0, none)
          | some ts ↦ some (p.0, some ts)
        ])
          ≡ (o >>= split_into)
    split_again none = refl
    split_again (some p) = refl

    on_split :
        is_oom sv.ninety sv.lower event ≡ true
        → ltb 1 (n_members event) ≡ true
        → handle_failures now st cfg (some (agent_handler sv cfg st)) budget (r ∷ []) run
          ≡ (resplit now st cfg r noted >>= split_into)
    unfolding handle_failures handle_dead refuses apply get_or heuristic
    on_split oom many =
        rw (proposes, policy, oom, many, spent) (split_again (resplit now st cfg r noted))

    on_report :
        is_oom sv.ninety sv.lower event ≡ false
        → handle_failures now st cfg (some (agent_handler sv cfg st)) budget (r ∷ []) run
          ≡ some (noted, none)
    unfolding handle_failures handle_dead refuses apply get_or heuristic
    on_report other = rw (proposes, policy, other, spent) refl

    asks :
        is_oom sv.ninety sv.lower event ≡ true
        → ltb 1 (n_members event) ≡ false
        → (heuristic sv.ninety sv.lower event).mem
          ≡ some (round_up (get_or 16384 (get "mem" event.resources) * 2))
    unfolding heuristic
    asks oom few = rw (oom, few) refl

    ready_again :
        (rem : Remediation)
        → (retry_with now st.name r rem noted).world.queue.ready ≡ run.world.queue.ready ++ r ∷ []
    unfolding retry_with queue_task set_task enqueue note_failed
    ready_again rem = rw (queue-track, queue-track) refl

    fresh_again :
        (rem : Remediation) → ((retry_with now st.name r rem noted).world.queue.heap r).attempt ≡ 0
    unfolding retry_with queue_task set_task enqueue note_failed
    fresh_again rem = rw (queue-track, nat_beq_refl r) refl

    stored :
        (rem : Remediation) → (retry_with now st.name r rem noted).world.store ≡ run.world.store
    unfolding retry_with queue_task set_task note_failed
    stored rem = rw (store-track, store-track) refl

    -- When the LLM of the default agent does not answer, under the policy `remediate` and with a remedy
    -- left, a dead chunk that ran out of memory is split where it has two members or more, and else goes
    -- back to the end of the queue with its attempts reset and a request for twice its memory, rounded
    -- up, while the store stays as it is; a chunk that failed otherwise fails the stage.
    pub handle_failures_offline : Answered now st cfg sv budget r run event
    handle_failures_offline =
        let rem = heuristic sv.ninety sv.lower event in
        elim (Bool-cases (is_oom sv.ninety sv.lower event)) [
          | inl oom ↦ elim (Bool-cases (ltb 1 (n_members event))) [
            | inl many ↦ inl (oom, ground arith, on_split oom many)
            | inr few ↦ inr (
                inl (
                  rem,
                  oom,
                  ground arith,
                  asks oom few,
                  on_retry oom few,
                  ready_again rem,
                  fresh_again rem,
                  stored rem,
                ))
          ]
          | inr other ↦ inr (inr (other, on_report other))
        ]
