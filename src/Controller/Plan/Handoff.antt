-- ===== src/Controller/Plan/Handoff.antt =====
-- What `_plan` of controller.py hands to the queue and to the downstream stage.
use text.Mathlib.TextLemmas.{append_cancel_left}
use gleanflow.Prelude.{
  ℕ, ◌≡◌, ◌≢◌, refl, sym, ap, ◌∙◌, String, Option, none, some, false, List, [], ◌∷◌, map, All,
  IsUnique,
}
use mathlib.Core.Path.{subst}
use gleanflow.Float.{FloatOps}
use gleanflow.Store.{Store}
use gleanflow.Task.{Task}
use gleanflow.Partition.{Chunk, pack}
use gleanflow.Partition.Chunks.{ids-pack-IsUnique}
use gleanflow.Stage.{stage, Upstream, Stage}
use gleanflow.Controller.Manifest.{read_manifest}
use gleanflow.Controller.Manifest.Laws.{published, read_manifest-put}
use gleanflow.Controller.Steps.{bind_some, some_inj}
use gleanflow.Controller.Plan.{
  target_of, chunks_of, upstream_chunks, sized_chunks, stage_chunks, task_key, task_for, plan,
}

pub task_key_inj : (name i j : String) → task_key name i ≡ task_key name j → i ≡ j
unfolding task_key
task_key_inj name i j e = append_cancel_left "/" i j (append_cancel_left name _ _ e)

All-keys :
    (name i : String) (js : List String)
    → All (λ j. i ≢ j) js
    → All (λ k. task_key name i ≢ k) (map (task_key name) js)
All-keys name i [] h = tt
All-keys name i (j ∷ js) h = (λ e. h.0 (task_key_inj name i j e), All-keys name i js h.1)

keys-IsUnique :
    (name : String) (ids : List String) → IsUnique ids → IsUnique (map (task_key name) ids)
keys-IsUnique name [] u = tt
keys-IsUnique name (i ∷ ids) u = (All-keys name i ids u.0, keys-IsUnique name ids u.1)

module _ {W : Type 0} where
  -- A task's key and weight, as its chunk gives them, and as the task has them.
  abbrev pub chunk_job : String → Chunk W → String × W
  chunk_job name c = (task_key name c.id, c.weight)

  abbrev pub task_job : Task W → String × W
  task_job t = (t.key, t.weight)

module _ {W F : Type 0} ⦃f : FloatOps W⦄ where
  -- The chunks behind a plan.
  plan_chunks :
      (enumerate : Upstream → Option (List (Chunk W))) (st : Stage W F) (store store' : Store W)
      (tasks : List (Task W))
      → plan enumerate st store ≡ some (store', tasks)
      → (members chunks : List (Chunk W)) × (upstream_chunks enumerate store st ≡ some members)
        × (stage_chunks st members ≡ some chunks)
        × (read_manifest st.name store' ≡ some (map published chunks))
        × (tasks ≡ map (task_for st) chunks)
  unfolding plan
  plan_chunks enumerate st store store' tasks e =
      let (members, read, e1) =
        bind_some (upstream_chunks enumerate store st) _ (store', tasks) e in
      let (chunks, cut, e2) = bind_some (stage_chunks st members) _ (store', tasks) e1 in
      let p = some_inj e2 in
      (
        members,
        chunks,
        read,
        cut,
        ap (λ x. read_manifest st.name x.0) (sym p) ∙ read_manifest-put st.name chunks store,
        sym (ap (λ x. x.1) p),
      )

  published_keys :
      (st : Stage W F) (cs : List (Chunk W))
      → map (chunk_job st.name) (map published cs) ≡ map task_job (map (task_for st) cs)
  unfolding task_for
  published_keys st [] = refl
  published_keys st (c ∷ cs) = ap (◌∷◌ (task_key st.name c.id, c.weight)) (published_keys st cs)

  -- After a stage is planned, a stage that reads it is given one chunk for each task of the plan, in
  -- the same order and with the same weight, and under the id that the task's key is made of.
  pub plan_handoff :
      (enumerate : Upstream → Option (List (Chunk W))) (st next : Stage W F)
      (store store' : Store W) (tasks : List (Task W))
      → next.reads ≡ some (record { name = st.name; kind = stage })
      → plan enumerate st store ≡ some (store', tasks)
      → (cs : List (Chunk W)) × (upstream_chunks enumerate store' next ≡ some cs)
        × (map (chunk_job st.name) cs ≡ map task_job tasks)
  unfolding upstream_chunks chunks_of
  plan_handoff enumerate st next store store' tasks reads e =
      let (members, chunks, _, _, written, made) = plan_chunks enumerate st store store' tasks e in
      (map published chunks, rw reads written, rw made (published_keys st chunks))

  task_keys :
      (st : Stage W F) (cs : List (Chunk W))
      → map (λ t. t.key) (map (task_for st) cs) ≡ map (task_key st.name) (map (λ c. c.id) cs)
  unfolding task_for
  task_keys st [] = refl
  task_keys st (c ∷ cs) = ap (◌∷◌ (task_key st.name c.id)) (task_keys st cs)

  -- The tasks of a stage that is cut by a target size above 0, and has no hook, have distinct keys.
  pub keys-plan-IsUnique :
      (enumerate : Upstream → Option (List (Chunk W))) (st : Stage W F) (store store' : Store W)
      (tasks : List (Task W)) (target : ℕ)
      → st.partition ≡ none
      → target_of st.target_rows st.target_bytes ≡ some target
      → f.le (f.of_int target) f.fzero ≡ false
      → plan enumerate st store ≡ some (store', tasks)
      → IsUnique (map (λ t. t.key) tasks)
  unfolding stage_chunks sized_chunks
  keys-plan-IsUnique enumerate st store store' tasks target no_hook sized above e =
      let (members, chunks, _, cut, _, made) = plan_chunks enumerate st store store' tasks e in
      let packs : pack members (f.of_int target) "c" ≡ chunks =
        some_inj (rw (no_hook, sized) at cut) in
      rw (made, task_keys)
        (keys-IsUnique st.name (map (λ c. c.id) chunks) (
          subst (λ cs. IsUnique (map (λ c. c.id) cs)) packs
            (ids-pack-IsUnique members (f.of_int target) "c" above)))
