-- ===== src/Controller/Remedy/Split.antt =====
-- What `_resplit` of controller.py puts on the queue.
use text.Mathlib.TextLemmas.{append_cancel_left}
use gleanflow.Prelude.{
  ℕ, suc, ◌+◌, ◌<◌, ◌≤◌, ◌≡◌, ◌≢◌, refl, sym, ap, ◌∙◌, String, some, false, List, [], ◌∷◌, ◌++◌,
  map, length, All, IsUnique, nat_beq, nat_beq_refl, inl, inr, Option-cases, leb, arith,
}
use mathlib.Core.List.{append-nil, append_assoc}
use gleanflow.Prelude.Dict.{Dict, get}
use gleanflow.Decimal.{str_inj}
use gleanflow.Float.{FloatOps}
use gleanflow.Json.{Json, as_str, as_dict, as_list, required, optional}
use gleanflow.Stage.{Stage}
use gleanflow.Task.{Task}
use gleanflow.Queue.Local.{LocalQueue, enqueue}
use mathlib.Core.Path.{subst}
use gleanflow.Config.{PipelineConfig}
use gleanflow.Tracker.{set_tasks}
use gleanflow.Controller.Manifest.{manifest_replace}
use gleanflow.World.{World}
use gleanflow.Worker.Outcomes.{queue-track}
use gleanflow.Controller.Steps.{bind_some, some_inj}
use gleanflow.Controller.Plan.{task_key}
use gleanflow.Controller.Plan.Handoff.{task_key_inj}
use gleanflow.Controller.Remedy.{
  Run, set_task, queue_task, sub_id, sub_input, sub_tasks, sub_entries, queue_subs, register_tasks,
  split, resplit,
}

module _ {W : Type 0} where
  queue-queue_task :
      (now : Json W) (stage : String) (r : ℕ) (info : Dict (Json W)) (w : World W)
      → (queue_task now stage r info w).queue ≡ enqueue r w.queue
  unfolding queue_task
  queue-queue_task now stage r info w = queue-track _ _ _ _ _ _

  -- What queueing the tasks `ts` does to the queue, for new objects from `n` on.
  pub record Queued (n : ℕ) (ts : List (Task W)) (refs : List ℕ) (q q' : LocalQueue W)
      : Type 0 where
    pub ready : q'.ready ≡ q.ready ++ refs
    pub objects : map q'.heap refs ≡ ts
    pub others : (s : ℕ) → s < n → q'.heap s ≡ q.heap s
    pub inflight : q'.inflight ≡ q.inflight
    pub dead : q'.dlq ≡ q.dlq

  Queued-first :
      (n : ℕ) (t : Task W) (ts : List (Task W)) (refs : List ℕ) (w : World W) (q1 q' : LocalQueue W)
      → q1 ≡ enqueue n (set_task n t w).queue
      → Queued (n + 1) ts refs q1 q'
      → Queued n (t ∷ ts) (n ∷ refs) w.queue q'
  unfolding enqueue set_task
  Queued-first n t ts refs w q1 q' e d = record {
    ready = d.ready ∙ ap (λ q. q.ready ++ refs) e ∙ append_assoc w.queue.ready (n ∷ []) refs;
    objects =
        let here : q'.heap n ≡ t =
          d.others n (omega arith) ∙ ap (λ q. q.heap n) e ∙ rw nat_beq_refl in
        rw (here, d.objects);
    others = λ s h.
        let other : nat_beq n s ≡ false = ground arith in
        d.others s (omega arith) ∙ ap (λ q. q.heap s) e ∙ rw other;
    inflight = d.inflight ∙ ap (λ q. q.inflight) e;
    dead = d.dead ∙ ap (λ q. q.dlq) e;
  }

  queue_subs_lem :
      (now : Json W) (stage parent : String) (ts : List (Task W)) (run : Run W)
      → Queued run.fresh ts
          (queue_subs now stage parent ts run).1
          run.world.queue
          (queue_subs now stage parent ts run).0.world.queue
  unfolding queue_subs
  queue_subs_lem now stage parent [] run = record {
    ready = sym (append-nil _);
    objects = refl;
    others = λ s h. refl;
    inflight = refl;
    dead = refl;
  }
  queue_subs_lem now stage parent (t ∷ ts) run =
      let info = ("resplit_of", Json.str parent) ∷ [] in
      let w = set_task run.fresh t run.world in
      let run' = record run {
        world = queue_task now stage run.fresh info w;
        fresh = run.fresh + 1;
      } in
      Queued-first run.fresh t ts (queue_subs now stage parent ts run').1 run.world run'.world.queue
        _ (queue-queue_task now stage run.fresh info w) (queue_subs_lem now stage parent ts run')

sub_key_inj :
    (stage pid : String) (i j : ℕ)
    → task_key stage (sub_id pid i) ≡ task_key stage (sub_id pid j)
    → i ≡ j
unfolding sub_id
sub_key_inj stage pid i j e =
    str_inj i j
      (append_cancel_left "-m" _ _ (append_cancel_left pid _ _ (task_key_inj stage _ _ e)))

module _ {W : Type 0} (stage pid : String) (kind name : Json W) (weight : W) where
  later_keys :
      (m n : ℕ) (ms : List (Json W))
      → m < n
      → All
          (λ k. task_key stage (sub_id pid m) ≢ k)
          (map (λ t. t.key) (sub_tasks stage pid kind name weight n ms))
  unfolding sub_tasks
  later_keys m n [] h = tt
  later_keys m n (x ∷ ms) h = (
    λ e. absurd (omega (arith, sub_key_inj stage pid m n e)),
    later_keys m (suc n) ms (omega arith),
  )

  keys-sub_tasks-IsUnique :
      (n : ℕ) (ms : List (Json W))
      → IsUnique (map (λ t. t.key) (sub_tasks stage pid kind name weight n ms))
  unfolding sub_tasks
  keys-sub_tasks-IsUnique n [] = tt
  keys-sub_tasks-IsUnique n (m ∷ ms) =
      (later_keys n (suc n) ms (omega arith), keys-sub_tasks-IsUnique (suc n) ms)

  inputs-sub_tasks :
      (n : ℕ) (ms : List (Json W))
      → map (λ t. get "_in" t.params) (sub_tasks stage pid kind name weight n ms)
        ≡ map (λ m. some (sub_input kind name m)) ms
  unfolding sub_tasks get
  inputs-sub_tasks n [] = refl
  inputs-sub_tasks n (m ∷ ms) =
      ap (◌∷◌ (some (sub_input kind name m))) (inputs-sub_tasks (suc n) ms)

module _ {W : Type 0} where
  queue-register_tasks :
      (now : Json W) (stage : String) (keys : List String) (w w' : World W)
      → register_tasks now stage keys w ≡ some w'
      → w'.queue ≡ w.queue
  unfolding register_tasks
  queue-register_tasks now stage keys w w' e = elim (Option-cases w.tracker) [
    | inl untracked ↦ ap (λ x. x.queue) (sym (some_inj (rw untracked at e)))
    | inr (t, tracked) ↦
        let (t', _, e1) = bind_some (set_tasks now stage keys t) _ w' (rw tracked at e) in
        ap (λ x. x.queue) (sym (some_inj e1))
  ]

  -- What the split of a task with the members `ms` has done to the run.
  pub record IsSplit (ms : List (Json W)) (run run' : Run W) (refs : List ℕ) : Type 0 where
    pub tasks : List (Task W)
    pub kind : Json W
    pub name : Json W
    -- one task for each member, in order, which is its only input
    pub inputs : map (λ t. get "_in" t.params) tasks ≡ map (λ m. some (sub_input kind name m)) ms
    pub distinct : IsUnique (map (λ t. t.key) tasks)
    pub queued : Queued run.fresh tasks refs run.world.queue run'.world.queue

module _ {W F : Type 0} ⦃f : FloatOps W⦄ where
  split_lem :
      (now : Json W) (st : Stage W F) (r : ℕ) (input : Dict (Json W)) (ms : List (Json W))
      (run run' : Run W) (refs : List ℕ)
      → split now st r input ms run ≡ some (run', refs)
      → IsSplit ms run run' refs
  unfolding split
  split_lem now st r input ms run run' refs e =
      let parent = run.world.queue.heap r in
      let (pid, _, e1) = bind_some (required as_str "_chunk_id" parent.params) _ (run', refs) e in
      let (kind, _, e2) = bind_some (get "kind" input) _ (run', refs) e1 in
      let (name, _, e3) = bind_some (get "name" input) _ (run', refs) e2 in
      let weight = f.div parent.weight (length ms) in
      let subs = sub_tasks st.name pid kind name weight 0 ms in
      let (store, _, e4) =
        bind_some (manifest_replace st.name pid (sub_entries pid weight 0 ms) run.world.store) _
          (run', refs) e3 in
      let w0 = record run.world { store = store } in
      let (w, registered, e5) =
        bind_some (register_tasks now st.name (map (λ t. t.key) subs) w0) _ (run', refs) e4 in
      let same : w.queue ≡ run.world.queue =
        queue-register_tasks now st.name (map (λ t. t.key) subs) w0 w registered in
      let made = queue_subs_lem now st.name parent.key subs (record run { world = w }) in
      let result = some_inj e5 in
      record {
        tasks = subs;
        kind = kind;
        name = name;
        inputs = inputs-sub_tasks st.name pid kind name weight 0 ms;
        distinct = keys-sub_tasks-IsUnique st.name pid kind name weight 0 ms;
        queued =
            subst (λ q. Queued run.fresh subs refs q run'.world.queue) same
              (subst (λ p. Queued run.fresh subs p.1 w.queue p.0.world.queue) result made);
      }

  -- When `_resplit` ends on a task with two members or more, it has put one new task object for each
  -- member behind the ready tasks, in order, with distinct keys and each with its member as the only
  -- input; the other tasks, the leases and the dead letters are as before.
  pub resplit_splits :
      (now : Json W) (st : Stage W F) (cfg : PipelineConfig) (r : ℕ) (input : Dict (Json W))
      (ms : List (Json W)) (run run' : Run W) (refs : List ℕ)
      → optional as_dict "_in" [] (run.world.queue.heap r).params ≡ some input
      → optional as_list "members" [] input ≡ some ms
      → 2 ≤ length ms
      → resplit now st cfg r run ≡ some (run', refs)
      → IsSplit ms run run' refs
  unfolding resplit
  resplit_splits now st cfg r input ms run run' refs has_input has_members many e =
      let several : leb (length ms) 1 ≡ false = ground arith in
      split_lem now st r input ms run run' refs (rw (has_input, has_members, several) at e)
