-- ===== src/Controller/Remedy.antt =====
-- The remedies of controller.py for a dead task: `_retry_with`, `_resplit` and `_skip`. `fleet` is `fleet.resources`, which only
-- some fleets have. A task object that the controller creates gets the reference `fresh`.
pub mod Split
use Prim.Native.String.{◌++◌ as append}
use gleanflow.Prelude.{
  ℕ, zero, suc, ◌+◌, ◌*◌, String, Option, none, some, Bool, true, false, not, ◌&&◌, ◌||◌, List, [],
  ◌∷◌, ◌++◌, map, length, nat_beq, leb, ◌==◌, if◌then◌else◌,
}
use gleanflow.Prelude.Dict.{Dict, get, get_or}
use gleanflow.Decimal
use gleanflow.Float.{FloatOps}
use gleanflow.Json.{
  Json, bool, float, str, array, object, as_str, as_dict, as_list, required, optional, ◌>>=◌,
}
use gleanflow.Config.{PipelineConfig, FailurePolicy, off, report, remediate, or_else}
use gleanflow.Stage.{Stage, Resources, round_up, resources}
use gleanflow.Task.{Task, TaskState, queued, failed, skipped}
use gleanflow.Tracker.{Tracker, set_tasks}
use gleanflow.Queue.Local.{LocalQueue, enqueue}
use gleanflow.World.{World, track}
use gleanflow.Agent.{Remediation}
use gleanflow.Controller.Manifest.{manifest_replace}
use gleanflow.Controller.Plan.{task_key}

pub record Run (W : Type 0) : Type 0 where
  pub world : World W
  pub fleet : Option Resources
  pub fresh : ℕ

-- `if rem.mem: ...` and `if rem.vcpu: ...`
unfoldable pub resize : Remediation → Resources → Resources
resize rem res = record res { mem = or_else rem.mem res.mem; vcpu = or_else rem.vcpu res.vcpu }

module _ {W : Type 0} where
  -- A task object is made, or one is changed in place.
  unfoldable pub set_task : ℕ → Task W → World W → World W
  set_task r t w =
      let q = w.queue in
      record w { queue = record q { heap = λ s. if nat_beq r s then t else q.heap s } }

  -- `queue.enqueue(task)` and the transition to QUEUED
  unfoldable pub queue_task : Json W → String → ℕ → Dict (Json W) → World W → World W
  queue_task now stage r info w =
      let w' = record w { queue = enqueue r w.queue } in
      track now stage (w.queue.heap r).key queued info w'

  unfoldable pub retry_with : Json W → String → ℕ → Remediation → Run W → Run W
  retry_with now stage r rem run =
      let task = run.world.queue.heap r in
      let w = set_task r (record task { attempt = 0 }) run.world in
      record run {
        world = queue_task now stage r (("retry", bool true) ∷ []) w;
        fleet = elim run.fleet [ none ↦ none | some res ↦ some (resize rem res) ];
      }

-- `f"{pid}-m{j}"`
unfoldable pub sub_id : String → ℕ → String
sub_id pid j = append pid (append "-m" (Decimal.str j))

module _ {W : Type 0} where
  unfoldable pub sub_input : Json W → Json W → Json W → Json W
  sub_input kind name m =
      object (("kind", kind) ∷ ("name", name) ∷ ("members", array (m ∷ [])) ∷ [])

  -- The tasks for the members from number `j` on, each of the weight `weight`.
  unfoldable pub sub_tasks :
      String → String → Json W → Json W → W → ℕ → List (Json W) → List (Task W)
  sub_tasks stage pid kind name weight j [] = []
  sub_tasks stage pid kind name weight j (m ∷ ms) =
      record {
        stage = stage;
        key = task_key stage (sub_id pid j);
        params = ("_chunk_id", str (sub_id pid j)) ∷ ("_in", sub_input kind name m) ∷ [];
        weight = weight;
        attempt = 0;
      }
      ∷ sub_tasks stage pid kind name weight (suc j) ms

  -- `{"id": s.params["_chunk_id"], "params": {}, "weight": s.weight}`
  unfoldable pub sub_entries : String → W → ℕ → List (Json W) → List (Json W)
  sub_entries pid weight j [] = []
  sub_entries pid weight j (m ∷ ms) =
      object (("id", str (sub_id pid j)) ∷ ("params", object []) ∷ ("weight", float weight) ∷ [])
      ∷ sub_entries pid weight (suc j) ms

  -- The loop that enqueues the new tasks; a new object gets the next reference.
  unfoldable pub queue_subs : Json W → String → String → List (Task W) → Run W → Run W × List ℕ
  queue_subs now stage parent [] run = (run, [])
  queue_subs now stage parent (t ∷ ts) run =
      let r = run.fresh in
      let w = set_task r t run.world in
      let run' = record run {
        world = queue_task now stage r (("resplit_of", str parent) ∷ []) w;
        fresh = r + 1;
      } in
      let (after, refs) = queue_subs now stage parent ts run' in (after, r ∷ refs)

  -- `tracker.set_tasks`; `none` where the stage is not registered (KeyError)
  unfoldable pub register_tasks : Json W → String → List String → World W → Option (World W)
  register_tasks now stage keys w = elim w.tracker [
    | none ↦ some w
    | some t ↦ set_tasks now stage keys t >>= λ t'. some (record w { tracker = some t' })
  ]

  -- `_skip`
  unfoldable pub skip_chunk : Json W → String → ℕ → Run W → Option (Run W)
  skip_chunk now stage r run = do
    let task = run.world.queue.heap r
    let w = track now stage task.key skipped (("skipped_by", str "agent") ∷ []) run.world
    pid ← required as_str "_chunk_id" task.params
    store ← manifest_replace stage pid [] w.store
    some (record run { world = record w { store = store } })

module _ {W F : Type 0} ⦃f : FloatOps W⦄ where
  -- `_resplit` where the task has two members or more
  unfoldable pub split :
      Json W → Stage W F → ℕ → Dict (Json W) → List (Json W) → Run W → Option (Run W × List ℕ)
  split now st r input ms run = do
    let parent = run.world.queue.heap r
    pid ← required as_str "_chunk_id" parent.params
    kind ← get "kind" input
    name ← get "name" input
    let weight = f.div parent.weight (length ms)
    let subs = sub_tasks st.name pid kind name weight 0 ms
    store ← manifest_replace st.name pid (sub_entries pid weight 0 ms) run.world.store
    w ← register_tasks now st.name (map (λ t. t.key) subs) (record run.world { store = store })
    some (queue_subs now st.name parent.key subs (record run { world = w }))

  unfoldable pub more_memory : Stage W F → PipelineConfig → Remediation
  more_memory st cfg = record {
    action = "retry_with";
    mem = some (round_up ((resources st cfg).mem * 2));
    vcpu = none;
    factor = 0;
    diagnosis = "";
    fix = "";
  }

  -- `_resplit`
  unfoldable pub resplit : Json W → Stage W F → PipelineConfig → ℕ → Run W → Option (Run W × List ℕ)
  resplit now st cfg r run = do
    let parent = run.world.queue.heap r
    input ← optional as_dict "_in" [] parent.params
    ms ← optional as_list "members" [] input
    (if leb (length ms) 1
        then some (retry_with now st.name r (more_memory st cfg) run, r ∷ [])
        else split now st r input ms run)

  -- One remedy; `none` inside is the answer that fails the stage.
  unfoldable pub apply :
      Json W
      → Stage W F
      → PipelineConfig
      → ℕ
      → Remediation
      → Run W
      → Option (Run W × Option (List ℕ))
  apply now st cfg r rem run =
      if rem.action == "retry_with"
      then some (retry_with now st.name r rem run, some (r ∷ []))
      else if rem.action == "resplit"
      then (resplit now st cfg r run >>= λ p. some (p.0, some p.1))
      else if rem.action == "skip"
      then (skip_chunk now st.name r run >>= λ run'. some (run', some []))
      else some (run, none)
