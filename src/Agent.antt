-- ===== src/Agent.antt =====
-- gleanflow/agent.py: the failure event, and the triage that needs no LLM. `ninety` is Python's
-- `0.9 * x` on floats and `lower` its `str.lower`.
pub mod Triage
pub mod Tools
pub mod Llm
pub mod Investigator
use Prim.Native.String.{◌++◌ as append}
use gleanflow.Prelude.{
  ℕ, zero, suc, ◌+◌, ◌*◌, String, Option, none, some, Bool, true, false, not, ◌&&◌, ◌||◌, List, [],
  ◌∷◌, length, ltb, if◌then◌else◌,
}
use gleanflow.Prelude.Dict.{Dict, get, get_or}
use gleanflow.Decimal
use gleanflow.Float.{FloatOps}
use gleanflow.Json.{Json}
use gleanflow.Text.{is_in}
use gleanflow.Stage.{round_up}

pub record FailureEvent (W : Type 0) : Type 0 where
  pub stage : String
  pub task_key : String
  pub params : Dict (Json W)
  pub attempt : ℕ
  pub error : String
  pub traceback : String
  pub peak_mem_mb : Option W
  pub limit_mb : Option W
  pub cpu_seconds : Option W
  pub members : List (Json W)
  pub resources : Dict ℕ
  pub peer_peak_mem_mb : Option W
  pub log_tail : String

pub record Remediation : Type 0 where
  pub action : String
  pub mem : Option ℕ
  pub vcpu : Option ℕ
  pub factor : ℕ
  pub diagnosis : String
  pub fix : String

module _ {W : Type 0} where
  unfoldable pub n_members : FailureEvent W → ℕ
  n_members event = length event.members

-- `any(s in text for s in words)`
unfoldable pub any_in : List String → String → Bool
any_in [] text = false
any_in (s ∷ words) text = is_in s text || any_in words text

module _ {W : Type 0} ⦃f : FloatOps W⦄ (ninety : W → W) (lower : String → String) where
  -- `bool(x)` of an optional float: `None` and 0.0 are false
  unfoldable pub truthy : Option W → Bool
  truthy none = false
  truthy (some x) = not (f.le x f.fzero && f.le f.fzero x)

  unfoldable pub above_limit : Option W → Option W → Bool
  above_limit (some peak) (some limit) = f.le (ninety limit) peak
  above_limit _ _ = false

  unfoldable pub near_oom : FailureEvent W → Bool
  near_oom event =
      truthy event.peak_mem_mb
      && truthy event.limit_mb
      && above_limit event.peak_mem_mb event.limit_mb

  -- `oom` of `_heuristic`
  unfoldable pub is_oom : FailureEvent W → Bool
  is_oom event =
      near_oom event
      || any_in ("memoryerror" ∷ "oom" ∷ "out of memory" ∷ "killed" ∷ [])
          (lower (append event.error event.traceback))

  -- `_heuristic`
  unfoldable pub heuristic : FailureEvent W → Remediation
  heuristic event =
      let mem = round_up (get_or 16384 (get "mem" event.resources) * 2) in
      if is_oom event && ltb 1 (n_members event)
      then record {
        action = "resplit";
        mem = none;
        vcpu = none;
        factor = 0;
        diagnosis = "OOM on a multi-file chunk";
        fix = "split the chunk into per-partition tasks";
      }
      else if is_oom event
      then record {
        action = "retry_with";
        mem = some mem;
        vcpu = none;
        factor = 0;
        diagnosis = "OOM on a single-partition chunk";
        fix = append "retry with " (append (Decimal.str mem) " MB");
      }
      else record {
        action = "report";
        mem = none;
        vcpu = none;
        factor = 0;
        diagnosis = "non-memory failure";
        fix = "needs human review";
      }
