-- ===== src/Agent/Llm.antt =====
-- gleanflow/agent.py: `LLMFailureAgent`, which asks an LLM for a remediation and has the heuristic to
-- fall back on. What it calls is a parameter; the messages to `notify` are left out.
pub mod Replies
use Prim.Native.String.{◌++◌ as append}
use gleanflow.Prelude.{
  ℕ, zero, suc, ◌-◌, String, Option, none, some, Bool, true, false, List, [], ◌∷◌, if◌then◌else◌,
  ◌==◌,
}
use gleanflow.Prelude.Dict.{Dict, get}
use gleanflow.Decimal
use gleanflow.Float.{FloatOps}
use gleanflow.Json.{Json, null, bool, int, float, str, arr, obj, to_dict, as_str, optional, ◌>>=◌}
use gleanflow.Text.{size, drop_chars, take_chars}
use gleanflow.Agent.{FailureEvent, Remediation, n_members, heuristic}

-- `complete` is `none` where the LLM raises, `loads` where a text is no JSON. `show` is `str` of a
-- float, `source` the text of a stage's function or "".
pub record Services (W : Type 0) : Type 0 where
  pub complete : String → Option String
  pub loads : String → Option (Json W)
  pub dumps : Json W → String
  pub show : W → String
  pub source : String → String
  pub ninety : W → W
  pub lower : String → String

-- `re.search(r"\{.*\}", s, re.DOTALL)`: the text from the first `{` to the last `}`.
unfoldable pub or_brace : String → Option String → Option String
or_brace one (some p) = some (append one p)
or_brace one none = if one == "}" then some one else none

unfoldable pub to_last_brace : String → Option String
to_last_brace String.[] = none
to_last_brace (String.◌∷◌ c s) = or_brace (String.◌∷◌ c "") (to_last_brace s)

unfoldable pub braces : String → Option String
braces String.[] = none
braces (String.◌∷◌ c s) =
    let rest = braces s in if String.◌∷◌ c "" == "{" then to_last_brace (String.◌∷◌ c s) else rest

-- What a field of a reply gives: a value, an exception, or a value of a kind that the model leaves out.
pub data Read {ℓ} (A : Type ℓ) : Type ℓ where
  value : A → Read A
  raises : Read A
  left_out : Read A

infixl 5 ◌>>◌
abbrev pub ◌>>◌ {ℓ κ} : {A : Type ℓ} {B : Type κ} → Read A → (A → Read B) → Read B
value a >> f = f a
raises >> f = raises
left_out >> f = left_out

module _ {W : Type 0} where
  -- `int(d.get("factor", 0))`
  unfoldable pub factor_of : Option (Json W) → Read ℕ
  factor_of none = value 0
  factor_of (some (int n)) = value n
  factor_of (some (bool true)) = value 1
  factor_of (some (bool false)) = value 0
  factor_of (some null) = raises
  factor_of (some (arr xs)) = raises
  factor_of (some (obj d)) = raises
  factor_of (some _) = left_out

  -- `d.get(k)` of a number or null
  unfoldable pub nat_or_none : Option (Json W) → Read (Option ℕ)
  nat_or_none none = value none
  nat_or_none (some null) = value none
  nat_or_none (some (int n)) = value (some n)
  nat_or_none (some _) = left_out

  -- `d.get(k, e)` of a text
  unfoldable pub text_or : String → Option (Json W) → Read String
  text_or e none = value e
  text_or e (some (str s)) = value s
  text_or e (some _) = left_out

  -- `Remediation.from_dict`
  unfoldable pub from_dict : Dict (Json W) → Read Remediation
  from_dict d = factor_of (get "factor" d) >> λ factor.
      text_or "report" (get "action" d) >> λ action. nat_or_none (get "mem" d) >> λ mem.
      nat_or_none (get "vcpu" d) >> λ vcpu. text_or "" (get "diagnosis" d) >> λ diagnosis.
      text_or "" (get "fix" d) >> λ fix. value (record {
        action = action;
        mem = mem;
        vcpu = vcpu;
        factor = factor;
        diagnosis = diagnosis;
        fix = fix;
      })

  -- The text between braces is a JSON object; `.get` of anything else raises.
  unfoldable pub from_json : Json W → Read Remediation
  from_json (obj d) = from_dict (to_dict d)
  from_json _ = raises

  -- f-strings of optional floats, and of a dict of numbers
  unfoldable pub str_or_none : (W → String) → Option W → String
  str_or_none show none = "None"
  str_or_none show (some x) = show x

unfoldable pub repr_items : Dict ℕ → String
repr_items [] = ""
repr_items ((k, n) ∷ []) = append "'" (append k (append "': " (Decimal.str n)))
repr_items ((k, n) ∷ e ∷ d) =
    append "'" (append k (append "': " (append (Decimal.str n) (append ", " (repr_items (e ∷ d))))))

unfoldable pub repr_dict : Dict ℕ → String
repr_dict d = append "{" (append (repr_items d) "}")

-- `s[-n:]`
unfoldable pub last_chars : ℕ → String → String
last_chars n s = drop_chars (size s - n) s

unfoldable pub concat : List String → String
concat [] = ""
concat (s ∷ ss) = append s (concat ss)

-- the end of `_PROMPT`, which has no fields
abbrev pub instructions : String
instructions = concat (
    "\n\nDecide ONE remediation and reply with ONLY a JSON object, no prose:\n"
    ∷ "{\"action\": \"retry_with|resplit|skip|abort|report\",\n"
    ∷ "  \"mem\": <new memory MB or null>, \"vcpu\": <new vcpu or null>,\n"
    ∷ "  \"factor\": <0 to split this chunk's members into separate tasks, else 0>,\n"
    ∷ "  \"diagnosis\": \"<one sentence root cause>\", \"fix\": \"<one sentence>\"}\n\n"
    ∷ "Guidance: an out-of-memory chunk that packs several members should usually be\n"
    ∷ "\"resplit\"; a single-member chunk that still OOMs should \"retry_with\" ~2x mem\n"
    ∷ "(Fargate memory must be a multiple of 4096). Use \"abort\" for a genuine code/data\n"
    ∷ "bug the agent cannot fix.\n" ∷ [])

module _ {W : Type 0} ⦃f : FloatOps W⦄ (sv : Services W) where
  -- `_PROMPT.format(...)`
  unfoldable pub prompt : FailureEvent W → String
  prompt event = concat (
      "You are an SRE agent triaging a failed data-pipeline chunk on AWS Batch.\n\nstage: "
      ∷ event.stage
      ∷ "\nchunk: "
      ∷ event.task_key
      ∷ "   attempt "
      ∷ Decimal.str event.attempt
      ∷ "\nmembers (input partitions in this chunk): "
      ∷ Decimal.str (n_members event)
      ∷ "\nstage resources: "
      ∷ repr_dict event.resources
      ∷ "\npeak memory: "
      ∷ str_or_none sv.show event.peak_mem_mb
      ∷ " MB   container limit: "
      ∷ str_or_none sv.show event.limit_mb
      ∷ " MB\nhealthy sibling chunks peak: "
      ∷ str_or_none sv.show event.peer_peak_mem_mb
      ∷ " MB\n\nerror: "
      ∷ event.error
      ∷ "\n\ntraceback (tail):\n"
      ∷ last_chars 1500 event.traceback
      ∷ "\n\nstage source:\n"
      ∷ take_chars 2000 (sv.source event.stage)
      ∷ instructions
      ∷ [])

  -- The `try` block; `raises` stands also for a reply without braces, after which the code goes on.
  unfoldable pub loaded : Option (Json W) → Read Remediation
  loaded none = raises
  loaded (some j) = from_json j

  unfoldable pub matched : Option String → Read Remediation
  matched none = raises
  matched (some t) = loaded (sv.loads t)

  unfoldable pub replied : Option String → Read Remediation
  replied none = raises
  replied (some reply) = matched (braces reply)

  -- `_heuristic` where the block gave nothing; `none` is a reply that the model leaves out.
  unfoldable pub or_heuristic : FailureEvent W → Read Remediation → Option Remediation
  or_heuristic event (value rem) = some rem
  or_heuristic event raises = some (heuristic sv.ninety sv.lower event)
  or_heuristic event left_out = none

  -- `_ask`, which `__call__` returns
  unfoldable pub ask_llm : FailureEvent W → Option Remediation
  ask_llm event = or_heuristic event (replied (sv.complete (prompt event)))
