-- ===== src/Agent/Llm/Replies.antt =====
-- How the failure agent of agent.py reads an LLM's reply.
use Prim.Native.String.{◌++◌}
use text.Mathlib.TextLemmas.{nil-append, cons-append, append_assoc}
use gleanflow.Prelude.{String, ◌≡◌, refl, sym, ap, ◌∙◌, none, some}
use gleanflow.Prelude.Dict.{Dict}
use gleanflow.Float.{FloatOps}
use gleanflow.Json.{Json, object, to_dict-of_dict}
use gleanflow.Text.{Lacks}
use gleanflow.Agent.{FailureEvent, Remediation}
use gleanflow.Agent.Llm.{
  Services, value, or_brace, to_last_brace, braces, from_dict, from_json, prompt, loaded, matched,
  replied, or_heuristic, ask_llm,
}

one_brace : (s : String) → "{" ++ s ≡ String.◌∷◌ "{" s
one_brace s = cons-append "{" "" s ∙ ap (String.◌∷◌ "{") (nil-append s)

to_last_brace-Lacks : (s : String) → Lacks "}" s → to_last_brace s ≡ none
unfolding to_last_brace or_brace
to_last_brace-Lacks String.[] h = refl
to_last_brace-Lacks (String.◌∷◌ c s) h = rw (to_last_brace-Lacks s h.1, h.0) refl

to_last_brace-append :
    (body post : String)
    → Lacks "}" post
    → to_last_brace (body ++ ("}" ++ post)) ≡ some (body ++ "}")
unfolding to_last_brace or_brace
to_last_brace-append String.[] post h =
    ap to_last_brace
      (nil-append ("}" ++ post) ∙ cons-append "}" "" post ∙ ap (String.◌∷◌ "}") (nil-append post))
    ∙ rw (to_last_brace-Lacks post h) refl
to_last_brace-append (String.◌∷◌ c body) post h =
    ap to_last_brace (cons-append c body ("}" ++ post))
    ∙ ap (or_brace (String.◌∷◌ c "")) (to_last_brace-append body post h)
    ∙ ap some (
        cons-append c "" (body ++ "}")
        ∙ ap (String.◌∷◌ c) (nil-append (body ++ "}"))
        ∙ sym (cons-append c body "}"))

-- The prose before and behind an object is cut away.
braces-append :
    (pre body post : String)
    → Lacks "{" pre
    → Lacks "}" post
    → braces (pre ++ ("{" ++ (body ++ ("}" ++ post)))) ≡ some ("{" ++ (body ++ "}"))
unfolding braces
braces-append String.[] body post before h =
    let whole = "{" ++ (body ++ ("}" ++ post)) in
    ap braces (nil-append whole ∙ one_brace (body ++ ("}" ++ post)))
    ∙ ap to_last_brace
        (sym (one_brace (body ++ ("}" ++ post))) ∙ sym (append_assoc "{" body ("}" ++ post)))
    ∙ to_last_brace-append ("{" ++ body) post h
    ∙ ap some (append_assoc "{" body "}")
braces-append (String.◌∷◌ c pre) body post before h =
    ap braces (cons-append c pre ("{" ++ (body ++ ("}" ++ post))))
    ∙ rw (before.0, braces) (braces-append pre body post before.1 h)

-- Where the LLM replies with an object in prose without braces, the agent's answer is the remediation
-- that the object describes.
pub ask_llm_reads :
    {W : Type 0} ⦃f : FloatOps W⦄ (sv : Services W) (event : FailureEvent W)
    (pre body post : String) (d : Dict (Json W)) (rem : Remediation)
    → sv.complete (prompt sv event) ≡ some (pre ++ ("{" ++ (body ++ ("}" ++ post))))
    → Lacks "{" pre
    → Lacks "}" post
    → sv.loads ("{" ++ (body ++ "}")) ≡ some (object d)
    → from_dict d ≡ value rem
    → ask_llm sv event ≡ some rem
unfolding ask_llm replied matched loaded from_json or_heuristic object
ask_llm_reads sv event pre body post d rem reply before behind loads reads =
    rw (reply, braces-append pre body post before behind, loads, to_dict-of_dict, reads) refl
