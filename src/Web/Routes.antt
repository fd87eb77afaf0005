-- ===== src/Web/Routes.antt =====
-- gleanflow/web/server.py: what each route answers.
use gleanflow.Prelude.{
  ℕ, String, Option, none, some, true, not, ◌||◌, List, [], ◌∷◌, map, filter, if◌then◌else◌, ◌==◌,
  ◌⊎◌, inl, inr,
}
use gleanflow.Prelude.Dict.{Dict, get, get_or}
use gleanflow.Json.{Json, null, bool, str, array, object, as_str, ◌>>=◌}
use gleanflow.Store.{Store}
use gleanflow.Tracker.{Tracker}
use gleanflow.Tracker.Snapshot.{StageView, snapshot}
use Prim.Native.String.{◌++◌ as append}
use gleanflow.Web.Views.{state_json, failures_of, task_info, stage_info}
use gleanflow.Web.{Filter, Webhook, Server, subscribe, unsubscribe, filter_of, head?}

-- The content of an answer: JSON, or a fixed text.
pub data Body (W : Type 0) : Type 0 where
  json : Json W → Body W
  text : String → Body W

-- What a handler does: it sends an answer, it streams events, or it raises.
pub data Reply (W : Type 0) : Type 0 where
  sent : ℕ → Body W → Reply W
  stream : Filter → Reply W
  raised : Reply W

-- The methods of the investigator, which may raise with a message.
pub record Investigator (W : Type 0) : Type 0 where
  pub diagnose : Json W → String ⊎ Json W
  pub ask : Json W → Option (Json W) → String ⊎ Json W
  pub check_run : String ⊎ Json W

-- `q.get(name, [""])[0]`; `parse_qs` gives no empty list.
unfoldable pub first : String → Dict (List String) → String
first name q = get_or "" (get name q >>= head?)

-- `s.split(",")`, without the empty parts
unfoldable pub add_char : String → List String → List String
add_char c [] = c ∷ []
add_char c (w ∷ ws) = append c w ∷ ws

unfoldable pub split_commas : String → List String
split_commas String.[] = "" ∷ []
split_commas (String.◌∷◌ c s) =
    let rest = split_commas s in
    let one = String.◌∷◌ c "" in if one == "," then "" ∷ rest else add_char one rest

unfoldable pub events_filter : String → Filter
events_filter s = filter_of (filter (λ w. not (w == "")) (split_commas s))

-- `q.get(name, [body.get(name, "")])[0]`
module _ {W : Type 0} where
  unfoldable pub first_or : String → Dict (List String) → Dict (Json W) → Json W
  first_or name q body = elim (get name q >>= head?) [
    | none ↦ get_or (str "") (get name body)
    | some s ↦ str s
  ]

  unfoldable pub subscription_json : String × Webhook W → Json W
  subscription_json e = object (
      ("id", str e.0)
      ∷ ("url", e.1.url)
      ∷ ("events", elim e.1.events [ none ↦ null | some es ↦ array (map (λ s. str s) es) ])
      ∷ [])

  unfoldable pub json_or_raise : Option (Json W) → Reply W
  json_or_raise none = raised
  json_or_raise (some j) = sent 200 (json j)

  module _ (html : String) (store : Option (Store W)) (source_of : String → Option String)
      (run_id started_at now : Json W) where
    -- `do_GET`, by the path of the request
    unfoldable pub do_get : Tracker W → Server W → String → Dict (List String) → Reply W
    do_get tracker s path q =
        let views = snapshot tracker in
        if path == "/" || path == "/index.html"
        then sent 200 (text html)
        else if path == "/api/state"
        then json_or_raise (do vs ← views; some (state_json run_id started_at now vs))
        else if path == "/api/failures"
        then json_or_raise (failures_json views)
        else if path == "/api/task"
        then json_or_raise (do vs ← views; d ← task_info store vs (first "key" q); some (object d))
        else if path == "/api/stage"
        then json_or_raise (do vs ← views; some (object (stage_info source_of vs (first "name" q))))
        else if path == "/api/events"
        then stream (events_filter (first "events" q))
        else if path == "/api/subscriptions"
        then sent 200 (json (array (map subscription_json s.webhooks)))
        else sent 404 (text "not found")
      where
        failures_json : Option (List (StageView W)) → Option (Json W)
        failures_json views = elim store [
          | none ↦ some (array [])
          | some st ↦ do vs ← views; some (array (failures_of st vs))
        ]

  unfoldable pub answer : String ⊎ Json W → Reply W
  answer (inl e) = sent 500 (json (object (("error", str e) ∷ [])))
  answer (inr j) = sent 200 (json j)

  abbrev pub disabled : Json W
  disabled = object (("error", str "agent api disabled (enable_agent_api)") ∷ [])

  -- The routes of the investigator.
  unfoldable pub ask_agent :
      Option (Investigator W) → String → Dict (List String) → Dict (Json W) → Reply W
  ask_agent none path q body = sent 503 (json disabled)
  ask_agent (some agent) path q body =
      if path == "/api/diagnose"
      then answer (agent.diagnose (first_or "key" q body))
      else if path == "/api/ask"
      then answer (agent.ask (get_or (str "") (get "question" body)) (get "key" body))
      else if path == "/api/check"
      then answer agent.check_run
      else sent 404 (text "not found")

  -- `do_POST`, on a body that is a JSON object. An `id` that is no text is no key of a webhook.
  unfoldable pub do_post :
      Option (Investigator W)
      → Server W
      → String
      → Dict (List String)
      → Dict (Json W)
      → Server W × Reply W
  do_post agent s path q body =
      let done = subscribe body s in
      if path == "/api/subscribe"
      then (done.0, json_or_raise done.1)
      else if path == "/api/unsubscribe"
      then (
        unsubscribe (get_or "" (get "id" body >>= as_str)) s,
        sent 200 (json (object (("ok", bool true) ∷ []))),
      )
      else (s, ask_agent agent path q body)
