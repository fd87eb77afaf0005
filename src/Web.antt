-- ===== src/Web.antt =====
-- gleanflow/web/server.py: the subscriptions of the dashboard's server and the routes of its API.
-- Requests arrive parsed: `urlparse`, `parse_qs` and the socket are the standard library's.
pub mod Views
pub mod Routes
pub mod Delivery
pub mod Ids
use gleanflow.Prelude.{
  ℕ, zero, suc, ◌+◌, String, Option, none, some, Bool, true, false, ◌&&◌, ◌||◌, List, [], ◌∷◌, ◌++◌,
  map, filter, drop, nat_beq, if◌then◌else◌, ◌==◌,
}
use gleanflow.Prelude.Dict.{Dict, get, get_or, put, remove, keys}
use gleanflow.Decimal
use gleanflow.Json.{Json, null, str, array, object, as_str, as_list, to_list, to_dict, ◌>>=◌}
use gleanflow.Pipeline.{contains}

unfoldable pub head? {ℓ} : {A : Type ℓ} → List A → Option A
head? [] = none
head? (x ∷ xs) = some x

-- `None`, or the set of the names of events.
abbrev pub Filter : Type 0
Filter = Option (List String)

-- `flt or None`
unfoldable pub filter_of : List String → Filter
filter_of [] = none
filter_of (e ∷ es) = some (e ∷ es)

-- The characters of a text, as texts.
unfoldable pub characters : String → List String
characters String.[] = []
characters (String.◌∷◌ c s) = String.◌∷◌ c "" ∷ characters s

pub record Webhook (W : Type 0) : Type 0 where
  pub url : Json W
  pub events : Filter

-- A stream's queue, known by a number, with its filter and what was put in it.
pub record Stream (W : Type 0) : Type 0 where
  pub id : ℕ
  pub flt : Filter
  pub queue : List (Dict (Json W))

-- `webhooks`, `sse_queues` and `_ids`; `posts` lists the requests that were sent. What a request or
-- a queue raises is swallowed.
pub record Server (W : Type 0) : Type 0 where
  pub webhooks : Dict (Webhook W)
  pub sse_queues : List (Stream W)
  pub next_id : ℕ
  pub posts : List (Json W × Dict (Json W))

module _ {W : Type 0} where
  -- the entry of an event that a filter may name
  unfoldable pub names_it : List String → Option (Json W) → Bool
  names_it flt none = false
  names_it flt (some v) = elim (as_str v) [ none ↦ false | some s ↦ contains s flt ]

  -- `_match`
  unfoldable pub matches : Dict (Json W) → Filter → Bool
  matches ev none = true
  matches ev (some flt) = names_it flt (get "state" ev) || names_it flt (get "type" ev)

  -- The loop of `_dispatch` over the webhooks.
  unfoldable pub post_all :
      Dict (Json W)
      → Dict (Webhook W)
      → List (Json W × Dict (Json W))
      → List (Json W × Dict (Json W))
  post_all ev [] posts = posts
  post_all ev ((wid, wh) ∷ whs) posts =
      if matches ev wh.events
      then post_all ev whs (posts ++ (wh.url, ev) ∷ [])
      else post_all ev whs posts

  unfoldable pub put_event : Dict (Json W) → Stream W → Stream W
  put_event ev q = if matches ev q.flt then record q { queue = q.queue ++ ev ∷ [] } else q

  -- One turn of `_dispatch`.
  unfoldable pub dispatch : Dict (Json W) → Server W → Server W
  dispatch ev s = record s {
    posts = post_all ev s.webhooks s.posts;
    sse_queues = map (put_event ev) s.sse_queues;
  }

  -- The texts of a list; `none` where an element is no text.
  unfoldable pub texts : List (Json W) → Option (List String)
  texts [] = some []
  texts (v ∷ vs) = do s ← as_str v; rest ← texts vs; some (s ∷ rest)

  -- `set(evs) if evs else None`: of a text these are its characters, of an object its keys. A float,
  -- and a list with other values than texts, are left out.
  unfoldable pub events_of : Option (Json W) → Option Filter
  events_of none = some none
  events_of (some Json.null) = some none
  events_of (some (Json.bool false)) = some none
  events_of (some (Json.bool true)) = none
  events_of (some (Json.int zero)) = some none
  events_of (some (Json.int (suc n))) = none
  events_of (some (Json.float w)) = none
  events_of (some (Json.str s)) = some (filter_of (characters s))
  events_of (some (Json.arr vs)) = do es ← texts (to_list vs); some (filter_of es)
  events_of (some (Json.obj d)) = some (filter_of (keys (to_dict d)))

  -- `_subscribe` behind the reading of `body`: the entry, and the answer with the given `events`.
  unfoldable pub registered :
      Dict (Json W) → String → Option (Webhook W) → Server W → Server W × Option (Json W)
  registered body wid none s = (s, none)
  registered body wid (some wh) s = (
    record s { webhooks = put wid wh s.webhooks },
    some (
        object
          (("id", str wid) ∷ ("url", wh.url) ∷ ("events", get_or null (get "events" body)) ∷ [])),
  )

  unfoldable pub webhook_of : Dict (Json W) → Option (Webhook W)
  webhook_of body = do
    url ← get "url" body
    events ← events_of (get "events" body)
    some (record { url = url; events = events })

  -- `_subscribe`: the id is taken before the body is read, which may raise.
  unfoldable pub subscribe : Dict (Json W) → Server W → Server W × Option (Json W)
  subscribe body s =
      registered body (Decimal.str s.next_id) (webhook_of body)
        (record s { next_id = s.next_id + 1 })

  -- `webhooks.pop(id, None)`
  unfoldable pub unsubscribe : String → Server W → Server W
  unsubscribe wid s = record s { webhooks = remove wid s.webhooks }

  -- `_sse` puts its queue in the list, takes events from it, and removes it when the client is gone.
  unfoldable pub open_stream : ℕ → Filter → Server W → Server W
  open_stream i flt s = record s {
    sse_queues = s.sse_queues ++ record { id = i; flt = flt; queue = [] } ∷ [];
  }

  unfoldable pub pop_event : ℕ → List (Stream W) → List (Stream W) × Option (Dict (Json W))
  pop_event i [] = ([], none)
  pop_event i (q ∷ qs) =
      let rest = pop_event i qs in
      if nat_beq q.id i
      then (record q { queue = drop 1 q.queue } ∷ qs, head? q.queue)
      else (q ∷ rest.0, rest.1)

  -- `q.get(timeout=15)`: `none` stands for `Empty`, which sends a keepalive.
  unfoldable pub next_event : ℕ → Server W → Server W × Option (Dict (Json W))
  next_event i s =
      let popped = pop_event i s.sse_queues in (record s { sse_queues = popped.0 }, popped.1)

  unfoldable pub remove_stream : ℕ → List (Stream W) → List (Stream W)
  remove_stream i [] = []
  remove_stream i (q ∷ qs) =
      let rest = remove_stream i qs in if nat_beq q.id i then qs else q ∷ rest

  unfoldable pub close_stream : ℕ → Server W → Server W
  close_stream i s = record s { sse_queues = remove_stream i s.sse_queues }
