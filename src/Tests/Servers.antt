-- ===== src/Tests/Servers.antt =====
-- A server with a webhook and a stream.
use gleanflow.Prelude.{ℕ, none, some, List, [], ◌∷◌, ◌++◌, map, ◌≡◌}
use gleanflow.Prelude.Dict.{Dict}
use gleanflow.Json.{Json, str}
use gleanflow.Web.{Server, subscribe, unsubscribe}
use gleanflow.Web.Delivery.{dispatch_all, wanted_all, received, dispatch_all_delivers}
use gleanflow.Decimal

abbrev server : Server ℕ
server = record {
  webhooks = ("0", record { url = str "http://a"; events = some ("failed" ∷ []) }) ∷ [];
  sse_queues = record { id = 1; flt = none; queue = [] } ∷ [];
  next_id = 1;
  posts = [];
}

abbrev failed_event : Dict (Json ℕ)
failed_event = ("type", str "task") ∷ ("state", str "failed") ∷ []

abbrev queued_event : Dict (Json ℕ)
queued_event = ("type", str "task") ∷ ("state", str "queued") ∷ []

abbrev events : List (Dict (Json ℕ))
events = queued_event ∷ failed_event ∷ []

dispatch_all_delivers_example :
    ((dispatch_all events server).posts ≡ server.posts ++ wanted_all events server.webhooks)
    × ((dispatch_all events server).sse_queues ≡ map (received events) server.sse_queues)
dispatch_all_delivers_example = dispatch_all_delivers events server

abbrev idle : Server ℕ
idle = record { webhooks = []; sse_queues = []; next_id = 0; posts = [] }

abbrev body : Dict (Json ℕ)
body = ("url", str "http://a") ∷ []

abbrev busy : Server ℕ
busy = (subscribe body (unsubscribe "0" (subscribe body idle).0)).0
