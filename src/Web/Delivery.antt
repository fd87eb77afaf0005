-- ===== src/Web/Delivery.antt =====
-- gleanflow/web/server.py: which subscriber is sent which event.
use mathlib.Core.List.{append-nil, append_assoc}
use gleanflow.Prelude.{
  List, [], ◌∷◌, ◌++◌, map, filter, ◌≡◌, refl, sym, ap, ◌∙◌, inl, inr, Bool-cases,
}
use gleanflow.Prelude.Dict.{Dict}
use gleanflow.Json.{Json}
use gleanflow.Web.{Webhook, Stream, Server, matches, post_all, put_event, dispatch}

module _ {W : Type 0} where
  -- The dispatcher on a run of events.
  unfoldable pub dispatch_all : List (Dict (Json W)) → Server W → Server W
  dispatch_all [] s = s
  dispatch_all (ev ∷ evs) s = dispatch_all evs (dispatch ev s)

  -- The requests for one event: one for each webhook that asks for it.
  unfoldable pub wanted : Dict (Json W) → Dict (Webhook W) → List (Json W × Dict (Json W))
  wanted ev whs = map (λ e. (e.1.url, ev)) (filter (λ e. matches ev e.1.events) whs)

  unfoldable pub wanted_all :
      List (Dict (Json W)) → Dict (Webhook W) → List (Json W × Dict (Json W))
  wanted_all [] whs = []
  wanted_all (ev ∷ evs) whs = wanted ev whs ++ wanted_all evs whs

  -- A stream that was put the events that it asks for.
  unfoldable pub received : List (Dict (Json W)) → Stream W → Stream W
  received evs q = record q { queue = q.queue ++ filter (λ ev. matches ev q.flt) evs }

  post_all-wanted :
      (ev : Dict (Json W)) (whs : Dict (Webhook W)) (posts : List (Json W × Dict (Json W)))
      → post_all ev whs posts ≡ posts ++ wanted ev whs
  unfolding post_all wanted
  post_all-wanted ev [] posts = sym (append-nil posts)
  post_all-wanted ev ((wid, wh) ∷ whs) posts = elim (Bool-cases (matches ev wh.events)) [
    | inl asks ↦ rw asks (
        post_all-wanted ev whs (posts ++ (wh.url, ev) ∷ [])
        ∙ append_assoc posts ((wh.url, ev) ∷ []) (wanted ev whs))
    | inr other ↦ rw other (post_all-wanted ev whs posts)
  ]

  received-put_event :
      (ev : Dict (Json W)) (evs : List (Dict (Json W))) (q : Stream W)
      → received evs (put_event ev q) ≡ received (ev ∷ evs) q
  unfolding received put_event
  received-put_event ev evs q = elim (Bool-cases (matches ev q.flt)) [
    | inl asks ↦ rw asks (
        ap (λ l. record q { queue = l })
          (append_assoc q.queue (ev ∷ []) (filter (λ e. matches e q.flt) evs)))
    | inr other ↦ rw other refl
  ]

  map-received :
      (ev : Dict (Json W)) (evs : List (Dict (Json W))) (qs : List (Stream W))
      → map (received evs) (map (put_event ev) qs) ≡ map (received (ev ∷ evs)) qs
  map-received ev evs [] = refl
  map-received ev evs (q ∷ qs) =
      ap (λ p. p ∷ map (received evs) (map (put_event ev) qs)) (received-put_event ev evs q)
      ∙ ap (◌∷◌ (received (ev ∷ evs) q)) (map-received ev evs qs)

  map-received_nil : (qs : List (Stream W)) → map (received []) qs ≡ qs
  unfolding received
  map-received_nil [] = refl
  map-received_nil (q ∷ qs) =
      ap (λ l. record q { queue = l } ∷ map (received []) qs) (append-nil q.queue)
      ∙ ap (◌∷◌ q) (map-received_nil qs)

  -- Over a run of events, the requests sent are one for each event and webhook that asks for it, in
  -- the order of the events, and each stream is put the events that it asks for, in their order.
  pub dispatch_all_delivers :
      (evs : List (Dict (Json W))) (s : Server W)
      → ((dispatch_all evs s).posts ≡ s.posts ++ wanted_all evs s.webhooks)
        × ((dispatch_all evs s).sse_queues ≡ map (received evs) s.sse_queues)
  unfolding dispatch_all dispatch wanted_all
  dispatch_all_delivers [] s = (sym (append-nil s.posts), sym (map-received_nil s.sse_queues))
  dispatch_all_delivers (ev ∷ evs) s =
      let rest = dispatch_all_delivers evs (dispatch ev s) in
      (
        rest.0
            ∙ ap (λ l. l ++ wanted_all evs s.webhooks) (post_all-wanted ev s.webhooks s.posts)
            ∙ append_assoc s.posts (wanted ev s.webhooks) (wanted_all evs s.webhooks),
        rest.1 ∙ map-received ev evs s.sse_queues,
      )
