-- ===== src/Web/Ids.antt =====
-- gleanflow/web/server.py: the ids of subscriptions.
use mathlib.Core.Path.{subst}
use mathlib.Core.List.{append-nil, map-append}
use gleanflow.Prelude.{
  ℕ, ◌+◌, ◌<◌, String, Option, none, some, false, List, [], ◌∷◌, ◌++◌, All, IsUnique, All-map_imp,
  All-append, ◌≡◌, ◌≢◌, refl, sym, ap, ◌∙◌, arith, eq_iff, inl, inr, Bool-cases, ◌==◌,
}
use gleanflow.Prelude.Dict.{Dict, put, remove, keys}
use gleanflow.Decimal.{str_inj}
use gleanflow.Decimal
use gleanflow.Json.{Json}
use gleanflow.Text.{ne→==}
use gleanflow.Web.{
  Filter, Webhook, Server, dispatch, webhook_of, registered, subscribe, unsubscribe, open_stream,
  next_event, close_stream,
}

-- An id that was given out: a number below the counter.
unfoldable pub IsGiven : ℕ → String → Type 0
IsGiven limit wid = (n : ℕ) × (wid ≡ Decimal.str n) × (n < limit)

-- An id that was not given out yet.
fresh :
    (limit : ℕ) (ks : List String)
    → All (IsGiven limit) ks
    → All (λ k. (k == Decimal.str limit) ≡ false) ks
unfolding IsGiven
fresh limit [] h = tt
fresh limit (k ∷ ks) h = (
  ne→== k (Decimal.str limit) (λ e.
      let same = str_inj h.0.0 limit (sym h.0.1 ∙ e) in let below = h.0.2 in absurd (omega arith)),
  fresh limit ks h.1,
)

later : (limit : ℕ) (k : String) → IsGiven limit k → IsGiven (limit + 1) k
unfolding IsGiven
later limit k h = (h.0, h.1, omega (arith, h.2))

different :
    (limit : ℕ) (ks : List String) → All (IsGiven limit) ks → All (λ k. k ≢ Decimal.str limit) ks
different limit ks h =
    All-map_imp ks (λ k e same. let t = (eq_iff k (Decimal.str limit)).1 same in cc)
      (fresh limit ks h)

IsUnique-snoc :
    (k : String) (ks : List String) → IsUnique ks → All (λ j. j ≢ k) ks → IsUnique (ks ++ k ∷ [])
IsUnique-snoc k [] u h = (tt, tt)
IsUnique-snoc k (j ∷ ks) u h =
    (All-append (λ y. j ≢ y) ks (k ∷ []) u.0 (h.0, tt), IsUnique-snoc k ks u.1 h.1)

module _ {W : Type 0} where
  -- The ids of the webhooks were given out, each once.
  pub record IsValid (s : Server W) : Type 0 where
    pub given : All (IsGiven s.next_id) (keys s.webhooks)
    pub unique : IsUnique (keys s.webhooks)

  -- What the handlers and the dispatcher do to the server.
  pub data Step (s s' : Server W) : Type 0 where
    subscribed : (body : Dict (Json W)) → s' ≡ (subscribe body s).0 → Step s s'
    unsubscribed : (wid : String) → s' ≡ unsubscribe wid s → Step s s'
    dispatched : (ev : Dict (Json W)) → s' ≡ dispatch ev s → Step s s'
    opened : (i : ℕ) (flt : Filter) → s' ≡ open_stream i flt s → Step s s'
    taken : (i : ℕ) → s' ≡ (next_event i s).0 → Step s s'
    closed : (i : ℕ) → s' ≡ close_stream i s → Step s s'

  pub data Served : Server W → Type 0 where
    start : (s : Server W) → s.webhooks ≡ [] → Served s
    next : {s s' : Server W} → Served s → Step s s' → Served s'

  -- A key that is not there is put at the end.
  put_fresh :
      (k : String) (wh : Webhook W) (d : Dict (Webhook W))
      → All (λ j. (j == k) ≡ false) (keys d)
      → put k wh d ≡ d ++ (k, wh) ∷ []
  unfolding put
  put_fresh k wh [] h = refl
  put_fresh k wh ((j, w) ∷ d) h = rw (h.0, put_fresh k wh d h.1) refl

  -- What a subscription puts.
  unfoldable pub entry_of : String → Option (Webhook W) → Dict (Webhook W)
  entry_of wid none = []
  entry_of wid (some wh) = (wid, wh) ∷ []

  registered_adds :
      (body : Dict (Json W)) (wid : String) (wh : Option (Webhook W)) (s : Server W)
      → All (λ j. (j == wid) ≡ false) (keys s.webhooks)
      → ((registered body wid wh s).0.webhooks ≡ s.webhooks ++ entry_of wid wh)
        × ((registered body wid wh s).0.next_id ≡ s.next_id)
  unfolding registered entry_of
  registered_adds body wid none s h = (sym (append-nil s.webhooks), refl)
  registered_adds body wid (some wh) s h = (put_fresh wid wh s.webhooks h, refl)

  -- A subscription takes the place of no other: it is put behind those that are there, under the
  -- next number, where the body has a URL and its filter can be read, and else nothing is put.
  pub subscribe_adds :
      (body : Dict (Json W)) (s : Server W)
      → IsValid s
      → ((subscribe body s).0.webhooks
          ≡ s.webhooks ++ entry_of (Decimal.str s.next_id) (webhook_of body))
        × ((subscribe body s).0.next_id ≡ s.next_id + 1)
  unfolding subscribe
  subscribe_adds body s v =
      registered_adds body (Decimal.str s.next_id) (webhook_of body)
        (record s { next_id = s.next_id + 1 }) (fresh s.next_id (keys s.webhooks) v.given)

  -- The same webhooks and the same counter.
  same_hooks :
      (s s' : Server W) → s'.webhooks ≡ s.webhooks → s'.next_id ≡ s.next_id → IsValid s → IsValid s'
  same_hooks s s' e f v = record { given = rw (e, f) v.given; unique = rw e v.unique }

  added-IsValid :
      (wh : Option (Webhook W)) (s s' : Server W)
      → IsValid s
      → s'.webhooks ≡ s.webhooks ++ entry_of (Decimal.str s.next_id) wh
      → s'.next_id ≡ s.next_id + 1
      → IsValid s'
  unfolding entry_of IsGiven
  added-IsValid none s s' v e f = record {
    given =
        rw (e, append-nil s.webhooks, f) (All-map_imp (keys s.webhooks) (later s.next_id) v.given);
    unique = rw (e, append-nil s.webhooks) v.unique;
  }
  added-IsValid (some wh) s s' v e f =
      let id = Decimal.str s.next_id in
      let ks : keys s'.webhooks ≡ keys s.webhooks ++ id ∷ [] =
        ap keys e ∙ map-append (λ (x : String × Webhook W). x.0) s.webhooks ((id, wh) ∷ []) in
      record {
        given =
            rw (ks, f)
              (All-append (IsGiven (s.next_id + 1)) (keys s.webhooks) (id ∷ [])
                (All-map_imp (keys s.webhooks) (later s.next_id) v.given)
                ((s.next_id, refl, omega arith), tt));
        unique = rw ks (
            IsUnique-snoc id (keys s.webhooks) v.unique
              (different s.next_id (keys s.webhooks) v.given));
      }

  removed-All :
      (P : String → Type 0) (k : String) (d : Dict (Webhook W))
      → All P (keys d)
      → All P (keys (remove k d))
  unfolding remove
  removed-All P k [] h = tt
  removed-All P k ((j, w) ∷ d) h = elim (Bool-cases (j == k)) [
    | inl here ↦ rw here (removed-All P k d h.1)
    | inr other ↦ rw other (h.0, removed-All P k d h.1)
  ]

  removed-IsUnique :
      (k : String) (d : Dict (Webhook W)) → IsUnique (keys d) → IsUnique (keys (remove k d))
  unfolding remove
  removed-IsUnique k [] h = tt
  removed-IsUnique k ((j, w) ∷ d) h = elim (Bool-cases (j == k)) [
    | inl here ↦ rw here (removed-IsUnique k d h.1)
    | inr other ↦ rw other (removed-All (λ y. j ≢ y) k d h.0, removed-IsUnique k d h.1)
  ]

  Step-IsValid : (s s' : Server W) → Step s s' → IsValid s → IsValid s'
  unfolding unsubscribe dispatch open_stream next_event close_stream
  Step-IsValid s s' (subscribed body e) v =
      let h = subscribe_adds body s v in
      added-IsValid (webhook_of body) s s' v (ap (λ t. t.webhooks) e ∙ h.0)
        (ap (λ t. t.next_id) e ∙ h.1)
  Step-IsValid s s' (unsubscribed wid e) v = subst IsValid (sym e) (record {
    given = removed-All (IsGiven s.next_id) wid s.webhooks v.given;
    unique = removed-IsUnique wid s.webhooks v.unique;
  })
  Step-IsValid s s' (dispatched ev e) v = subst IsValid (sym e) (same_hooks s _ refl refl v)
  Step-IsValid s s' (opened i flt e) v = subst IsValid (sym e) (same_hooks s _ refl refl v)
  Step-IsValid s s' (taken i e) v = subst IsValid (sym e) (same_hooks s _ refl refl v)
  Step-IsValid s s' (closed i e) v = subst IsValid (sym e) (same_hooks s _ refl refl v)

  -- In every state that a server without webhooks comes to, by subscriptions, their ends, events and
  -- streams, the ids of the webhooks were given out and none stands twice.
  pub Served-IsValid : {s : Server W} → Served s → IsValid s
  Served-IsValid (start s e) = record { given = rw e tt; unique = rw e tt }
  Served-IsValid (next {s = s} {s' = s'} h step) = Step-IsValid s s' step (Served-IsValid h)
