-- ===== src/Requests/HandlerIdle.antt =====
-- A channel of which the worker of pkg/capabilities/consensus/ocr3/requests knows no request.
use Prim.Native.String.{String}
use chainlink_common.Base.{
  ℕ, ◌≡◌, ◌≢◌, sym, subst, List, [], ◌∷◌, some, Bool, true, false, ltb, lookup, insert,
  lookup-insert, lookup-delete, string_eq, arith, Option-cases, Bool-cases, inl, inr, keys,
}
use chainlink_common.Requests.Store.{Store, Request, evict}
use chainlink_common.Requests.Handler.{
  Response, Handler, Event, pending_requests_expiry, response_cache_expiry, request, response,
  send_response, expire_request, expire_each, expire_pending_requests, handle_request,
  handle_response, step, run,
}
use chainlink_common.Requests.HandlerSafety.{sent, Live, lookup-evict, lookup-stored}

evict-stored :
    {P : Type 0} (s : Store P) (id : String) (q : Request P)
    → (evict s id).1 ≡ some q
    → lookup id s.requests ≡ some q
unfolding evict
evict-stored s id q e = ground arith

module _ {P V : Type 0} where
  -- The worker knows no request with a channel.
  abbrev pub Unknown : ℕ → Handler P V → Type 0
  Unknown c h = (id : String) (q : Request P) → Live h id q → q.callback_ch ≢ c

  -- No event brings a request with a channel.
  abbrev pub Elsewhere : ℕ → List ((String → Bool) × Event P V) → Type 0
  Elsewhere c [] = Unit
  Elsewhere c ((sends, request r) ∷ es) = (r.callback_ch ≢ c) × Elsewhere c es
  Elsewhere c ((sends, pending_requests_expiry now) ∷ es) = Elsewhere c es
  Elsewhere c ((sends, response_cache_expiry now) ∷ es) = Elsewhere c es
  Elsewhere c ((sends, response now resp) ∷ es) = Elsewhere c es

  pub record Idle (c n : ℕ) (h : Handler P V) : Type 0 where
    pub stored_apart :
        (id : String) (q : Request P) → lookup id h.store.requests ≡ some q → q.callback_ch ≢ c
    pub pending_apart :
        (id : String) (q : Request P) → lookup id h.pending_requests ≡ some q → q.callback_ch ≢ c
    pub count : sent c h.delivered ≡ n

  module _ (c n : ℕ) where
    send_response-Idle :
        (b : Bool) (r : Request P) (resp : Response V) (h : Handler P V)
        → r.callback_ch ≢ c
        → Idle c n h
        → Idle c n (send_response b r resp h)
    unfolding send_response
    send_response-Idle false r resp h apart v = v
    send_response-Idle true r resp h apart v = record {
      stored_apart = v.stored_apart;
      pending_apart = λ id q e.
          v.pending_apart id q
            (ground (arith, lookup-delete r.workflow_execution_id id h.pending_requests));
      count = ground (arith, v.count);
    }

    evicted-Idle :
        (id : String) (h : Handler P V)
        → Idle c n h
        → Idle c n (record h { store = (evict h.store id).0 })
    evicted-Idle id h v = record {
      stored_apart = λ j q e. v.stored_apart j q (ground (arith, lookup-evict h.store id j));
      pending_apart = v.pending_apart;
      count = v.count;
    }

    expire_each-Idle :
        (sends : String → Bool) (now : ℕ) (ks : List String) (h : Handler P V)
        → Idle c n h
        → Idle c n (expire_each sends now ks h)
    unfolding expire_each expire_request
    expire_each-Idle sends now [] h v = v
    expire_each-Idle sends now (k ∷ ks) h v = elim (Option-cases (lookup k h.pending_requests)) [
      | inl missing ↦ rw (missing, expire_each) (expire_each-Idle sends now ks h v)
      | inr (req, found) ↦
          rw (found, expire_each)
            (elim (Bool-cases (ltb req.expires_at now)) [
              | inr later ↦ rw later (expire_each-Idle sends now ks h v)
              | inl over ↦
                  let id = req.workflow_execution_id in
                  rw over (
                    expire_each-Idle sends now ks _ (
                      send_response-Idle (sends id) req _ _ (v.pending_apart k req found)
                        (evicted-Idle id h v)))
            ])
    ]

    pending-Idle :
        (r : Request P) (h : Handler P V)
        → r.callback_ch ≢ c
        → Idle c n h
        → Idle c n
            (record h { pending_requests = insert r.workflow_execution_id r h.pending_requests })
    pending-Idle r h apart v = record {
      stored_apart = v.stored_apart;
      pending_apart = λ id q e. ground (
        arith,
        lookup-insert r.workflow_execution_id id r h.pending_requests,
        v.pending_apart id q,
      );
      count = v.count;
    }

    handle_request-Idle :
        (sends : String → Bool) (r : Request P) (h : Handler P V)
        → r.callback_ch ≢ c
        → Idle c n h
        → Idle c n (handle_request sends r h)
    unfolding handle_request
    handle_request-Idle sends r h apart v =
        let id = r.workflow_execution_id in
        let w = pending-Idle r h apart v in
        elim (Option-cases (lookup id h.response_cache)) [
          | inr (existing, found) ↦
              rw (found, handle_request)
                (send_response-Idle (sends id) r existing.response _ apart (record {
                  stored_apart = w.stored_apart;
                  pending_apart = w.pending_apart;
                  count = w.count;
                }))
          | inl missing ↦
              rw (missing, handle_request)
                (record {
                  stored_apart = λ j q e. elim (lookup-stored h.store r j q e) [
                    | inl old ↦ v.stored_apart j q old
                    | inr (_, this) ↦ subst (λ q. q.callback_ch ≢ c) (sym this) apart
                  ];
                  pending_apart = w.pending_apart;
                  count = w.count;
                })
        ]

    handle_response-Idle :
        (sends : String → Bool) (now : ℕ) (resp : Response V) (h : Handler P V)
        → Idle c n h
        → Idle c n (handle_response sends now resp h)
    unfolding handle_response
    handle_response-Idle sends now resp h v =
        let id = resp.workflow_execution_id in
        let w = evicted-Idle id h v in
        elim (Bool-cases (evict h.store id).2) [
          | inr absent ↦
              rw (absent, handle_response)
                (record {
                  stored_apart = w.stored_apart;
                  pending_apart = w.pending_apart;
                  count = w.count;
                })
          | inl present ↦ elim (Option-cases (evict h.store id).1) [
            | inl no_request ↦ rw (present, no_request, handle_response) w
            | inr (q, found) ↦
                rw (present, found, handle_response)
                  (send_response-Idle (sends id) q resp _
                    (v.stored_apart id q (evict-stored h.store id q found)) w)
          ]
        ]

    pub run-Idle :
        (es : List ((String → Bool) × Event P V)) (h : Handler P V)
        → Elsewhere c es
        → Idle c n h
        → Idle c n (run h es)
    unfolding run step expire_pending_requests
    run-Idle [] h apart v = v
    run-Idle ((sends, request r) ∷ es) h apart v =
        run-Idle es _ apart.1 (handle_request-Idle sends r h apart.0 v)
    run-Idle ((sends, pending_requests_expiry now) ∷ es) h apart v =
        run-Idle es _ apart (expire_each-Idle sends now (keys h.pending_requests) h v)
    run-Idle ((sends, response_cache_expiry now) ∷ es) h apart v =
        run-Idle es _ apart (record {
          stored_apart = v.stored_apart;
          pending_apart = v.pending_apart;
          count = v.count;
        })
    run-Idle ((sends, response now resp) ∷ es) h apart v =
        run-Idle es _ apart (handle_response-Idle sends now resp h v)
