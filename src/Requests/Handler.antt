-- ===== src/Requests/Handler.antt =====
-- pkg/capabilities/consensus/ocr3/requests/handler.go: one round of the worker's select for each
-- event. Channels are numbers, and `delivered` lists what was sent on them, newest first; a
-- channel is closed right behind its one send. `sends id` says which way the select of
-- sendResponse goes for a request: true if the response is taken, false if the context is done.
use Prim.Native.String.{String}
use chainlink_common.Base.{
  ℕ, ◌-◌, List, [], ◌∷◌, none, some, Bool, true, false, ltb, if◌then◌else◌, Result, ok, err, Dict,
  lookup, insert, delete, string_eq, keys,
}
use chainlink_common.Requests.Store.{Request, Store, StoreError, new_store, add, evict}

-- What a response carries: the caller's value or error, or the timeout of the handler.
pub data Body {ℓ} (V : Type ℓ) : Type ℓ where
  given : V → Body V
  timeout_exceeded : Body V

pub record Response {ℓ} (V : Type ℓ) : Type ℓ where
  pub workflow_execution_id : String
  pub body : Body V

pub record CacheEntry {ℓ} (V : Type ℓ) : Type ℓ where
  pub response : Response V
  pub entry_time : ℕ

pub record Handler {ℓ} (P V : Type ℓ) : Type ℓ where
  pub store : Store P
  pub pending_requests : Dict String (Request P)
  pub response_cache : Dict String (CacheEntry V)
  pub cache_expiry_time : ℕ
  pub delivered : List (ℕ × Response V)

pub data Event {ℓ} (P V : Type ℓ) : Type ℓ where
  pending_requests_expiry : ℕ → Event P V
  response_cache_expiry : ℕ → Event P V
  request : Request P → Event P V
  response : ℕ → Response V → Event P V

-- The loop of expireCachedResponses.
unfoldable pub fresh_entries {ℓ} :
    {V : Type ℓ} → ℕ → ℕ → Dict String (CacheEntry V) → Dict String (CacheEntry V)
fresh_entries expiry now [] = []
fresh_entries expiry now ((k, v) ∷ rest) =
    let kept = fresh_entries expiry now rest in
    if ltb expiry (now - v.entry_time) then kept else (k, v) ∷ kept

-- The store behind a call of Add: an error is only logged.
abbrev pub stored {ℓ} : {P : Type ℓ} → Result StoreError (Store P) → Store P → Store P
stored (ok s) old = s
stored (err e) old = old

module _ {ℓ} {P V : Type ℓ} where
  unfoldable pub new_handler : ℕ → Handler P V
  new_handler cache_expiry_time = record {
    store = new_store;
    pending_requests = [];
    response_cache = [];
    cache_expiry_time = cache_expiry_time;
    delivered = [];
  }

  unfoldable pub send_response : Bool → Request P → Response V → Handler P V → Handler P V
  send_response false req resp h = h
  send_response true req resp h = record h {
    delivered = (req.callback_ch, resp) ∷ h.delivered;
    pending_requests = delete req.workflow_execution_id h.pending_requests;
  }

  -- The body of the loop of expirePendingRequests.
  unfoldable pub expire_request : (String → Bool) → ℕ → Request P → Handler P V → Handler P V
  expire_request sends now req h =
      let id = req.workflow_execution_id in
      if ltb req.expires_at now
      then send_response (sends id) req
          (record { workflow_execution_id = id; body = timeout_exceeded })
          (record h { store = (evict h.store id).0 })
      else h

  -- The range over the map: a key whose entry has gone meanwhile gives nothing.
  unfoldable pub expire_each : (String → Bool) → ℕ → List String → Handler P V → Handler P V
  expire_each sends now [] h = h
  expire_each sends now (k ∷ ks) h =
      expire_each sends now ks (elim (lookup k h.pending_requests) [
        | none ↦ h
        | some req ↦ expire_request sends now req h
      ])

  unfoldable pub expire_pending_requests : (String → Bool) → ℕ → Handler P V → Handler P V
  expire_pending_requests sends now h = expire_each sends now (keys h.pending_requests) h

  unfoldable pub handle_request : (String → Bool) → Request P → Handler P V → Handler P V
  handle_request sends req h =
      let id = req.workflow_execution_id in
      let pending = insert id req h.pending_requests in
      elim (lookup id h.response_cache) [
        | some existing ↦
            send_response (sends id) req existing.response
              (record h { pending_requests = pending; response_cache = delete id h.response_cache })
        | none ↦ record h { pending_requests = pending; store = stored (add h.store req) h.store }
      ]

  -- evict gives no request but the flag only if an ID is listed without one; the nil request that
  -- the code would then read is the last case.
  unfoldable pub handle_response : (String → Bool) → ℕ → Response V → Handler P V → Handler P V
  handle_response sends now resp h =
      let id = resp.workflow_execution_id in
      let (s, req, was_present) = evict h.store id in
      if was_present
      then elim req [
        | some r ↦ send_response (sends id) r resp (record h { store = s })
        | none ↦ record h { store = s }
      ]
      else record h {
        store = s;
        response_cache = insert id (record { response = resp; entry_time = now }) h.response_cache;
      }

  unfoldable pub step : Handler P V → (String → Bool) × Event P V → Handler P V
  step h (sends, pending_requests_expiry now) = expire_pending_requests sends now h
  step h (sends, response_cache_expiry now) = record h {
    response_cache = fresh_entries h.cache_expiry_time now h.response_cache;
  }
  step h (sends, request req) = handle_request sends req h
  step h (sends, response now resp) = handle_response sends now resp h

  unfoldable pub run : Handler P V → List ((String → Bool) × Event P V) → Handler P V
  run h [] = h
  run h (e ∷ es) = run (step h e) es
