-- ===== src/Requests/HandlerLost.antt =====
-- A request of pkg/capabilities/consensus/ocr3/requests with the ID of a stored one, whose
-- response comes first.
use Prim.Native.String.{String}
use text.Mathlib.TextEquality.{eq_iff}
use chainlink_common.Base.{
  ℕ, ◌≡◌, refl, ap, ◌∙◌, List, [], ◌∷◌, none, some, Bool, true, lookup, lookup-insert,
  lookup-delete, string_eq, arith, if◌then◌else◌,
}
use chainlink_common.Requests.Store.{Request, add}
use chainlink_common.Requests.StoreInvariant.{Inv}
use chainlink_common.Requests.Handler.{
  Response, Handler, Event, request, response, send_response, handle_request, handle_response, step,
  run,
}
use chainlink_common.Requests.HandlerSafety.{sent, in_store, in_pending, lookup-evict, stored-Inv}
use chainlink_common.Requests.HandlerRun.{evict_found}
use chainlink_common.Requests.HandlerJoin.{Forgotten, loses_duplicate}
use chainlink_common.Requests.HandlerIdle.{Unknown, Elsewhere, Idle, run-Idle}

module _ {P V : Type 0} where
  -- What the two rounds leave under the other IDs.
  refused_others :
      (h : Handler P V) (sends : String → Bool) (r r' : Request P) (id j : String)
      → r'.workflow_execution_id ≡ id
      → lookup id h.store.requests ≡ some r
      → lookup id h.response_cache ≡ none
      → let h' = handle_request sends r' h in
        (lookup j h'.store.requests ≡ lookup j h.store.requests)
        × (lookup j h'.pending_requests
            ≡ (if string_eq.beq id j then some r' else lookup j h.pending_requests))
  unfolding handle_request add
  refused_others h sends r r' id j same held uncached = (
    ground (arith, same),
    ground (arith, same, lookup-insert r'.workflow_execution_id j r' h.pending_requests),
  )

  answered_others :
      (h : Handler P V) (sends : String → Bool) (now : ℕ) (resp : Response V) (r : Request P)
      (j : String)
      → let id = resp.workflow_execution_id in
        Inv h.store
        → lookup id h.store.requests ≡ some r
        → sends id ≡ true
        → let h' = handle_response sends now resp h in
          (lookup j h'.store.requests
            ≡ (if string_eq.beq id j then none else lookup j h.store.requests))
          × (lookup j h'.pending_requests
              ≡ (if string_eq.beq id j then none else lookup j h.pending_requests))
  unfolding handle_response send_response
  answered_others h sends now resp r j v held sent_on =
      let id = resp.workflow_execution_id in
      let found = evict_found h.store id r held in
      (
        ground (arith, found, lookup-evict h.store id j),
        ground
            (arith, found, v.filed id r held, lookup-delete id j h.pending_requests, eq_iff id j),
      )

  duplicate-Idle :
      (h : Handler P V) (sends sends' : String → Bool) (now : ℕ) (r r' : Request P)
      (resp : Response V)
      → let id = resp.workflow_execution_id in
        Inv h.store
        → lookup id h.store.requests ≡ some r
        → lookup id h.response_cache ≡ none
        → r'.workflow_execution_id ≡ id
        → sends' id ≡ true
        → Unknown r'.callback_ch h
        → (h1 : Handler P V) → handle_response sends' now resp (handle_request sends r' h) ≡ h1
        → h1.delivered ≡ (r.callback_ch, resp) ∷ h.delivered
        → Idle r'.callback_ch (sent r'.callback_ch h.delivered) h1
  unfolding handle_request
  duplicate-Idle h sends sends' now r r' resp v held uncached same taken unknown h1 is told =
      let id = resp.workflow_execution_id in
      let before = handle_request sends r' h in
      let refused : (j : String)
          → (lookup j before.store.requests ≡ lookup j h.store.requests)
            × (lookup j before.pending_requests
                ≡ (if string_eq.beq id j then some r' else lookup j h.pending_requests)) =
        λ j. refused_others h sends r r' id j same held uncached in
      let kept : Inv before.store =
        rw (ap (λ i. lookup i h.response_cache) same ∙ uncached, handle_request)
          (stored-Inv h.store r' v) in
      let after : (j : String)
          → (lookup j h1.store.requests
              ≡ (if string_eq.beq id j then none else lookup j before.store.requests))
            × (lookup j h1.pending_requests
                ≡ (if string_eq.beq id j then none else lookup j before.pending_requests)) =
        λ j.
          rw is at
            (answered_others before sends' now resp r j kept ((refused id).0 ∙ held) taken) in
      record {
        stored_apart = λ j q e. unknown j q (in_store (ground (arith, after j, refused j)));
        pending_apart = λ j q e. unknown j q (in_pending (ground (arith, after j, refused j)));
        count = ground (arith, told, unknown id r (in_store held));
      }

  -- A second request of an ID that the store holds is refused as a duplicate. If the response is
  -- the next event and is taken, it goes to the first request and the worker holds nothing under
  -- the ID. Whatever events follow, ticks of the expiry included, nothing is ever sent on the
  -- second request's channel, if that channel is of no other request.
  pub run-loses_duplicate :
      (h : Handler P V) (sends sends' : String → Bool) (now : ℕ) (r r' : Request P)
      (resp : Response V) (es : List ((String → Bool) × Event P V))
      → let id = r.workflow_execution_id in
        Inv h.store
        → lookup id h.store.requests ≡ some r
        → lookup id h.response_cache ≡ none
        → r'.workflow_execution_id ≡ id
        → resp.workflow_execution_id ≡ id
        → sends' id ≡ true
        → Unknown r'.callback_ch h
        → Elsewhere r'.callback_ch es
        → let h' = run h ((sends, request r') ∷ (sends', response now resp) ∷ []) in
          (h'.delivered ≡ (r.callback_ch, resp) ∷ h.delivered)
          × Forgotten id h'
          × (sent r'.callback_ch (run h' es).delivered ≡ sent r'.callback_ch h.delivered)
  unfolding run step
  run-loses_duplicate h sends sends' now r r' resp es v held uncached same same' taken unknown
        elsewhere =
      let (told, forgotten) =
        loses_duplicate h sends sends' now r r' resp v held uncached same same' taken in
      (
        told,
        forgotten,
        (run-Idle r'.callback_ch _ es _ elsewhere (
            duplicate-Idle h sends sends' now r r' resp v (rw same' held) (rw same' uncached)
              (rw (same, same') refl) (rw same' taken) unknown _ refl told)).count,
      )
