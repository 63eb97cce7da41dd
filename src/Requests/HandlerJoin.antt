-- ===== src/Requests/HandlerJoin.antt =====
-- What becomes of one request and its response.
use Prim.Native.String.{String}
use text.Mathlib.TextEquality.{eq_iff}
use chainlink_common.Base.{
  ℕ, ◌≡◌, sym, ap, subst, ◌∙◌, [], ◌∷◌, none, some, Bool, true, false, Dict, lookup, insert,
  lookup-insert, lookup-delete, string_eq, arith,
}
use chainlink_common.Requests.Store.{Request, add, evict}
use chainlink_common.Requests.StoreInvariant.{Inv}
use chainlink_common.Requests.Handler.{
  Response, CacheEntry, Handler, request, response, send_response, handle_request, handle_response,
  step, run,
}
use chainlink_common.Requests.HandlerSafety.{lookup-evict, stored-Inv}
use chainlink_common.Requests.HandlerRun.{evict_missing, evict_found}

module _ {P V : Type 0} where
  -- The worker holds nothing under an ID.
  pub record Forgotten (id : String) (h : Handler P V) : Type 0 where
    pub no_request : lookup id h.store.requests ≡ none
    pub no_pending : lookup id h.pending_requests ≡ none
    pub no_response : lookup id h.response_cache ≡ none

  -- A response to the request that the store holds is sent to that request's channel.
  answered :
      (h : Handler P V) (sends : String → Bool) (now : ℕ) (resp : Response V) (r : Request P)
      → let id = resp.workflow_execution_id in
        Inv h.store
        → lookup id h.response_cache ≡ none
        → lookup id h.store.requests ≡ some r
        → sends id ≡ true
        → let h' = handle_response sends now resp h in
          (h'.delivered ≡ (r.callback_ch, resp) ∷ h.delivered) × Forgotten id h'
  unfolding handle_response send_response
  answered h sends now resp r v n f s = (
    ground (arith, found),
    record {
      no_request = ground (arith, found, lookup-evict h.store id id, eq_iff id id);
      no_pending =
          ground
            (arith, found, v.filed id r f, lookup-delete id id h.pending_requests, eq_iff id id);
      no_response = ground (arith, found);
    },
  )
    where
      id : String
      id = resp.workflow_execution_id

      found : ((evict h.store id).1 ≡ some r) × ((evict h.store id).2 ≡ true)
      found = evict_found h.store id r f

  -- A first request of an ID waits in the store.
  waits :
      (h : Handler P V) (sends : String → Bool) (r : Request P)
      → let id = r.workflow_execution_id in
        lookup id h.response_cache ≡ none
        → lookup id h.store.requests ≡ none
        → let h' = handle_request sends r h in
          (lookup id h'.store.requests ≡ some r)
          × (h'.response_cache ≡ h.response_cache)
          × (h'.delivered ≡ h.delivered)
          × (Inv h.store → Inv h'.store)
  unfolding handle_request add
  waits h sends r n f =
      let id = r.workflow_execution_id in
      (
        ground (arith, lookup-insert id id r h.store.requests, eq_iff id id),
        ground arith,
        ground arith,
        λ v. rw (n, handle_request) (stored-Inv h.store r v),
      )

  -- A response that no request waits for is cached.
  cached :
      (h : Handler P V) (sends : String → Bool) (now : ℕ) (resp : Response V)
      → let id = resp.workflow_execution_id in
        Inv h.store
        → lookup id h.store.requests ≡ none
        → let h' = handle_response sends now resp h in
          (lookup id h'.response_cache ≡ some (record { response = resp; entry_time = now }))
          × (lookup id h'.store.requests ≡ none)
          × (h'.pending_requests ≡ h.pending_requests)
          × (h'.delivered ≡ h.delivered)
  unfolding handle_response
  cached h sends now resp v f = (
    ground (
      arith,
      missing,
      lookup-insert id id (record { response = resp; entry_time = now }) h.response_cache,
      eq_iff id id,
    ),
    ground (arith, missing, lookup-evict h.store id id),
    ground (arith, missing),
    ground (arith, missing),
  )
    where
      id : String
      id = resp.workflow_execution_id

      missing : ((evict h.store id).1 ≡ none) × ((evict h.store id).2 ≡ false)
      missing = evict_missing h.store id v f

  -- A request whose response is cached is answered at once.
  answered_at_once :
      (h : Handler P V) (sends : String → Bool) (r : Request P) (c : CacheEntry V)
      → let id = r.workflow_execution_id in
        lookup id h.response_cache ≡ some c
        → lookup id h.store.requests ≡ none
        → sends id ≡ true
        → let h' = handle_request sends r h in
          (h'.delivered ≡ (r.callback_ch, c.response) ∷ h.delivered) × Forgotten id h'
  unfolding handle_request send_response
  answered_at_once h sends r c e f s =
      let id = r.workflow_execution_id in
      (
        ground arith,
        record {
          no_request = ground arith;
          no_pending =
              ground (arith, lookup-delete id id (insert id r h.pending_requests), eq_iff id id);
          no_response = ground (arith, lookup-delete id id h.response_cache, eq_iff id id);
        },
      )

  -- A request and the response to it meet in either order: where the worker holds nothing under
  -- their ID and both sends succeed, the two rounds of the worker end with the response sent on
  -- the request's channel, and nothing held under the ID.
  pub run-joins :
      (h : Handler P V) (sends sends' : String → Bool) (now : ℕ) (r : Request P) (resp : Response V)
      → let id = r.workflow_execution_id in
        Inv h.store
        → Forgotten id h
        → resp.workflow_execution_id ≡ id
        → sends id ≡ true
        → sends' id ≡ true
        → let asked = run h ((sends, request r) ∷ (sends', response now resp) ∷ []) in
          let told = run h ((sends, response now resp) ∷ (sends', request r) ∷ []) in
          ((asked.delivered ≡ (r.callback_ch, resp) ∷ h.delivered) × Forgotten id asked)
          × ((told.delivered ≡ (r.callback_ch, resp) ∷ h.delivered) × Forgotten id told)
  unfolding run step
  run-joins h sends sends' now r resp v g e s s' =
      let id = r.workflow_execution_id in
      let (there, same, before, kept) = waits h sends r g.no_response g.no_request in
      let h' = handle_request sends r h in
      let asked =
        answered h' sends' now resp r (kept v)
          (subst (λ i. lookup i h'.response_cache ≡ none) (sym e) (same-none id same g.no_response))
          (subst (λ i. lookup i h'.store.requests ≡ some r) (sym e) there) (ap sends' e ∙ s') in
      let (filed, gone, pending, before') =
        cached h sends now resp v (ap (λ i. lookup i h.store.requests) e ∙ g.no_request) in
      let h'' = handle_response sends now resp h in
      let told =
        answered_at_once h'' sends' r (record { response = resp; entry_time = now })
          (subst
            (λ i. lookup i h''.response_cache ≡ some (record { response = resp; entry_time = now }))
            e filed)
          (subst (λ i. lookup i h''.store.requests ≡ none) e gone) s' in
      (
        (
          asked.0 ∙ ap (λ d. (r.callback_ch, resp) ∷ d) before,
          subst (λ i. Forgotten i (handle_response sends' now resp h')) e asked.1,
        ),
        (told.0 ∙ ap (λ d. (r.callback_ch, resp) ∷ d) before', told.1),
      )
    where
      same-none :
          (id : String) {c d : Dict String (CacheEntry V)}
          → c ≡ d
          → lookup id d ≡ none
          → lookup id c ≡ none
      same-none id p q = ap (λ m. lookup id m) p ∙ q

  -- A second request of an ID that the store holds, and then the response: it goes to the first
  -- request.
  pub loses_duplicate :
      (h : Handler P V) (sends sends' : String → Bool) (now : ℕ) (r r' : Request P)
      (resp : Response V)
      → let id = r.workflow_execution_id in
        Inv h.store
        → lookup id h.store.requests ≡ some r
        → lookup id h.response_cache ≡ none
        → r'.workflow_execution_id ≡ id
        → resp.workflow_execution_id ≡ id
        → sends' id ≡ true
        → let h' = run h ((sends, request r') ∷ (sends', response now resp) ∷ []) in
          (h'.delivered ≡ (r.callback_ch, resp) ∷ h.delivered) × Forgotten id h'
  unfolding run step
  loses_duplicate h sends sends' now r r' resp v f n e e' s =
      let id = r.workflow_execution_id in
      let h' = handle_request sends r' h in
      let (there, same, before, kept) = refused in
      let told =
        answered h' sends' now resp r kept
          (subst (λ i. lookup i h'.response_cache ≡ none) (sym e') same)
          (subst (λ i. lookup i h'.store.requests ≡ some r) (sym e') there) (ap sends' e' ∙ s) in
      (
        told.0 ∙ ap (λ d. (r.callback_ch, resp) ∷ d) before,
        subst (λ i. Forgotten i (handle_response sends' now resp h')) e' told.1,
      )
    where
      refused :
          let h' = handle_request sends r' h in
          let id = r.workflow_execution_id in
          (lookup id h'.store.requests ≡ some r)
          × (lookup id h'.response_cache ≡ none)
          × (h'.delivered ≡ h.delivered)
          × Inv h'.store
      refused =
          unfold handle_request in
          unfold add in (ground arith, ground arith, ground arith, subst (λ x. x) (ground arith) v)
