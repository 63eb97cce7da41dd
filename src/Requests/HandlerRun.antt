-- ===== src/Requests/HandlerRun.antt =====
-- Each event keeps the worker safe: no channel is about to get a second response.
use Prim.Native.String.{String}
use text.Mathlib.TextEquality.{eq_iff}
use chainlink_common.Base.{
  ℕ, ◌≡◌, ◌≢◌, ◌⊎◌, inl, inr, refl, List, ◌∷◌, none, some, Bool, true, false, lookup, insert,
  delete, lookup-insert, lookup-delete, string_eq, arith, Option-cases,
}
use chainlink_common.Requests.Store.{Request, Store, add, evict}
use chainlink_common.Requests.StoreInvariant.{Inv, evict-Inv, without-found}
use chainlink_common.Requests.Handler.{
  Response, CacheEntry, Handler, stored, fresh_entries, handle_request, handle_response,
}
use chainlink_common.Requests.HandlerSafety.{
  uses, Live, in_store, in_pending, Safe, InHand, send_response-Safe, lookup-evict, stored-Inv,
  lookup-stored, lookup-fresh_entries, take_out, arrives-Safe, unsent_new, new_channel,
}

pub evict_missing :
    {P : Type 0} (s : Store P) (id : String)
    → Inv s
    → lookup id s.requests ≡ none
    → ((evict s id).1 ≡ none) × ((evict s id).2 ≡ false)
unfolding evict
evict_missing s id v e = ground (arith, v.agree id, without-found id s.request_ids)

pub evict_found :
    {P : Type 0} (s : Store P) (id : String) (r : Request P)
    → lookup id s.requests ≡ some r
    → ((evict s id).1 ≡ some r) × ((evict s id).2 ≡ true)
unfolding evict
evict_found s id r e = ground arith

module _ {P V : Type 0} where
  module _ (used : List ℕ) (r : Request P) (h : Handler P V) (v : Safe used h)
      (unused : uses r.callback_ch used ≡ 0) where
    -- The two states behind an arriving request: its response is cached, or it is not.
    cached : Handler P V
    cached = record h {
      pending_requests = insert r.workflow_execution_id r h.pending_requests;
      response_cache = delete r.workflow_execution_id h.response_cache;
    }

    waiting : Handler P V
    waiting = record h {
      pending_requests = insert r.workflow_execution_id r h.pending_requests;
      store = stored (add h.store r) h.store;
    }

    inserted :
        (i : String) (q : Request P)
        → lookup i (insert r.workflow_execution_id r h.pending_requests) ≡ some q
        → (lookup i h.pending_requests ≡ some q) ⊎ ((i ≡ r.workflow_execution_id) × (q ≡ r))
    inserted i q e = ground (
      arith,
      lookup-insert r.workflow_execution_id i r h.pending_requests,
      eq_iff r.workflow_execution_id i,
    )

    inserted-filed :
        (i : String) (q : Request P)
        → lookup i (insert r.workflow_execution_id r h.pending_requests) ≡ some q
        → q.workflow_execution_id ≡ i
    inserted-filed i q e = elim (inserted i q e) [
      | inl old ↦ v.pending_filed i q old
      | inr (f, g) ↦ rw (f, g)
    ]

    from_pending :
        (i : String) (q : Request P)
        → (lookup i h.pending_requests ≡ some q) ⊎ ((i ≡ r.workflow_execution_id) × (q ≡ r))
        → Live h i q ⊎ ((i ≡ r.workflow_execution_id) × (q ≡ r))
    from_pending i q (inl old) = inl (in_pending old)
    from_pending i q (inr new) = inr new

    from_store :
        (i : String) (q : Request P)
        → (lookup i h.store.requests ≡ some q) ⊎ ((i ≡ r.workflow_execution_id) × (q ≡ r))
        → Live h i q ⊎ ((i ≡ r.workflow_execution_id) × (q ≡ r))
    from_store i q (inl old) = inl (in_store old)
    from_store i q (inr new) = inr new

    arrives_cached :
        (i : String) (q : Request P)
        → Live cached i q
        → Live h i q ⊎ ((i ≡ r.workflow_execution_id) × (q ≡ r))
    unfolding cached
    arrives_cached i q (in_store e) = inl (in_store e)
    arrives_cached i q (in_pending e) = from_pending i q (inserted i q e)

    arrives_waiting :
        (i : String) (q : Request P)
        → Live waiting i q
        → Live h i q ⊎ ((i ≡ r.workflow_execution_id) × (q ≡ r))
    unfolding waiting
    arrives_waiting i q (in_store e) = from_store i q (lookup-stored h.store r i q e)
    arrives_waiting i q (in_pending e) = from_pending i q (inserted i q e)

    waiting-Safe :
        lookup r.workflow_execution_id h.response_cache ≡ none → Safe (r.callback_ch ∷ used) waiting
    unfolding waiting
    waiting-Safe e =
        arrives-Safe used h waiting r v unused arrives_waiting refl
          (stored-Inv h.store r v.store_ok) inserted-filed
          (λ i c. apart i c (Option-cases (lookup i (stored (add h.store r) h.store).requests)))
      where
        apart :
            (i : String)
            → lookup i h.response_cache ≢ none
            → (lookup i (stored (add h.store r) h.store).requests ≡ none)
              ⊎ ((q : Request P) × (lookup i (stored (add h.store r) h.store).requests ≡ some q))
            → lookup i (stored (add h.store r) h.store).requests ≡ none
        apart i c (inl f) = f
        apart i c (inr (q, f)) = elim (lookup-stored h.store r i q f) [
          | inl old ↦ cc (v.cache_apart i c)
          | inr (g, _) ↦ absurd (c (rw g e))
        ]

    cached-InHand :
        lookup r.workflow_execution_id h.response_cache ≢ none
        → InHand (r.callback_ch ∷ used) cached r
    unfolding cached
    cached-InHand c = record {
      safe =
          arrives-Safe used h cached r v unused arrives_cached refl v.store_ok inserted-filed
            (λ i d.
              ground
                (arith, v.cache_apart i, lookup-delete r.workflow_execution_id i h.response_cache));
      unsent = unsent_new used h cached r v unused arrives_cached refl;
      only_here = λ j q l e. only j q (arrives_cached j q l) e;
      evicted = v.cache_apart r.workflow_execution_id c;
      known = ground arith;
    }
      where
        only :
            (j : String) (q : Request P)
            → Live h j q ⊎ ((j ≡ r.workflow_execution_id) × (q ≡ r))
            → q.callback_ch ≡ r.callback_ch
            → j ≡ r.workflow_execution_id
        only j q (inl old) e =
            absurd (new_channel used h cached r v unused arrives_cached refl j q old e)
        only j q (inr (f, g)) e = f

  pub handle_request-Safe :
      (used : List ℕ) (sends : String → Bool) (r : Request P) (h : Handler P V)
      → Safe used h
      → uses r.callback_ch used ≡ 0
      → Safe (r.callback_ch ∷ used) (handle_request sends r h)
  unfolding handle_request cached waiting
  handle_request-Safe used sends r h v unused =
      elim (Option-cases (lookup r.workflow_execution_id h.response_cache)) [
        | inl e ↦ rw (e, handle_request) (waiting-Safe used r h v unused e)
        | inr (x, e) ↦
            rw (e, handle_request)
              (send_response-Safe (r.callback_ch ∷ used) (sends r.workflow_execution_id) r
                x.response (cached used r h v unused) (cached-InHand used r h v unused (λ n. cc)))
      ]

  cached_response-Safe :
      (used : List ℕ) (id : String) (x : CacheEntry V) (h : Handler P V)
      → Safe used h
      → Safe used
          (record h { store = (evict h.store id).0; response_cache = insert id x h.response_cache })
  cached_response-Safe used id x h v = record {
    store_ok = evict-Inv h.store id v.store_ok;
    pending_filed = v.pending_filed;
    one_id = λ i j q p a b. v.one_id i j q p (was_live i q a) (was_live j p b);
    is_open = λ i q a. v.is_open i q (was_live i q a);
    live_used = λ i q a. v.live_used i q (was_live i q a);
    sent_used = v.sent_used;
    once = v.once;
    cache_apart = λ i c. ground (
      arith,
      v.cache_apart i,
      lookup-evict h.store id i,
      lookup-insert id i x h.response_cache,
      eq_iff id i,
    );
  }
    where
      was_live :
          (i : String) (q : Request P)
          → Live
              (record h {
                store = (evict h.store id).0;
                response_cache = insert id x h.response_cache;
              })
              i
              q
          → Live h i q
      was_live i q (in_store e) = in_store (ground (arith, lookup-evict h.store id i))
      was_live i q (in_pending e) = in_pending e

  pub handle_response-Safe :
      (used : List ℕ) (sends : String → Bool) (now : ℕ) (resp : Response V) (h : Handler P V)
      → Safe used h
      → Safe used (handle_response sends now resp h)
  unfolding handle_response
  handle_response-Safe used sends now resp h v =
      elim (Option-cases (lookup resp.workflow_execution_id h.store.requests)) [
        | inl e ↦
            let (gone, absent) = evict_missing h.store resp.workflow_execution_id v.store_ok e in
            rw (absent, handle_response)
              (cached_response-Safe used resp.workflow_execution_id _ h v)
        | inr (r, e) ↦
            let (found, there) = evict_found h.store resp.workflow_execution_id r e in
            rw (there, found, handle_response)
              (send_response-Safe used _ r resp _ (
                take_out used h resp.workflow_execution_id r v (in_store e)
                  (v.store_ok.filed resp.workflow_execution_id r e)))
      ]

  pub expire_cache-Safe :
      (used : List ℕ) (now : ℕ) (h : Handler P V)
      → Safe used h
      → Safe used
          (record h { response_cache = fresh_entries h.cache_expiry_time now h.response_cache })
  expire_cache-Safe used now h v = record {
    store_ok = v.store_ok;
    pending_filed = v.pending_filed;
    one_id = λ i j q p a b. v.one_id i j q p (was_live i q a) (was_live j p b);
    is_open = λ i q a. v.is_open i q (was_live i q a);
    live_used = λ i q a. v.live_used i q (was_live i q a);
    sent_used = v.sent_used;
    once = v.once;
    cache_apart =
        λ i c. v.cache_apart i (lookup-fresh_entries h.cache_expiry_time now i h.response_cache c);
  }
    where
      was_live :
          (i : String) (q : Request P)
          → Live
              (record h { response_cache = fresh_entries h.cache_expiry_time now h.response_cache })
              i
              q
          → Live h i q
      was_live i q (in_store e) = in_store e
      was_live i q (in_pending e) = in_pending e
