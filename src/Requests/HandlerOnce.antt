-- ===== src/Requests/HandlerOnce.antt =====
-- Over a whole run of the worker, no channel is sent two responses.
use Prim.Native.String.{String}
use chainlink_common.Base.{ℕ, ◌≡◌, ◌≤◌, refl, List, [], ◌∷◌, Bool, lookup, string_eq, keys, arith}
use chainlink_common.Requests.Store.{Request, new_store}
use chainlink_common.Requests.StoreInvariant.{new_store-Inv}
use chainlink_common.Requests.Handler.{
  Handler, Event, pending_requests_expiry, response_cache_expiry, request, response, new_handler,
  expire_pending_requests, step, run,
}
use chainlink_common.Requests.HandlerSafety.{
  uses, sent, Live, in_store, in_pending, Safe, expire_each-Safe,
}
use chainlink_common.Requests.HandlerRun.{
  handle_request-Safe, handle_response-Safe, expire_cache-Safe,
}

module _ {P V : Type 0} where
  -- The channels of the requests that a list of events brings are new and differ.
  abbrev pub Fresh : List ℕ → List ((String → Bool) × Event P V) → Type 0
  Fresh used [] = Unit
  Fresh used ((sends, request r) ∷ es) =
      (uses r.callback_ch used ≡ 0) × Fresh (r.callback_ch ∷ used) es
  Fresh used ((sends, pending_requests_expiry now) ∷ es) = Fresh used es
  Fresh used ((sends, response_cache_expiry now) ∷ es) = Fresh used es
  Fresh used ((sends, response now resp) ∷ es) = Fresh used es

  run-once_from :
      (used : List ℕ) (h : Handler P V) (es : List ((String → Bool) × Event P V)) (c : ℕ)
      → Safe used h
      → Fresh used es
      → sent c (run h es).delivered ≤ 1
  unfolding run step expire_pending_requests
  run-once_from used h [] c v f = v.once c
  run-once_from used h ((sends, request r) ∷ es) c v f =
      run-once_from (r.callback_ch ∷ used) _ es c (handle_request-Safe used sends r h v f.0) f.1
  run-once_from used h ((sends, pending_requests_expiry now) ∷ es) c v f =
      run-once_from used _ es c (expire_each-Safe used sends now (keys h.pending_requests) h v) f
  run-once_from used h ((sends, response_cache_expiry now) ∷ es) c v f =
      run-once_from used _ es c (expire_cache-Safe used now h v) f
  run-once_from used h ((sends, response now resp) ∷ es) c v f =
      run-once_from used _ es c (handle_response-Safe used sends now resp h v) f

  new_handler-Safe : (expiry : ℕ) → Safe {P = P} {V = V} [] (new_handler expiry)
  unfolding new_handler new_store lookup
  new_handler-Safe expiry = record {
    store_ok = new_store-Inv;
    pending_filed = λ id r e. cc;
    one_id = λ i j q p a b e. absurd (nothing i q a);
    is_open = λ i q a. absurd (nothing i q a);
    live_used = λ i q a. absurd (nothing i q a);
    sent_used = λ c s. absurd (s refl);
    once = λ c. omega arith;
    cache_apart = λ i c. refl;
  }
    where
      nothing : (i : String) (q : Request P) → Live {V = V} (new_handler expiry) i q → ⊥
      nothing i q (in_store e) = cc
      nothing i q (in_pending e) = cc

-- Whatever requests, responses and ticks reach the worker, in any order, with any outcome of its
-- selects, and also if several requests share an ID: as long as each request brings a channel of
-- its own, no channel is ever sent two responses, so the worker never sends on a closed channel.
pub run-sends_once :
    {P V : Type 0} (expiry : ℕ) (es : List ((String → Bool) × Event P V)) (c : ℕ)
    → Fresh [] es
    → sent c (run (new_handler expiry) es).delivered ≤ 1
run-sends_once expiry es c f =
    run-once_from [] (new_handler expiry) es c (new_handler-Safe expiry) f
