-- ===== src/Requests/Tests.antt =====
-- The theorems on the request store and its worker at two concrete requests.
use Prim.Native.String.{String}
use chainlink_common.Base.{
  ℕ, ◌≡◌, ◌≢◌, ◌≤◌, ◌⊎◌, refl, List, [], ◌∷◌, ◌++◌, none, some, Bool, true, ok, err, lookup, insert,
  string_eq, arith,
}
use chainlink_common.Requests.Store.{Request, Store, new_store, add, already_exists}
use chainlink_common.Requests.StoreInvariant.{Inv, new_store-Inv, add-Inv}
use chainlink_common.Requests.StoreQueue.{contents, find_id, add_lem}
use chainlink_common.Requests.Handler.{
  Response, Handler, Event, given, request, response, pending_requests_expiry,
  response_cache_expiry, new_handler, run,
}
use chainlink_common.Requests.HandlerSafety.{sent, in_store, in_pending}
use chainlink_common.Requests.HandlerOnce.{run-sends_once}
use chainlink_common.Requests.HandlerJoin.{Forgotten, run-joins}
use chainlink_common.Requests.HandlerIdle.{Unknown}
use chainlink_common.Requests.HandlerLost.{run-loses_duplicate}

abbrev first_request : Request ℕ
first_request = record {
  workflow_execution_id = "a";
  expires_at = 100;
  callback_ch = 1;
  payload = 0;
}

abbrev same_id : Request ℕ
same_id = record first_request { callback_ch = 2 }

abbrev other_request : Request ℕ
other_request = record {
  workflow_execution_id = "b";
  expires_at = 50;
  callback_ch = 3;
  payload = 0;
}

abbrev holding_first : Store ℕ
holding_first = record { request_ids = "a" ∷ []; requests = ("a", first_request) ∷ [] }

holding_first-Inv : Inv holding_first
holding_first-Inv = add-Inv new_store holding_first first_request new_store-Inv added
  where
    added : add new_store first_request ≡ ok holding_first
    added = unfold add in unfold new_store in unfold lookup in unfold insert in refl

add_lem_example :
    ((find_id "b" (contents holding_first) ≡ none)
      × ((s' : Store ℕ) × (add holding_first other_request ≡ ok s')
          × Inv s'
          × (contents s' ≡ contents holding_first ++ other_request ∷ [])))
    ⊎ ((find_id "b" (contents holding_first) ≢ none)
        × (add holding_first other_request ≡ err (already_exists "b")))
add_lem_example = add_lem holding_first other_request holding_first-Inv

abbrev always : String → Bool
always id = true

abbrev answer : Response ℕ
answer = record { workflow_execution_id = "a"; body = given 7 }

-- A duplicate, a response, two requests that expire, and a late response.
abbrev events : List ((String → Bool) × Event ℕ ℕ)
events =
    (always, request first_request)
    ∷ (always, request same_id)
    ∷ (always, response 10 answer)
    ∷ (always, request other_request)
    ∷ (always, pending_requests_expiry 200)
    ∷ (always, response_cache_expiry 300)
    ∷ []

run-sends_once_example : sent 1 (run (new_handler 60) events).delivered ≤ 1
run-sends_once_example = run-sends_once 60 events 1 (refl, (refl, (refl, tt)))

abbrev idle : Handler ℕ ℕ
idle = new_handler 60

idle-Forgotten : Forgotten "a" idle
idle-Forgotten =
    unfold new_handler in
    unfold new_store in
    unfold lookup in record { no_request = refl; no_pending = refl; no_response = refl }

idle-Inv : Inv idle.store
idle-Inv = unfold new_handler in new_store-Inv

run-joins_example :
    let asked = run idle ((always, request first_request) ∷ (always, response 10 answer) ∷ []) in
    let told = run idle ((always, response 10 answer) ∷ (always, request first_request) ∷ []) in
    ((asked.delivered ≡ (1, answer) ∷ idle.delivered) × Forgotten "a" asked)
    × ((told.delivered ≡ (1, answer) ∷ idle.delivered) × Forgotten "a" told)
run-joins_example =
    run-joins idle always always 10 first_request answer idle-Inv idle-Forgotten refl refl refl

abbrev waiting : Handler ℕ ℕ
waiting = record {
  store = holding_first;
  pending_requests = ("a", first_request) ∷ [];
  response_cache = [];
  cache_expiry_time = 60;
  delivered = [];
}

waiting-held : lookup "a" waiting.store.requests ≡ some first_request
waiting-held = unfold lookup in refl

waiting-uncached : lookup "a" waiting.response_cache ≡ none
waiting-uncached = unfold lookup in refl

waiting-Unknown : Unknown 2 waiting
unfolding lookup
waiting-Unknown id q (in_store e) = ground arith
waiting-Unknown id q (in_pending e) = ground arith

-- The tick comes after the second request has expired.
abbrev late_tick : List ((String → Bool) × Event ℕ ℕ)
late_tick = (always, pending_requests_expiry 1000) ∷ []

run-loses_duplicate_example :
    let h' = run waiting ((always, request same_id) ∷ (always, response 10 answer) ∷ []) in
    (h'.delivered ≡ (1, answer) ∷ []) × Forgotten "a" h' × (sent 2 (run h' late_tick).delivered ≡ 0)
run-loses_duplicate_example =
    run-loses_duplicate waiting always always 10 first_request same_id answer late_tick
      holding_first-Inv waiting-held waiting-uncached refl refl refl waiting-Unknown tt
