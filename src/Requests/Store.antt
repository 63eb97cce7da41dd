-- ===== src/Requests/Store.antt =====
-- pkg/capabilities/consensus/ocr3/requests/store.go and request.go. Each method holds the mutex
-- throughout. Values are immutable here, so the deep copies of Copy are the values themselves.
use Prim.Native.String.{String}
use chainlink_common.Base.{
  ℕ, List, [], ◌∷◌, ◌++◌, Option, none, some, Bool, true, false, length, ◌==◌, if◌then◌else◌,
  string_eq, Result, ok, err, Dict, lookup, insert, delete,
}

-- A Request. `callback_ch` names the channel, and `payload` the observations, the encoder
-- override and the other identifiers, which the store does not read.
pub record Request {ℓ} (P : Type ℓ) : Type ℓ where
  pub workflow_execution_id : String
  pub expires_at : ℕ
  pub callback_ch : ℕ
  pub payload : P

pub record Store {ℓ} (P : Type ℓ) : Type ℓ where
  pub request_ids : List String
  pub requests : Dict String (Request P)

pub data StoreError : Type 0 where
  zero_batch_size : StoreError
  already_exists : String → StoreError

-- The loop of evict over the IDs: those that are kept, and whether one was not.
unfoldable pub without : String → List String → List String × Bool
without request_id [] = ([], false)
without request_id (rid ∷ ids) =
    let (kept, found) = without request_id ids in
    if string_eq.beq rid request_id then (kept, true) else (rid ∷ kept, found)

module _ {ℓ} {P : Type ℓ} where
  unfoldable pub new_store : Store P
  new_store = record { request_ids = []; requests = [] }

  -- The loop of GetByIDs.
  unfoldable pub found_in : Dict String (Request P) → List String → List (Request P)
  found_in requests [] = []
  found_in requests (r ∷ ids) =
      let rest = found_in requests ids in
      elim (lookup r requests) [ none ↦ rest | some gr ↦ gr ∷ rest ]

  unfoldable pub get_by_ids : Store P → List String → List (Request P)
  get_by_ids s ids = found_in s.requests ids

  -- The loop of FirstN, with what it has got so far.
  unfoldable pub first_n_loop :
      Dict String (Request P) → ℕ → List (Request P) → List String → List (Request P)
  first_n_loop requests batch_size got [] = got
  first_n_loop requests batch_size got (r ∷ ids) =
      let missed = first_n_loop requests batch_size got ids in
      elim (lookup r requests) [
        | none ↦ missed
        | some gr ↦
            let got' = got ++ gr ∷ [] in
            let more = first_n_loop requests batch_size got' ids in
            if length got' == batch_size then got' else more
      ]

  unfoldable pub first_n : Store P → ℕ → Result StoreError (List (Request P))
  first_n s batch_size =
      if batch_size == 0
      then err zero_batch_size
      else if length s.request_ids == 0
      then ok []
      else ok (first_n_loop s.requests batch_size [] s.request_ids)

  unfoldable pub add : Store P → Request P → Result StoreError (Store P)
  add s req = elim (lookup req.workflow_execution_id s.requests) [
    | some _ ↦ err (already_exists req.workflow_execution_id)
    | none ↦ ok (record {
      request_ids = s.request_ids ++ req.workflow_execution_id ∷ [];
      requests = insert req.workflow_execution_id req s.requests;
    })
  ]

  unfoldable pub get : Store P → String → Option (Request P)
  get s request_id = lookup request_id s.requests

  unfoldable pub evict : Store P → String → Store P × Option (Request P) × Bool
  unfolding without
  evict s request_id =
      let r = lookup request_id s.requests in
      let (kept, found) = without request_id s.request_ids in
      (
        record {
          request_ids = kept;
          requests = elim r [ none ↦ s.requests | some _ ↦ delete request_id s.requests ];
        },
        r,
        elim r [ none ↦ found | some _ ↦ true ],
      )
