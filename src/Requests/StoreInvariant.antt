-- ===== src/Requests/StoreInvariant.antt =====
-- The list of IDs and the map of the store always agree.
use Prim.Native.String.{String}
use text.Mathlib.TextEquality.{eq_iff}
use chainlink_common.Base.{
  ℕ, suc, ◌+◌, ◌≡◌, refl, List, [], ◌∷◌, ◌++◌, Option, none, some, true, false, ◌==◌, if◌then◌else◌,
  string_eq, ok, lookup, arith, lookup-insert, lookup-delete,
}
use chainlink_common.Requests.Store.{Request, Store, new_store, add, evict, without}

-- How often an ID stands in the list.
abbrev pub occurs : String → List String → ℕ
occurs id [] = 0
occurs id (rid ∷ ids) = let n = occurs id ids in if string_eq.beq rid id then suc n else n

abbrev pub present {ℓ} : {A : Type ℓ} → Option A → ℕ
present none = 0
present (some _) = 1

pub occurs-append :
    (id : String) (xs ys : List String) → occurs id (xs ++ ys) ≡ occurs id xs + occurs id ys
occurs-append id [] ys = omega arith
occurs-append id (x ∷ xs) ys = ground (arith, occurs-append id xs ys)

pub occurs-without :
    (id j : String) (ids : List String)
    → occurs j (without id ids).0 ≡ (if string_eq.beq id j then 0 else occurs j ids)
unfolding without
occurs-without id j [] = ground arith
occurs-without id j (rid ∷ ids) =
    ground (arith, eq_iff rid id, eq_iff rid j, eq_iff id j, occurs-without id j ids)

-- The flag of evict's loop says whether the ID was in the list.
pub without-found :
    (id : String) (ids : List String)
    → (without id ids).1 ≡ (if occurs id ids == 0 then false else true)
unfolding without
without-found id [] = refl
without-found id (rid ∷ ids) = ground (arith, without-found id ids)

module _ {ℓ} {P : Type ℓ} where
  -- Every ID of the list stands there once and is a key of the map, and every key is in the list;
  -- each request is filed under its own ID.
  pub record Inv (s : Store P) : Type ℓ where
    pub agree : (id : String) → occurs id s.request_ids ≡ present (lookup id s.requests)
    pub filed :
        (id : String) (r : Request P) → lookup id s.requests ≡ some r → r.workflow_execution_id ≡ id

  pub new_store-Inv : Inv new_store
  unfolding new_store lookup
  new_store-Inv = record { agree = λ id. refl; filed = λ id r e. cc }

  pub add-Inv : (s s' : Store P) (req : Request P) → Inv s → add s req ≡ ok s' → Inv s'
  unfolding add
  add-Inv s s' req v e = record {
    agree = λ id. ground (
      arith,
      v.agree id,
      lookup-insert req.workflow_execution_id id req s.requests,
      occurs-append id s.request_ids (req.workflow_execution_id ∷ []),
      eq_iff req.workflow_execution_id id,
    );
    filed = λ id r f. ground (
      arith,
      v.filed id r,
      lookup-insert req.workflow_execution_id id req s.requests,
      eq_iff req.workflow_execution_id id,
    );
  }

  pub evict-Inv : (s : Store P) (id : String) → Inv s → Inv (evict s id).0
  unfolding evict
  evict-Inv s id v = record {
    agree = λ j. ground (
      arith,
      v.agree j,
      lookup-delete id j s.requests,
      occurs-without id j s.request_ids,
      eq_iff id j,
    );
    filed = λ j r f. ground (arith, v.filed j r, lookup-delete id j s.requests);
  }
