-- ===== src/Requests/StoreQueue.antt =====
-- The store is a queue of requests with distinct IDs: what its methods do to that queue.
use mathlib.Core.List.{append-nil, append_assoc}
use Prim.Native.String.{String}
use text.Mathlib.TextEquality.{eq_iff}
use chainlink_common.Base.{
  ℕ, ◌≡◌, ◌<◌, ◌≢◌, ◌⊎◌, ◌↔◌, ◌∙◌, sym, ap, refl, inl, inr, List, [], ◌∷◌, ◌++◌, Option, none, some,
  true, length, ◌==◌, if◌then◌else◌, string_eq, ok, err, Dict, lookup, insert, delete, arith,
  Option-cases, lookup-insert, lookup-delete, take, length-append, take-length, take_all,
  Bool-cases, ==_iff,
}
use chainlink_common.Requests.Store.{
  Request, Store, add, evict, without, already_exists, zero_batch_size, found_in, get_by_ids,
  first_n_loop, first_n, get,
}
use chainlink_common.Requests.StoreInvariant.{occurs, Inv, add-Inv, evict-Inv, without-found}

module _ {P : Type 0} where
  -- The requests of the store, in the order of the list of IDs.
  abbrev pub contents : Store P → List (Request P)
  contents s = get_by_ids s s.request_ids

  -- The specification: the first request with an ID, and the queue without it.
  abbrev pub find_id : String → List (Request P) → Option (Request P)
  find_id id [] = none
  find_id id (r ∷ rs) =
      let rest = find_id id rs in if string_eq.beq r.workflow_execution_id id then some r else rest

  abbrev pub remove_id : String → List (Request P) → List (Request P)
  remove_id id [] = []
  remove_id id (r ∷ rs) =
      let rest = remove_id id rs in
      if string_eq.beq r.workflow_execution_id id then rest else r ∷ rest

  abbrev Filed : Dict String (Request P) → Type 0
  Filed m = (id : String) (r : Request P) → lookup id m ≡ some r → r.workflow_execution_id ≡ id

  found_in-append :
      (m : Dict String (Request P)) (ids more : List String)
      → found_in m (ids ++ more) ≡ found_in m ids ++ found_in m more
  unfolding found_in
  found_in-append m [] more = refl
  found_in-append m (id ∷ ids) more = ground (arith, found_in-append m ids more)

  found_in-insert :
      (m : Dict String (Request P)) (k : String) (req : Request P) (ids : List String)
      → occurs k ids ≡ 0
      → found_in (insert k req m) ids ≡ found_in m ids
  unfolding found_in
  found_in-insert m k req [] h = refl
  found_in-insert m k req (id ∷ ids) h =
      ground
        (arith, lookup-insert k id req m, eq_iff k id, eq_iff id k, found_in-insert m k req ids)

  found_in-without :
      (m m' : Dict String (Request P)) (id : String) (ids : List String)
      → Filed m
      → ((j : String) → j ≢ id → lookup j m' ≡ lookup j m)
      → found_in m' (without id ids).0 ≡ remove_id id (found_in m ids)
  unfolding found_in without
  found_in-without m m' id [] f same = refl
  found_in-without m m' id (rid ∷ ids) f same = elim (Option-cases (lookup rid m)) [
    | inl e ↦ ground (arith, eq_iff rid id, same rid, found_in-without m m' id ids f same)
    | inr (r, e) ↦ ground (
      arith,
      eq_iff rid id,
      eq_iff r.workflow_execution_id id,
      f rid r e,
      same rid,
      found_in-without m m' id ids f same,
    )
  ]

  first_n_turn :
      (n : ℕ) (got : List (Request P)) (gr : Request P) (rest more : List (Request P))
      → length got < n
      → (length (got ++ gr ∷ []) < n → more ≡ take n ((got ++ gr ∷ []) ++ rest))
      → (if length (got ++ gr ∷ []) == n then got ++ gr ∷ [] else more)
        ≡ take n (got ++ (gr ∷ rest))
  first_n_turn n got gr rest more h next = elim (Bool-cases (length (got ++ gr ∷ []) == n)) [
    | inl e ↦
        let full : length (got ++ gr ∷ []) ≡ n = (==_iff (length (got ++ gr ∷ [])) n).0 e in
        rw (e, ← shift, ← full) (sym (take-length (got ++ gr ∷ []) rest))
    | inr e ↦ rw e (next (ground (arith, length-append got (gr ∷ []))) ∙ ap (take n) shift)
  ]
    where
      shift : (got ++ gr ∷ []) ++ rest ≡ got ++ (gr ∷ rest)
      shift = append_assoc got (gr ∷ []) rest

  first_n_loop-take :
      (m : Dict String (Request P)) (n : ℕ) (got : List (Request P)) (ids : List String)
      → length got < n
      → first_n_loop m n got ids ≡ take n (got ++ found_in m ids)
  unfolding first_n_loop found_in
  first_n_loop-take m n got [] h = rw append-nil (sym (take_all n got (omega arith)))
  first_n_loop-take m n got (id ∷ ids) h = elim (Option-cases (lookup id m)) [
    | inl e ↦ rw (e, first_n_loop, found_in) (first_n_loop-take m n got ids h)
    | inr (gr, e) ↦
        rw (e, first_n_loop, found_in)
          (first_n_turn n got gr (found_in m ids) _ h (first_n_loop-take m n (got ++ gr ∷ []) ids))
  ]

  find_id-found_in :
      (m : Dict String (Request P)) (id : String) (ids : List String)
      → Filed m
      → find_id id (found_in m ids) ≡ (if occurs id ids == 0 then none else lookup id m)
  unfolding found_in
  find_id-found_in m id [] f = refl
  find_id-found_in m id (rid ∷ ids) f = elim (Option-cases (lookup rid m)) [
    | inl e ↦ ground (arith, eq_iff rid id, find_id-found_in m id ids f)
    | inr (r, e) ↦ ground (
      arith,
      eq_iff rid id,
      eq_iff r.workflow_execution_id id,
      f rid r e,
      find_id-found_in m id ids f,
    )
  ]

  get-find : (s : Store P) (id : String) → Inv s → lookup id s.requests ≡ find_id id (contents s)
  unfolding get_by_ids
  get-find s id v = ground (arith, v.agree id, find_id-found_in s.requests id s.request_ids v.filed)

  contents-insert :
      (s : Store P) (req : Request P)
      → Inv s
      → lookup req.workflow_execution_id s.requests ≡ none
      → found_in
          (insert req.workflow_execution_id req s.requests)
          (s.request_ids ++ req.workflow_execution_id ∷ [])
        ≡ found_in s.requests s.request_ids ++ req ∷ []
  contents-insert s req v e =
      let k = req.workflow_execution_id in
      let m = insert k req s.requests in
      rw
        (
          found_in-append m s.request_ids (k ∷ []),
          found_in-insert s.requests k req s.request_ids (ground (arith, v.agree k)),
        )
        (unfold found_in in ground (arith, lookup-insert k k req s.requests, eq_iff k k))

  -- Add appends a new request to the queue, and refuses an ID that is in the queue.
  pub add_lem :
      (s : Store P) (req : Request P)
      → Inv s
      → ((find_id req.workflow_execution_id (contents s) ≡ none)
          × ((s' : Store P) × (add s req ≡ ok s')
              × Inv s'
              × (contents s' ≡ contents s ++ req ∷ [])))
        ⊎ ((find_id req.workflow_execution_id (contents s) ≢ none)
            × (add s req ≡ err (already_exists req.workflow_execution_id)))
  unfolding add get_by_ids
  add_lem s req v = elim (Option-cases (lookup req.workflow_execution_id s.requests)) [
    | inl e ↦
        let s' : Store P = record {
          request_ids = s.request_ids ++ req.workflow_execution_id ∷ [];
          requests = insert req.workflow_execution_id req s.requests;
        } in
        let added : add s req ≡ ok s' = unfold add in rw (e, add) in
        inl (
          sym (get-find s req.workflow_execution_id v) ∙ e,
          (s', added, add-Inv s s' req v added, contents-insert s req v e),
        )
    | inr (r, e) ↦ inr (λ f. cc (get-find s req.workflow_execution_id v), rw (e, add))
  ]

  -- GetByIDs of one ID, Get and the result of evict are the first request with the ID, and evict
  -- leaves the queue without it.
  pub evict_lem :
      (s : Store P) (id : String)
      → Inv s
      → let (s', r, found) = evict s id in
        Inv s'
        × (contents s' ≡ remove_id id (contents s))
        × (r ≡ find_id id (contents s))
        × (get s id ≡ r)
        × ((found ≡ true) ↔ (r ≢ none))
  unfolding evict get get_by_ids
  evict_lem s id v = (
    evict-Inv s id v,
    ground (
      arith,
      found_in-without s.requests s.requests id s.request_ids v.filed (λ j h. refl),
      found_in-without s.requests (delete id s.requests) id s.request_ids v.filed
          (λ j h. ground (arith, lookup-delete id j s.requests, eq_iff id j)),
    ),
    get-find s id v,
    refl,
    ground (arith, v.agree id, without-found id s.request_ids),
  )

  first_n_loop-nil :
      (m : Dict String (Request P)) (n : ℕ) (ids : List String)
      → length ids ≡ 0
      → first_n_loop m n [] ids ≡ []
  unfolding first_n_loop
  first_n_loop-nil m n [] h = refl
  first_n_loop-nil m n (id ∷ ids) h = absurd (omega arith)

  -- FirstN refuses a batch size of 0, and otherwise gives the oldest requests of the queue, as
  -- many as there are up to the batch size.
  pub first_n_lem :
      (s : Store P) (n : ℕ)
      → first_n s n ≡ (if n == 0 then err zero_batch_size else ok (take n (contents s)))
  unfolding first_n get_by_ids
  first_n_lem s n = ground (
    arith,
    first_n_loop-take s.requests n [] s.request_ids,
    first_n_loop-nil s.requests n s.request_ids,
  )
