-- ===== src/Requests/HandlerSafety.antt =====
-- No channel gets a second response, so no send meets a closed channel.
use Prim.Native.String.{String}
use text.Mathlib.TextEquality.{eq_iff}
use chainlink_common.Base.{
  ℕ, suc, ◌≡◌, ◌≢◌, ◌≤◌, ◌⊎◌, inl, inr, refl, sym, subst, ◌∙◌, List, [], ◌∷◌, none, some, Bool,
  true, false, ltb, ◌==◌, if◌then◌else◌, Result, ok, err, Dict, lookup, lookup-insert,
  lookup-delete, string_eq, arith, Option-cases, Bool-cases,
}
use chainlink_common.Requests.Store.{Request, Store, StoreError, add, evict}
use chainlink_common.Requests.StoreInvariant
use chainlink_common.Requests.StoreInvariant.{new_store-Inv, add-Inv, evict-Inv}
use chainlink_common.Requests.Handler.{
  Response, CacheEntry, Handler, stored, send_response, expire_request, expire_each, fresh_entries,
}

-- How often a channel stands in a list.
abbrev pub uses : ℕ → List ℕ → ℕ
uses c [] = 0
uses c (d ∷ ds) = let n = uses c ds in if d == c then suc n else n

-- How many responses were sent on a channel.
abbrev pub sent : {V : Type 0} → ℕ → List (ℕ × Response V) → ℕ
sent c [] = 0
sent c ((d, r) ∷ rest) = let n = sent c rest in if d == c then suc n else n

-- The evicted store keeps what it has under other IDs only.
pub lookup-evict :
    {P : Type 0} (s : Store P) (id j : String)
    → lookup j (evict s id).0.requests ≡ (if string_eq.beq id j then none else lookup j s.requests)
unfolding evict
lookup-evict s id j = ground (arith, lookup-delete id j s.requests, eq_iff id j)

pub stored-Inv :
    {P : Type 0} (s : Store P) (r : Request P)
    → StoreInvariant.Inv s
    → StoreInvariant.Inv (stored (add s r) s)
stored-Inv s r v = go (add s r) refl
  where
    go : (x : Result StoreError (Store _)) → add s r ≡ x → StoreInvariant.Inv (stored x s)
    go (ok s') e = add-Inv s s' r v e
    go (err x) e = v

pub lookup-stored :
    {P : Type 0} (s : Store P) (r : Request P) (j : String) (q : Request P)
    → lookup j (stored (add s r) s).requests ≡ some q
    → (lookup j s.requests ≡ some q) ⊎ ((j ≡ r.workflow_execution_id) × (q ≡ r))
unfolding add
lookup-stored s r j q e =
    ground (
      arith,
      lookup-insert r.workflow_execution_id j r s.requests,
      eq_iff r.workflow_execution_id j,
    )

pub lookup-fresh_entries :
    {V : Type 0} (expiry now : ℕ) (id : String) (m : Dict String (CacheEntry V))
    → lookup id (fresh_entries expiry now m) ≢ none
    → lookup id m ≢ none
unfolding fresh_entries lookup
lookup-fresh_entries expiry now id [] h = h
lookup-fresh_entries expiry now id ((k, v) ∷ m) h =
    ground (arith, lookup-fresh_entries expiry now id m)

module _ {P V : Type 0} where
  -- A request that the worker still knows under an ID.
  pub data Live (h : Handler P V) (id : String) (r : Request P) : Type 0 where
    in_store : lookup id h.store.requests ≡ some r → Live h id r
    in_pending : lookup id h.pending_requests ≡ some r → Live h id r

  pub record Safe (used : List ℕ) (h : Handler P V) : Type 0 where
    pub store_ok : StoreInvariant.Inv h.store
    pub pending_filed :
        (id : String) (r : Request P)
        → lookup id h.pending_requests ≡ some r
        → r.workflow_execution_id ≡ id
    pub one_id :
        (id j : String) (r q : Request P)
        → Live h id r
        → Live h j q
        → r.callback_ch ≡ q.callback_ch
        → id ≡ j
    pub is_open : (id : String) (r : Request P) → Live h id r → sent r.callback_ch h.delivered ≡ 0
    pub live_used : (id : String) (r : Request P) → Live h id r → uses r.callback_ch used ≢ 0
    pub sent_used : (c : ℕ) → sent c h.delivered ≢ 0 → uses c used ≢ 0
    pub once : (c : ℕ) → sent c h.delivered ≤ 1
    pub cache_apart :
        (id : String) → lookup id h.response_cache ≢ none → lookup id h.store.requests ≡ none

  -- A request that is about to be answered.
  pub record InHand (used : List ℕ) (h : Handler P V) (r : Request P) : Type 0 where
    pub safe : Safe used h
    pub unsent : sent r.callback_ch h.delivered ≡ 0
    pub only_here :
        (j : String) (q : Request P)
        → Live h j q
        → q.callback_ch ≡ r.callback_ch
        → j ≡ r.workflow_execution_id
    pub evicted : lookup r.workflow_execution_id h.store.requests ≡ none
    pub known : uses r.callback_ch used ≢ 0

  pub send_response-Safe :
      (used : List ℕ) (b : Bool) (r : Request P) (resp : Response V) (h : Handler P V)
      → InHand used h r
      → Safe used (send_response b r resp h)
  unfolding send_response
  send_response-Safe used false r resp h v = v.safe
  send_response-Safe used true r resp h v = record {
    store_ok = v.safe.store_ok;
    pending_filed = λ id q e. v.safe.pending_filed id q (was_pending id q e);
    one_id = λ id j q p l m. v.safe.one_id id j q p (was_live id q l) (was_live j p m);
    is_open = λ id q l. ground (arith, v.safe.is_open id q (was_live id q l), other id q l);
    live_used = λ id q l. v.safe.live_used id q (was_live id q l);
    sent_used = λ c s. ground (arith, v.known, v.safe.sent_used c);
    once = λ c. ground (arith, v.unsent, v.safe.once c);
    cache_apart = v.safe.cache_apart;
  }
    where
      h' : Handler P V
      h' = send_response true r resp h

      was_pending :
          (id : String) (q : Request P)
          → lookup id h'.pending_requests ≡ some q
          → lookup id h.pending_requests ≡ some q
      was_pending id q e =
          ground (arith, lookup-delete r.workflow_execution_id id h.pending_requests)

      was_live : (id : String) (q : Request P) → Live h' id q → Live h id q
      was_live id q (in_store e) = in_store e
      was_live id q (in_pending e) = in_pending (was_pending id q e)

      not_here : (q : Request P) → Live h' r.workflow_execution_id q → ⊥
      not_here q (in_store e) = cc (v.evicted)
      not_here q (in_pending e) = ground (
        arith,
        lookup-delete r.workflow_execution_id r.workflow_execution_id h.pending_requests,
        eq_iff r.workflow_execution_id r.workflow_execution_id,
      )

      other : (id : String) (q : Request P) → Live h' id q → r.callback_ch ≢ q.callback_ch
      other id q l e =
          not_here q (subst (λ j. Live h' j q) (v.only_here id q (was_live id q l) (sym e)) l)

  -- With its request gone from the store, a live request is at hand.
  pub take_out :
      (used : List ℕ) (h : Handler P V) (id : String) (r : Request P)
      → Safe used h
      → Live h id r
      → r.workflow_execution_id ≡ id
      → InHand used (record h { store = (evict h.store id).0 }) r
  take_out used h id r v l f = record {
    safe = record {
      store_ok = evict-Inv h.store id v.store_ok;
      pending_filed = v.pending_filed;
      one_id = λ i j q p a b. v.one_id i j q p (was_live i q a) (was_live j p b);
      is_open = λ i q a. v.is_open i q (was_live i q a);
      live_used = λ i q a. v.live_used i q (was_live i q a);
      sent_used = v.sent_used;
      once = v.once;
      cache_apart = λ i c. ground (arith, lookup-evict h.store id i, v.cache_apart i c);
    };
    unsent = v.is_open id r l;
    only_here = λ j q a e. v.one_id j id q r (was_live j q a) l e ∙ sym f;
    evicted =
        ground (
          arith,
          lookup-evict h.store id r.workflow_execution_id,
          eq_iff id r.workflow_execution_id,
        );
    known = v.live_used id r l;
  }
    where
      was_live :
          (i : String) (q : Request P)
          → Live (record h { store = (evict h.store id).0 }) i q
          → Live h i q
      was_live i q (in_store e) = in_store (ground (arith, lookup-evict h.store id i))
      was_live i q (in_pending e) = in_pending e

  expire_request-Safe :
      (used : List ℕ) (sends : String → Bool) (now : ℕ) (id : String) (r : Request P)
      (h : Handler P V)
      → Safe used h
      → lookup id h.pending_requests ≡ some r
      → Safe used (expire_request sends now r h)
  unfolding expire_request
  expire_request-Safe used sends now id r h v e = elim (Bool-cases (ltb r.expires_at now)) [
    | inl late ↦
        rw (late, expire_request)
          (send_response-Safe used _ r _ _
            (take_out used h r.workflow_execution_id r v (in_pending filed) refl))
    | inr early ↦ rw (early, expire_request) v
  ]
    where
      filed : lookup r.workflow_execution_id h.pending_requests ≡ some r
      filed = subst (λ i. lookup i h.pending_requests ≡ some r) (sym (v.pending_filed id r e)) e

  pub expire_each-Safe :
      (used : List ℕ) (sends : String → Bool) (now : ℕ) (ks : List String) (h : Handler P V)
      → Safe used h
      → Safe used (expire_each sends now ks h)
  unfolding expire_each
  expire_each-Safe used sends now [] h v = v
  expire_each-Safe used sends now (k ∷ ks) h v = elim (Option-cases (lookup k h.pending_requests)) [
    | inl e ↦ rw (e, expire_each) (expire_each-Safe used sends now ks h v)
    | inr (r, e) ↦
        rw (e, expire_each)
          (expire_each-Safe used sends now ks _ (expire_request-Safe used sends now k r h v e))
  ]

  -- A request on a channel that was not used before enters the maps of `h'` and nothing else does.
  module _ (used : List ℕ) (h h' : Handler P V) (r : Request P) (v : Safe used h)
      (unused : uses r.callback_ch used ≡ 0)
      (arrives : (i : String) (q : Request P)
        → Live h' i q
        → Live h i q ⊎ ((i ≡ r.workflow_execution_id) × (q ≡ r)))
      (same_delivered : h'.delivered ≡ h.delivered) where
    pub unsent_new : sent r.callback_ch h.delivered ≡ 0
    unsent_new = ground (arith, v.sent_used r.callback_ch)

    pub new_channel : (i : String) (q : Request P) → Live h i q → q.callback_ch ≢ r.callback_ch
    new_channel i q l = ground (arith, v.live_used i q l)

    arrives_once :
        (i j : String) (q p : Request P)
        → Live h' i q
        → Live h' j p
        → q.callback_ch ≡ p.callback_ch
        → i ≡ j
    arrives_once i j q p a b e = elim (arrives i q a) [
      | inl old ↦ elim (arrives j p b) [
        | inl old' ↦ v.one_id i j q p old old' e
        | inr (f, g) ↦ absurd (new_channel i q old (ground arith))
      ]
      | inr (f, g) ↦ elim (arrives j p b) [
        | inl old' ↦ absurd (new_channel j p old' (ground arith))
        | inr (f', g') ↦ f ∙ sym f'
      ]
    ]

    arrives_open : (i : String) (q : Request P) → Live h' i q → sent q.callback_ch h'.delivered ≡ 0
    arrives_open i q a = elim (arrives i q a) [
      | inl old ↦ ground (arith, v.is_open i q old)
      | inr (f, g) ↦ ground (arith, unsent_new)
    ]

    arrives_used :
        (i : String) (q : Request P) → Live h' i q → uses q.callback_ch (r.callback_ch ∷ used) ≢ 0
    arrives_used i q a = elim (arrives i q a) [
      | inl old ↦ ground (arith, v.live_used i q old)
      | inr (f, g) ↦ ground arith
    ]

    pub arrives-Safe :
        StoreInvariant.Inv h'.store
        → ((i : String) (q : Request P)
            → lookup i h'.pending_requests ≡ some q
            → q.workflow_execution_id ≡ i)
        → ((i : String) → lookup i h'.response_cache ≢ none → lookup i h'.store.requests ≡ none)
        → Safe (r.callback_ch ∷ used) h'
    arrives-Safe store filed apart = record {
      store_ok = store;
      pending_filed = filed;
      one_id = arrives_once;
      is_open = arrives_open;
      live_used = arrives_used;
      sent_used = λ c s. ground (arith, v.sent_used c);
      once = λ c. ground (arith, v.once c);
      cache_apart = apart;
    }
