-- ===== src/Merkle/Refine.antt =====
-- The array, the positions and the guards of VerifyComputeRoot implement the queue of
-- Merkle/Queue.antt.
use mathlib.Core.List.{append-nil, append_assoc}
use native.Mathlib.Decide.{dec_lt}
use chainlink_common.Base.{
  ℕ, zero, suc, ◌+◌, ◌-◌, ◌≡◌, ◌≤◌, ◌<◌, ◌⊎◌, inl, inr, ap, sym, refl, List, [], ◌∷◌, ◌++◌, some,
  Bool, true, false, length, arith, length-append, get_elem?, set, drop, drop-append, length-drop,
  ok, ◌>>=◌,
}
use chainlink_common.Merkle.Tree.{Hasher, Proof}
use chainlink_common.Merkle.Verify.{
  repeat, Cursor, take_next, take_proof, round, rounds, initial, finish,
}
use chainlink_common.Merkle.Queue.{process}
use chainlink_common.Merkle.Arrays.{drop-cons, drop-lt, drop_all, get_elem?-append, set-append}

module _ {H : Type 0} (hasher : Hasher H) (nil_hash : H) (leaf_hashes : List H)
    (proof : Proof H) where
  open hasher use {hash_internal}

  -- A cursor before round `i`, as the queue `q` and the unused hashes `ps` of the proof.
  pub record Represents (i : ℕ) (c : Cursor H) (q ps : List H) (left : ℕ) : Type 0 where
    pub done : List H
    pub room : List H
    pub split : c.hashes ≡ done ++ room
    pub rounds_done : length done ≡ i
    pub rounds_left : left ≤ length room
    pub queue : q ≡ drop c.leaf_pos leaf_hashes ++ drop c.hash_pos done
    pub unused : ps ≡ drop c.proof_pos proof.hashes
    pub leaves_first : (c.hash_pos ≡ 0) ⊎ (c.leaf_pos ≡ length leaf_hashes)
    pub leaf_bound : c.leaf_pos ≤ length leaf_hashes
    pub hash_bound : c.hash_pos ≤ length done
    pub proof_bound : c.proof_pos ≤ length proof.hashes

  take_next-Represents :
      (i left : ℕ) (c : Cursor H) (a : H) (q ps : List H)
      → Represents i c (a ∷ q) ps left
      → (c' : Cursor H) × (take_next hasher nil_hash leaf_hashes proof c ≡ ok (a, c'))
        × Represents i c' q ps left
  unfolding take_next
  take_next-Represents i left c a q ps v = elim (dec_lt c.leaf_pos (length leaf_hashes)) [
    | yes more ↦
        let (h, e, f) = drop-lt c.leaf_pos leaf_hashes more in
        let front : a ∷ q ≡ h ∷ (drop (c.leaf_pos + 1) leaf_hashes ++ drop c.hash_pos v.done) =
          rw e at v.queue in
        (
          record c { leaf_pos = c.leaf_pos + 1 },
          ground arith,
          record {
            done = v.done;
            room = v.room;
            split = v.split;
            rounds_done = v.rounds_done;
            rounds_left = v.rounds_left;
            queue = cc;
            unused = v.unused;
            leaves_first = ground arith;
            leaf_bound = omega arith;
            hash_bound = v.hash_bound;
            proof_bound = v.proof_bound;
          },
        )
    | no over ↦
        let z : drop c.leaf_pos leaf_hashes ≡ [] = drop_all c.leaf_pos leaf_hashes (omega arith) in
        let (e, f, b) = drop-cons c.hash_pos v.done (sym (rw z at v.queue)) in
        let g : get_elem? c.hashes c.hash_pos ≡ some a =
          rw v.split (get_elem?-append v.done v.room c.hash_pos e) in
        (
          record c { hash_pos = c.hash_pos + 1 },
          ground arith,
          record {
            done = v.done;
            room = v.room;
            split = v.split;
            rounds_done = v.rounds_done;
            rounds_left = v.rounds_left;
            queue = rw z (sym f);
            unused = v.unused;
            leaves_first = inr (omega arith);
            leaf_bound = v.leaf_bound;
            hash_bound = omega arith;
            proof_bound = v.proof_bound;
          },
        )
  ]

  take_proof-Represents :
      (i left : ℕ) (c : Cursor H) (p : H) (q ps : List H)
      → Represents i c q (p ∷ ps) left
      → (c' : Cursor H) × (take_proof hasher nil_hash leaf_hashes proof c ≡ ok (p, c'))
        × Represents i c' q ps left
  unfolding take_proof
  take_proof-Represents i left c p q ps v =
      let (e, f, b) = drop-cons c.proof_pos proof.hashes (sym v.unused) in
      (
        record c { proof_pos = c.proof_pos + 1 },
        ground arith,
        record {
          done = v.done;
          room = v.room;
          split = v.split;
          rounds_done = v.rounds_done;
          rounds_left = v.rounds_left;
          queue = v.queue;
          unused = sym f;
          leaves_first = v.leaves_first;
          leaf_bound = v.leaf_bound;
          hash_bound = v.hash_bound;
          proof_bound = omega arith;
        },
      )

  store-Represents :
      (i left : ℕ) (c : Cursor H) (h : H) (q ps : List H)
      → Represents i c q ps (suc left)
      → Represents (i + 1) (record c { hashes = set c.hashes i h }) (q ++ h ∷ []) ps left
  store-Represents i left c h q ps v = go v.room refl
    where
      go :
          (room : List H)
          → v.room ≡ room
          → Represents (i + 1) (record c { hashes = set c.hashes i h }) (q ++ h ∷ []) ps left
      go [] e = absurd (omega (arith, v.rounds_left, ap length e))
      go (x ∷ room) e = record {
        done = v.done ++ h ∷ [];
        room = room;
        split = rw (v.split, e, ← v.rounds_done) (set-append v.done room x h);
        rounds_done = omega (arith, v.rounds_done, length-append v.done (h ∷ []));
        rounds_left = omega (arith, v.rounds_left, ap length e);
        queue = rw (v.queue, drop-append c.hash_pos v.done (h ∷ []) v.hash_bound) (rw append_assoc);
        unused = v.unused;
        leaves_first = v.leaves_first;
        leaf_bound = v.leaf_bound;
        hash_bound = omega (arith, v.hash_bound, length-append v.done (h ∷ []));
        proof_bound = v.proof_bound;
      }

  round-true :
      (i left : ℕ) (c : Cursor H) (a b : H) (q ps : List H)
      → Represents i c (a ∷ b ∷ q) ps (suc left)
      → (c' : Cursor H) × (round hasher nil_hash leaf_hashes proof i true c ≡ ok c')
        × Represents (i + 1) c' (q ++ hash_internal a b ∷ []) ps left
  unfolding round
  round-true i left c a b q ps v =
      let (c₁, e₁, v₁) = take_next-Represents i (suc left) c a (b ∷ q) ps v in
      let (c₂, e₂, v₂) = take_next-Represents i (suc left) c₁ b q ps v₁ in
      (
        record c₂ { hashes = set c₂.hashes i (hash_internal a b) },
        rw (e₁, ◌>>=◌) (rw (e₂, ◌>>=◌)),
        store-Represents i left c₂ (hash_internal a b) q ps v₂,
      )

  round-false :
      (i left : ℕ) (c : Cursor H) (p b : H) (q ps : List H)
      → Represents i c (b ∷ q) (p ∷ ps) (suc left)
      → (c' : Cursor H) × (round hasher nil_hash leaf_hashes proof i false c ≡ ok c')
        × Represents (i + 1) c' (q ++ hash_internal p b ∷ []) ps left
  unfolding round
  round-false i left c p b q ps v =
      let (c₁, e₁, v₁) = take_proof-Represents i (suc left) c p (b ∷ q) ps v in
      let (c₂, e₂, v₂) = take_next-Represents i (suc left) c₁ b q ps v₁ in
      (
        record c₂ { hashes = set c₂.hashes i (hash_internal p b) },
        rw (e₁, ◌>>=◌) (rw (e₂, ◌>>=◌)),
        store-Represents i left c₂ (hash_internal p b) q ps v₂,
      )

  -- The rounds over the flags `fs`, from `i` to `n`, do what `process` does.
  pub rounds-Represents :
      (fs : List Bool) (i n : ℕ) (c : Cursor H) (q ps q' ps' : List H)
      → n ≡ i + length fs
      → Represents i c q ps (length fs)
      → process hasher fs q ps ≡ some (q', ps')
      → (c' : Cursor H) × (rounds hasher nil_hash leaf_hashes proof i fs c ≡ ok c')
        × Represents n c' q' ps' 0
  unfolding rounds process
  rounds-Represents [] i n c q ps q' ps' m v e = (
    c,
    refl,
    record {
      done = v.done;
      room = v.room;
      split = v.split;
      rounds_done = omega (arith, v.rounds_done);
      rounds_left = v.rounds_left;
      queue = cc (v.queue);
      unused = cc (v.unused);
      leaves_first = v.leaves_first;
      leaf_bound = v.leaf_bound;
      hash_bound = v.hash_bound;
      proof_bound = v.proof_bound;
    },
  )
  rounds-Represents (true ∷ fs) i n c [] ps q' ps' m v e = cc
  rounds-Represents (true ∷ fs) i n c (a ∷ []) ps q' ps' m v e = cc
  rounds-Represents (true ∷ fs) i n c (a ∷ b ∷ q) ps q' ps' m v e =
      let (c₁, e₁, v₁) = round-true i (length fs) c a b q ps v in
      let (c₂, e₂, v₂) = rounds-Represents fs (i + 1) n c₁ _ ps q' ps' (omega arith) v₁ e in
      (c₂, rw (e₁, ◌>>=◌) e₂, v₂)
  rounds-Represents (false ∷ fs) i n c [] ps q' ps' m v e = cc
  rounds-Represents (false ∷ fs) i n c (b ∷ q) [] q' ps' m v e = cc
  rounds-Represents (false ∷ fs) i n c (b ∷ q) (p ∷ ps) q' ps' m v e =
      let (c₁, e₁, v₁) = round-false i (length fs) c p b q ps v in
      let (c₂, e₂, v₂) = rounds-Represents fs (i + 1) n c₁ _ ps q' ps' (omega arith) v₁ e in
      (c₂, rw (e₁, ◌>>=◌) e₂, v₂)

  length-repeat : (n : ℕ) (h : H) → length (repeat n h) ≡ n
  unfolding repeat
  length-repeat zero h = refl
  length-repeat (suc n) h = ap suc (length-repeat n h)

  pub initial-Represents :
      (total : ℕ) (leaf : H)
      → Represents 0
          (initial hasher nil_hash leaf_hashes proof total leaf)
          leaf_hashes
          proof.hashes
          total
  unfolding initial
  initial-Represents total leaf = record {
    done = [];
    room = repeat total nil_hash ++ repeat total leaf;
    split = refl;
    rounds_done = refl;
    rounds_left = omega (
      arith,
      length-append (repeat total nil_hash) (repeat total leaf),
      length-repeat total nil_hash,
    );
    queue = rw append-nil;
    unused = refl;
    leaves_first = inl refl;
    leaf_bound = omega arith;
    hash_bound = omega arith;
    proof_bound = omega arith;
  }

  module _ (n : ℕ) (c : Cursor H) (r : H) (pos : 0 < n) (v : Represents n c (r ∷ []) [] 0) where
    end_lengths :
        (1 ≡ (length leaf_hashes - c.leaf_pos) + (n - c.hash_pos))
        × (length proof.hashes ≡ c.proof_pos)
    end_lengths = (
      omega (
        arith,
        ap length v.queue,
        length-append (drop c.leaf_pos leaf_hashes) (drop c.hash_pos v.done),
        length-drop c.leaf_pos leaf_hashes,
        length-drop c.hash_pos v.done,
        v.rounds_done,
      ),
      omega (arith, ap length v.unused, length-drop c.proof_pos proof.hashes, v.proof_bound),
    )

    end_positions : (c.leaf_pos ≡ length leaf_hashes) × (c.hash_pos ≡ n - 1)
    end_positions =
        ground (arith, end_lengths, v.leaves_first, v.leaf_bound, v.hash_bound, v.rounds_done)

    end_result : get_elem? c.hashes (n - 1) ≡ some r
    end_result =
        let z : drop c.leaf_pos leaf_hashes ≡ [] =
          drop_all c.leaf_pos leaf_hashes (omega (arith, end_positions)) in
        let (e, f, b) = drop-cons c.hash_pos v.done (sym (rw z at v.queue)) in
        rw (v.split, ← end_positions.1) (get_elem?-append v.done v.room c.hash_pos e)

    pub finish_represented : finish hasher nil_hash leaf_hashes proof n c ≡ ok r
    unfolding finish
    finish_represented = ground (arith, end_lengths, end_positions, end_result)
