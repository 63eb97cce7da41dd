-- ===== src/Mailbox/Fifo.antt =====
-- A mailbox is a bounded first-in first-out queue that drops its oldest message when it is full.
use mathlib.Core.List.{reverse, reverse-cons, reverse-append}
use chainlink_common.Base.{
  ℕ, zero, suc, ◌-◌, ◌≡◌, ◌≤◌, ◌<◌, inl, inr, refl, sym, ap, ◌∙◌, List, [], ◌∷◌, ◌++◌, Option, none,
  some, Bool, true, false, ◌&&◌, length, length-append, get_elem?, drop, take, take-length, ltb,
  leb, ◌==◌, if◌then◌else◌, arith,
}
use chainlink_common.Mailbox.Queue.{
  Mailbox, new, deliver, retrieve, retrieve_all, retrieve_latest_and_clear,
}
use chainlink_common.Mailbox.Reverse.{swap_ends-reverse, snoc-cases, get_elem?-at}

-- A call of a method, and what it returns.
pub data Call (T : Type 0) : Type 0 where
  call_deliver : T → Call T
  call_retrieve : Call T
  call_retrieve_all : Call T
  call_retrieve_latest_and_clear : Call T

pub data Reply (T : Type 0) : Type 0 where
  was_over_capacity : Bool → Reply T
  message : Option T → Reply T
  messages : List T → Reply T

module _ {T : Type 0} where
  abbrev pub call : Call T → Mailbox T → Mailbox T × Reply T
  call (call_deliver x) m = let (m', over) = deliver x m in (m', was_over_capacity over)
  call call_retrieve m = let (m', t) = retrieve m in (m', message t)
  call call_retrieve_all m = let (m', ts) = retrieve_all m in (m', messages ts)
  call call_retrieve_latest_and_clear m =
      let (m', t) = retrieve_latest_and_clear m in (m', message t)

  abbrev pub calls : List (Call T) → Mailbox T → Mailbox T × List (Reply T)
  calls [] m = (m, [])
  calls (c ∷ cs) m = let (m', r) = call c m in let (m'', rs) = calls cs m' in (m'', r ∷ rs)

  -- The specification, on the messages oldest first.
  abbrev newest : List T → Option T
  newest [] = none
  newest (x ∷ xs) = elim (newest xs) [ none ↦ some x | some y ↦ some y ]

  abbrev pub fifo : ℕ → Call T → List T → List T × Reply T
  fifo capacity (call_deliver x) pending =
      let over = ltb 0 capacity && leb capacity (length pending) in
      (drop (if over then 1 else 0) (pending ++ x ∷ []), was_over_capacity over)
  fifo capacity call_retrieve [] = ([], message none)
  fifo capacity call_retrieve (x ∷ pending) = (pending, message (some x))
  fifo capacity call_retrieve_all pending = ([], messages pending)
  fifo capacity call_retrieve_latest_and_clear pending = ([], message (newest pending))

  abbrev pub fifos : ℕ → List (Call T) → List T → List T × List (Reply T)
  fifos capacity [] pending = (pending, [])
  fifos capacity (c ∷ cs) pending =
      let (pending', r) = fifo capacity c pending in
      let (pending'', rs) = fifos capacity cs pending' in (pending'', r ∷ rs)

  -- The mailbox stands for these messages: its length is right and within the capacity.
  pub record Holds (capacity : ℕ) (pending : List T) (m : Mailbox T) : Type 0 where
    pub newest_first : pending ≡ reverse m.queue
    pub counted : m.queue_len ≡ length m.queue
    pub same_capacity : m.capacity ≡ capacity
    pub bounded : 0 < capacity → length m.queue ≤ capacity

  newest-snoc : (xs : List T) (x : T) → newest (xs ++ x ∷ []) ≡ some x
  newest-snoc [] x = refl
  newest-snoc (y ∷ xs) x = ground (arith, newest-snoc xs x)

  length-reverse : (xs : List T) → length (reverse xs) ≡ length xs
  length-reverse [] = refl
  length-reverse (x ∷ xs) =
      ground (arith, reverse-cons x xs, length-append (reverse xs) (x ∷ []), length-reverse xs)

  length-take : (n : ℕ) (xs : List T) → n ≤ length xs → length (take n xs) ≡ n
  length-take zero xs h = refl
  length-take (suc n) [] h = absurd (omega arith)
  length-take (suc n) (x ∷ xs) h = omega (arith, length-take n xs)

  -- The end of the queue is the front of the messages.
  take-last :
      (queue : List T)
      → (reverse (take (length queue - 1) queue) ≡ drop 1 (reverse queue))
        × (get_elem? queue (length queue - 1) ≡ get_elem? (reverse queue) 0)
  take-last queue = elim (snoc-cases queue) [
    | inl n ↦ ground arith
    | inr (ys, y, e) ↦ ground (
      arith,
      length-append ys (y ∷ []),
      take-length ys (y ∷ []),
      reverse-append ys (y ∷ []),
      get_elem?-at ys [] y (length ys) refl,
    )
  ]

  deliver-Holds :
      (capacity : ℕ) (x : T) (pending : List T) (m : Mailbox T)
      → Holds capacity pending m
      → ((call (call_deliver x) m).1 ≡ (fifo capacity (call_deliver x) pending).1)
        × Holds capacity (fifo capacity (call_deliver x) pending).0 (call (call_deliver x) m).0
  unfolding deliver
  deliver-Holds capacity x pending m v = (
    ground (arith, length-reverse m.queue),
    record {
      newest_first =
          ground (arith, length-reverse m.queue, reverse-cons x m.queue, take-last (x ∷ m.queue));
      counted = ground (arith, length-take (length m.queue) (x ∷ m.queue));
      same_capacity = ground arith;
      bounded = λ h. ground (arith, length-take (length m.queue) (x ∷ m.queue));
    },
  )

  retrieve-Holds :
      (capacity : ℕ) (pending : List T) (m : Mailbox T)
      → Holds capacity pending m
      → ((call call_retrieve m).1 ≡ (fifo capacity call_retrieve pending).1)
        × Holds capacity (fifo capacity call_retrieve pending).0 (call call_retrieve m).0
  unfolding retrieve
  retrieve-Holds capacity [] m v =
      let empty : (length m.queue == 0) ≡ true = ground (arith, length-reverse m.queue) in
      rw (empty, retrieve) (refl, v)
  retrieve-Holds capacity (x ∷ pending) m v = (
    ground (arith, length-reverse m.queue, take-last m.queue),
    record {
      newest_first = ground (arith, length-reverse m.queue, take-last m.queue);
      counted = ground (arith, length-reverse m.queue, length-take (length m.queue - 1) m.queue);
      same_capacity = ground arith;
      bounded =
          λ h. ground (arith, length-reverse m.queue, length-take (length m.queue - 1) m.queue);
    },
  )

  clear-Holds :
      (capacity : ℕ) (m : Mailbox T) (pending : List T)
      → Holds capacity pending m
      → Holds capacity [] (record m { queue = []; queue_len = 0 })
  clear-Holds capacity m pending v = record {
    newest_first = refl;
    counted = refl;
    same_capacity = v.same_capacity;
    bounded = λ h. omega arith;
  }

  latest-Holds :
      (capacity : ℕ) (pending : List T) (m : Mailbox T)
      → Holds capacity pending m
      → ((call call_retrieve_latest_and_clear m).1 ≡ message (newest pending))
        × Holds capacity [] (call call_retrieve_latest_and_clear m).0
  unfolding retrieve_latest_and_clear
  latest-Holds capacity pending m v = go m.queue refl
    where
      go :
          (q : List T)
          → m.queue ≡ q
          → ((call call_retrieve_latest_and_clear m).1 ≡ message (newest pending))
            × Holds capacity [] (call call_retrieve_latest_and_clear m).0
      go [] e = (
        ground arith,
        record {
          newest_first = ground arith;
          counted = ground arith;
          same_capacity = ground arith;
          bounded = λ h. ground arith;
        },
      )
      go (x ∷ q) e =
          let filled : (length m.queue == 0) ≡ false = ground arith in
          (
            ground (arith, reverse-cons x q, newest-snoc (reverse q) x),
            rw (filled, retrieve_latest_and_clear) (clear-Holds capacity m pending v),
          )

  call-Holds :
      (capacity : ℕ) (c : Call T) (pending : List T) (m : Mailbox T)
      → Holds capacity pending m
      → ((call c m).1 ≡ (fifo capacity c pending).1)
        × Holds capacity (fifo capacity c pending).0 (call c m).0
  unfolding retrieve_all
  call-Holds capacity (call_deliver x) pending m v = deliver-Holds capacity x pending m v
  call-Holds capacity call_retrieve pending m v = retrieve-Holds capacity pending m v
  call-Holds capacity call_retrieve_all pending m v = (
    ap messages (swap_ends-reverse m.queue ∙ sym v.newest_first),
    clear-Holds capacity m pending v,
  )
  call-Holds capacity call_retrieve_latest_and_clear pending m v = latest-Holds capacity pending m v

  -- From a mailbox that holds some messages, every sequence of calls returns what the queue of the
  -- specification returns, and the mailbox again holds what is left there.
  pub calls-refine :
      (capacity : ℕ) (cs : List (Call T)) (pending : List T) (m : Mailbox T)
      → Holds capacity pending m
      → ((calls cs m).1 ≡ (fifos capacity cs pending).1)
        × Holds capacity (fifos capacity cs pending).0 (calls cs m).0
  calls-refine capacity [] pending m v = (refl, v)
  calls-refine capacity (c ∷ cs) pending m v =
      let (same, v') = call-Holds capacity c pending m v in
      let (rest, w) = calls-refine capacity cs (fifo capacity c pending).0 (call c m).0 v' in
      (cc (same, rest), w)

  pub new-Holds : (capacity : ℕ) → Holds capacity [] (new capacity)
  unfolding new
  new-Holds capacity = record {
    newest_first = refl;
    counted = refl;
    same_capacity = refl;
    bounded = λ h. omega arith;
  }
