-- ===== src/Mailbox/Queue.antt =====
-- pkg/utils/mailbox/mailbox.go: the mailbox and its methods. `notified` says whether the channel of
-- capacity 1 holds a notification.
use chainlink_common.Base.{
  ℕ, zero, suc, ◌+◌, ◌-◌, List, [], ◌∷◌, Option, none, some, Bool, true, false, ◌&&◌, length,
  get_elem?, set, take, ltb, ◌==◌, if◌then◌else◌,
}

pub record Mailbox {ℓ} (T : Type ℓ) : Type ℓ where
  pub queue : List T
  pub queue_len : ℕ
  pub capacity : ℕ
  pub notified : Bool

-- `queue[i], queue[j] = queue[j], queue[i]`.
unfoldable pub swap {ℓ} : {T : Type ℓ} → List T → ℕ → ℕ → List T
swap queue i j = elim (get_elem? queue i) [
  | none ↦ queue
  | some a ↦ elim (get_elem? queue j) [ none ↦ queue | some b ↦ set (set queue i b) j a ]
]

-- The loop of RetrieveAll; the fuel is the length of the queue, and `j` is one more than there.
unfoldable pub swap_ends {ℓ} : {T : Type ℓ} → ℕ → ℕ → ℕ → List T → List T
swap_ends zero i j queue = queue
swap_ends (suc fuel) i j queue = elim (ltb (i + 1) j) [
  | true ↦ swap_ends fuel (i + 1) (j - 1) (swap queue i (j - 1))
  | false ↦ queue
]

module _ {ℓ} {T : Type ℓ} where
  unfoldable pub new : ℕ → Mailbox T
  new capacity = record { queue = []; queue_len = 0; capacity = capacity; notified = false }

  unfoldable pub deliver : T → Mailbox T → Mailbox T × Bool
  deliver x m =
      let queue = x ∷ m.queue in
      if ltb m.capacity (length queue) && ltb 0 m.capacity
      then (record m { queue = take (length queue - 1) queue; notified = true }, true)
      else (record m { queue = queue; queue_len = m.queue_len + 1; notified = true }, false)

  unfoldable pub retrieve : Mailbox T → Mailbox T × Option T
  retrieve m = if length m.queue == 0 then (m, none) else (
    record m { queue = take (length m.queue - 1) m.queue; queue_len = m.queue_len - 1 },
    get_elem? m.queue (length m.queue - 1),
  )

  unfoldable pub retrieve_all : Mailbox T → Mailbox T × List T
  retrieve_all m = (
    record m { queue = []; queue_len = 0 },
    swap_ends (length m.queue) 0 (length m.queue) m.queue,
  )

  unfoldable pub retrieve_latest_and_clear : Mailbox T → Mailbox T × Option T
  retrieve_latest_and_clear m =
      if length m.queue == 0
      then (m, none)
      else (record m { queue = []; queue_len = 0 }, get_elem? m.queue 0)

  -- A receive from the channel of Notify that does not block.
  unfoldable pub take_notification : Mailbox T → Mailbox T × Bool
  take_notification m = (record m { notified = false }, m.notified)
