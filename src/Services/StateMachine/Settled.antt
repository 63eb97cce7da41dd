-- ===== src/Services/StateMachine/Settled.antt =====
-- Where a call of StartOnce leaves the state machine, under every schedule.
use chainlink_common.Base.{◌≡◌, ◌≢◌, Option, none, some, Bool, true, false}
use chainlink_common.Services.ErrorBuffer.{ErrorBuffer}
use chainlink_common.Services.StateMachine.Methods.{
  ServiceState, unstarted, started, start_failed, stopping, stopped, stop_failed, Error, service,
  already_started, Thread, start_refused, start_calling, start_returned, StateMachine,
}

-- The states that a service which has started may be in.
abbrev pub is_up : ServiceState → Bool
is_up started = true
is_up stopping = true
is_up stopped = true
is_up stop_failed = true
is_up _ = false

module _ {ℓ} {E : Type ℓ} where
  -- What the result of a StartOnce says of the machine from then on.
  abbrev pub Settled : Option (Error E) → StateMachine E → Type 0
  Settled none m = (is_up m.state ≡ true) × (m.err_buffer.cap ≡ 50)
  Settled (some (service e)) m = (m.state ≡ start_failed) × (m.err_buffer.cap ≡ 50)
  Settled (some (already_started s)) m = (m.state ≢ unstarted) × (s ≢ unstarted)
  Settled (some _) m = ⊥

  -- The same of a call on its way.
  abbrev Fits : StateMachine E → Thread E → Type 0
  Fits m start_refused = m.state ≢ unstarted
  Fits m start_calling = m.err_buffer.cap ≡ 50
  Fits m (start_returned e) = Settled e m
  Fits m _ = Unit

  -- What no operation takes back.
  record Keeps (m m' : StateMachine E) : Type 0 where
    begun_stays : m.state ≢ unstarted → m'.state ≢ unstarted
    up_stays : is_up m.state ≡ true → is_up m'.state ≡ true
    failed_stays : m.state ≡ start_failed → m'.state ≡ start_failed
    cap_stays : m.err_buffer.cap ≡ 50 → m'.err_buffer.cap ≡ 50
