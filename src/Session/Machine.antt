-- ===== src/Session/Machine.antt =====
-- proto-core/session/machine.go, and the Status type of model.go.
use fproto.Base.{ℕ, Bool, true, false, Option, none, some, [], Bytes, Result, ok, err, ◌>>=◌}

-- The status is a Go string: the four constants, and any other text that a store may hold.
pub data Status : Type 0 where
  connecting active sleeping expired : Status
  unlisted_status : Bytes → Status

-- The event is a Go int: the six constants, and any other value.
pub data Event : Type 0 where
  handshake_ok handshake_fail packet_received idle_timeout expiry_timeout explicit_logout : Event
  unlisted_event : ℕ → Event

-- ErrInvalidTransition with the two texts that wrap it.
pub data InvalidTransition : Type 0 where
  no_transitions : Status → InvalidTransition
  not_valid_in : Event → Status → InvalidTransition

pub record TransitionResult : Type 0 where
  pub next : Status
  pub destroyed : Bool

-- {next: s}
abbrev pub to : Status → TransitionResult
to s = record { next = s; destroyed = false }

-- {destroyed: true}: the next status is the zero value, the empty string.
abbrev pub destroy : TransitionResult
destroy = record { next = unlisted_status []; destroyed = true }

-- The inner maps of the table.
unfoldable pub connecting_events : Event → Option TransitionResult
connecting_events handshake_ok = some (to active)
connecting_events handshake_fail = some destroy
connecting_events _ = none

unfoldable pub active_events : Event → Option TransitionResult
active_events packet_received = some (to active)
active_events idle_timeout = some (to sleeping)
active_events explicit_logout = some (to expired)
active_events _ = none

unfoldable pub sleeping_events : Event → Option TransitionResult
sleeping_events packet_received = some (to active)
sleeping_events expiry_timeout = some (to expired)
sleeping_events _ = none

-- The outer map.
unfoldable pub transitions : Status → Option (Event → Option TransitionResult)
unfolding connecting_events active_events sleeping_events
transitions connecting = some connecting_events
transitions active = some active_events
transitions sleeping = some sleeping_events
transitions _ = none

abbrev or_error {ℓ} : {A : Type ℓ} → Option A → InvalidTransition → Result InvalidTransition A
or_error (some a) e = ok a
or_error none e = err e

unfoldable pub transition : Status → Event → Result InvalidTransition TransitionResult
unfolding transitions
transition current event = do
  events ← or_error (transitions current) (no_transitions current)
  or_error (events event) (not_valid_in event current)
