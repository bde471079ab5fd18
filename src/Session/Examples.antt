-- ===== src/Session/Examples.antt =====
-- Sessions through a few histories.
use fproto.Base.{◌≡◌, refl, ◌↔◌, true, List, [], ◌∷◌}
use fproto.Session.Machine.{
  Event, connecting, expired, sleeping, transition, handshake_ok, handshake_fail, packet_received,
  idle_timeout, expiry_timeout, explicit_logout, transitions, connecting_events, active_events,
  sleeping_events,
}
use fproto.Session.Histories.{alive, gone, run, step, fails_first, destroyed_iff_fails_first}

abbrev asleep_then_expired : List Event
asleep_then_expired = handshake_ok ∷ packet_received ∷ idle_timeout ∷ expiry_timeout ∷ []

logout_asleep : run (alive sleeping) (explicit_logout ∷ []) ≡ alive sleeping
unfolding run step transition transitions sleeping_events
logout_asleep = refl

destroyed_iff_fails_first_example :
    (run (alive connecting) (packet_received ∷ handshake_fail ∷ []) ≡ gone)
    ↔ (fails_first (packet_received ∷ handshake_fail ∷ []) ≡ true)
destroyed_iff_fails_first_example =
    destroyed_iff_fails_first (packet_received ∷ handshake_fail ∷ [])

asleep_then_expired_lem : run (alive connecting) asleep_then_expired ≡ alive expired
unfolding run step transition transitions connecting_events active_events sleeping_events
asleep_then_expired_lem = refl
