-- ===== src/Outbox/Running.antt =====
-- Run of server/internal/outbox/relay.go: a poll on each tick, until the context ends. What `select`
-- chooses is a list.
pub mod Drained
use fproto.Base.{ℕ, List, [], ◌∷◌}
use fproto.Sql.{Outcome}
use fproto.Outbox.Relay
use fproto.Outbox.Relay.{World, Tries, default_batch_size}

-- The end of the context, or a tick: how the calls of its poll end, and the clock.
pub data Signal : Type 0 where
  done : Signal
  tick : Outcome → (ℕ → Tries) → ℕ → Signal

unfoldable pub relay_run : List Signal → World → World
relay_run [] w = w
relay_run (done ∷ signals) w = w
relay_run (tick fetch tries now ∷ signals) w =
    relay_run signals (Relay.poll fetch tries default_batch_size now w)
