-- ===== src/Outbox/Relay.antt =====
-- server/internal/outbox/relay.go. Run calls `poll` on each tick until its context is cancelled.
use fproto.Base.{ℕ, ◌+◌, some, List, [], ◌∷◌, Result, ok, err, leb, if◌then◌else◌}
use fproto.Sql.{Outcome, DbError}
use fproto.Kafka.Topics.{topic_dead_letter}
use fproto.Kafka.Producer.{Log, SendOutcome, SendError, send}
use fproto.Outbox.Store.{Entry, Table, fetch_pending, mark_published, mark_failed, increment_retry}

abbrev pub default_batch_size : ℕ
default_batch_size = 100

abbrev pub max_retries : ℕ
max_retries = 5

-- What the relay acts on: the table and the brokers' log.
pub record World : Type 0 where
  pub table : Table
  pub log : Log

-- How the calls that one entry may cause end.
pub record Tries : Type 0 where
  pub sends : SendOutcome
  pub marks : Outcome
  pub increments : Outcome
  pub dead_sends : SendOutcome
  pub fails : Outcome

pub data PublishError : Type 0 where
  not_sent : SendError → PublishError
  not_marked : DbError → PublishError

-- The effects on the two halves of the world.
abbrev pub on_log : World → Result SendError (Unit {0}) × Log → Result SendError (Unit {0}) × World
on_log w (r, log) = (r, record w { log = log })

abbrev pub on_table : World → Result DbError (Unit {0}) × Table → Result DbError (Unit {0}) × World
on_table w (r, table) = (r, record w { table = table })

-- The second half of publish: MarkPublished, if the record was sent.
unfoldable pub marked :
    Tries → ℕ → Entry → Result SendError (Unit {0}) × World → Result PublishError (Unit {0}) × World
marked tries now e (err x, w) = (err (not_sent x), w)
marked tries now e (ok u, w) = answer (on_table w (mark_published tries.marks now e.id w.table))
  where
    answer : Result DbError (Unit {0}) × World → Result PublishError (Unit {0}) × World
    answer (ok u, w') = (ok u, w')
    answer (err x, w') = (err (not_marked x), w')

unfoldable pub publish : Tries → ℕ → Entry → World → Result PublishError (Unit {0}) × World
unfolding marked send
publish tries now e w =
    marked tries now e (on_log w (send tries.sends e.topic (some e.partition_key) e.payload w.log))

-- MarkFailed, if the record was sent to the dead-letter topic; errors are only logged.
unfoldable pub failed_if_sent : Tries → Entry → Result SendError (Unit {0}) × World → World
failed_if_sent tries e (err x, w) = w
failed_if_sent tries e (ok u, w) = (on_table w (mark_failed tries.fails e.id w.table)).1

unfoldable pub send_to_dead_letter : Tries → Entry → World → World
unfolding failed_if_sent send
send_to_dead_letter tries e w =
    failed_if_sent tries e
      (on_log w (send tries.dead_sends topic_dead_letter (some e.topic) e.payload w.log))

-- What follows a failed publish.
unfoldable pub after_publish : Tries → Entry → Result PublishError (Unit {0}) × World → World
unfolding send_to_dead_letter
after_publish tries e (ok u, w) = w
after_publish tries e (err x, w) =
    let w' = (on_table w (increment_retry tries.increments e.id w.table)).1 in
    if leb max_retries (e.retry_count + 1) then send_to_dead_letter tries e w' else w'

-- The body of the loop of poll.
unfoldable pub relay_entry : Tries → ℕ → Entry → World → World
unfolding publish after_publish
relay_entry tries now e w = after_publish tries e (publish tries now e w)

-- The loop: the calls for an entry end as `tries` says of its id.
unfoldable pub relay_all : (ℕ → Tries) → ℕ → List Entry → World → World
relay_all tries now [] w = w
relay_all tries now (e ∷ es) w = relay_all tries now es (relay_entry (tries e.id) now e w)

unfoldable pub relay_fetched : (ℕ → Tries) → ℕ → Result DbError (List Entry) → World → World
unfolding relay_all
relay_fetched tries now (err x) w = w
relay_fetched tries now (ok es) w = relay_all tries now es w

unfoldable pub poll : Outcome → (ℕ → Tries) → ℕ → ℕ → World → World
unfolding relay_fetched
poll fetch tries batch now w = relay_fetched tries now (fetch_pending fetch batch w.table) w
