-- ===== src/Groups/Service.antt =====
-- server/internal/commands/service.go: the claims and the loop. Each record comes with its offset, and
-- with how the statements that it leads to end.
use fproto.Base.{ℕ, suc, Option, List, [], ◌∷◌, Bytes, Result, if◌then◌else◌}
use fproto.Kafka.Consumer.{
  Consumed, OffsetManager, default_consumer_config, consume_claim, sessions,
}
use fproto.Groups.Store.{Db}
use fproto.Groups.Commands.{Env, CommandError, handle}

abbrev pub Record : Type 0
Record = ℕ × (Env × Option Bytes)

abbrev pub handler : Env × Option Bytes → Db → Result CommandError (Unit {0}) × Db
handler (env, value) db = handle env value db

-- ConsumeClaim: the offsets that are marked, with the tables.
unfoldable pub command_claim : List Record → Db → Db × List ℕ
command_claim records db = consume_claim handler records db

-- Run: how often it calls Consume, which it does until the context ends.
unfoldable pub consumes : List Consumed → ℕ
consumes [] = 0
consumes (c ∷ cs) = let rest = consumes cs in if c.cancelled then 1 else suc rest

-- The service under the configuration that NewService takes: the tables after some sessions, each with
-- the records that it gets to of the partition.
unfoldable pub after_sessions : OffsetManager → List (List Record) → Db → Db
after_sessions om logs db =
    (sessions handler om default_consumer_config.auto_commit logs (Option.none, db)).1
