-- ===== src/Sync/Service.antt =====
-- server/internal/sync/service.go: the topics, the claims and the loop. The clients that New makes are
-- parameters of the handler.
use fproto.Base.{
  ℕ, suc, ◌≡◌, refl, Bool, true, false, ◌||◌, Option, none, some, List, [], ◌∷◌, Bytes, codes,
  bytes_equal, take, filter, if◌then◌else◌, length,
}
use fproto.Sql.{Outcome}
use fproto.Kafka.Consumer.{Consumed, ConsumerConfig, oldest, consume_claim}
use fproto.Kafka.Topics.{user_topic, group_topic}
use fproto.Sync.Handler
use fproto.Sync.Handler.{ConsumerMessage, World, HandleError}

-- The configuration that New makes of sarama's, which is a parameter.
abbrev pub consumer_config : ConsumerConfig → ConsumerConfig
consumer_config new_config = record new_config { initial = oldest; auto_commit = false }

-- strings.HasPrefix.
abbrev pub has_prefix : Bytes → Bytes → Bool
has_prefix name prefix = bytes_equal (take (length prefix) name) prefix

abbrev pub wanted : Bytes → Bool
wanted name = has_prefix name (codes "user-") || has_prefix name (codes "group-")

-- DiscoverTopics, of what ListTopics returns, in the order in which the map is visited: whether it
-- fails, and the topics of the service.
unfoldable pub discover_topics : Option (List Bytes) → List Bytes → Bool × List Bytes
discover_topics none topics = (true, topics)
discover_topics (some names) topics = (false, filter wanted names)

-- ConsumeClaim: each message with its offset and how its insert ends. The offsets that are marked.
unfoldable sync_claim :
    (env : Handler.Env)
    → List (ℕ × (Outcome × ConsumerMessage))
    → World env.redis.Db
    → World env.redis.Db × List ℕ
sync_claim env ms w = consume_claim (λ m. Handler.handle env m.0 m.1) ms w

-- How often the loop calls Consume.
unfoldable pub consumes : List Consumed → ℕ
consumes [] = 0
consumes (c ∷ cs) = let rest = consumes cs in if c.cancelled then 1 else suc rest

-- Run: without topics it returns, after five seconds, and otherwise consumes until the context ends.
unfoldable pub run_service : List Bytes → List Consumed → ℕ
run_service [] cs = 0
run_service (t ∷ ts) cs = consumes cs

-- The topics of users and of groups are among those that the service looks for.
pub wanted-topic : (id : Bytes) → (wanted (user_topic id) ≡ true) × (wanted (group_topic id) ≡ true)
unfolding user_topic group_topic bytes_equal
wanted-topic id = (refl, refl)
