-- ===== src/Kafka/Topics.antt =====
-- server/internal/kafka/topics.go. The cluster's admin API is a parameter: the topics that it lists,
-- and the outcome of each CreateTopic.
use fproto.Base.{
  ℕ, ◌≡◌, sym, ap, ◌∙◌, Bool, List, [], ◌∷◌, ◌++◌, Bytes, codes, IsBytes, Result, ok, err,
  if◌then◌else◌, bytes_equal, encode_to_string, decode_string, decode_string-encode_to_string, drop,
  any,
}
use mathlib.Core.Option.{some-injective}

abbrev pub topic_commands : Bytes
topic_commands = codes "commands"

abbrev pub topic_events : Bytes
topic_events = codes "events"

abbrev pub topic_media_events : Bytes
topic_media_events = codes "media-events"

abbrev pub topic_dead_letter : Bytes
topic_dead_letter = codes "dead-letter"

unfoldable pub user_topic : Bytes → Bytes
user_topic user_id = codes "user-" ++ encode_to_string user_id

unfoldable pub group_topic : Bytes → Bytes
group_topic group_id = codes "group-" ++ encode_to_string group_id

pub record TopicSpec : Type 0 where
  pub name : Bytes
  pub partitions : ℕ
  pub replicas : ℕ
  pub retention : Bytes

unfoldable pub static_topics : ℕ → List TopicSpec
static_topics replicas =
    record {
      name = topic_commands;
      partitions = 32;
      replicas = replicas;
      retention = codes "604800000";
    }
    ∷ record {
      name = topic_events;
      partitions = 64;
      replicas = replicas;
      retention = codes "7776000000";
    }
    ∷ record {
      name = topic_media_events;
      partitions = 32;
      replicas = replicas;
      retention = codes "2592000000";
    }
    ∷ record {
      name = topic_dead_letter;
      partitions = 8;
      replicas = replicas;
      retention = codes "7776000000";
    }
    ∷ []

pub data TopicError : Type 0 where
  list_topics_failed : TopicError
  create_topic_failed : Bytes → TopicError
  create_failed : TopicError

-- The admin API: whether listing succeeds, whether creating a topic does, by its name.
pub record Admin : Type 0 where
  pub lists : Bool
  pub creates : Bytes → Bool

-- The cluster's topics, with the detail that they were created by.
abbrev pub Cluster : Type 0
Cluster = List TopicSpec

unfoldable pub has_topic : Bytes → Cluster → Bool
has_topic name c = any (λ t. bytes_equal t.name name) c

-- The loop of EnsureTopics over the specs. `existing` was listed before it, and is not updated.
unfoldable pub create_missing :
    Admin → Cluster → List TopicSpec → Cluster → Result TopicError (Unit {0}) × Cluster
create_missing admin existing [] c = (ok tt, c)
create_missing admin existing (spec ∷ specs) c =
    let created = create_missing admin existing specs (c ++ spec ∷ []) in
    let skipped = create_missing admin existing specs c in
    if has_topic spec.name existing
    then skipped
    else if admin.creates spec.name
    then created
    else (err (create_topic_failed spec.name), c)

unfoldable pub ensure_topics :
    Admin → List TopicSpec → Cluster → Result TopicError (Unit {0}) × Cluster
ensure_topics admin specs c =
    if admin.lists then create_missing admin c specs c else (err list_topics_failed, c)

unfoldable pub ensure_dynamic_topic :
    Admin → Bytes → ℕ → ℕ → Cluster → Result TopicError (Unit {0}) × Cluster
ensure_dynamic_topic admin name partitions replicas c =
    let detail : TopicSpec = record {
      name = name;
      partitions = partitions;
      replicas = replicas;
      retention = codes "2592000000";
    } in
    if admin.lists
    then (if has_topic name c
        then (ok tt, c)
        else if admin.creates name
        then (ok tt, c ++ detail ∷ [])
        else (err create_failed, c))
    else (err list_topics_failed, c)

-- Ids of bytes with the same topic are the same: the hexadecimal name loses nothing.
user_topic_injective : (a b : Bytes) → IsBytes a → IsBytes b → user_topic a ≡ user_topic b → a ≡ b
unfolding user_topic
user_topic_injective a b ha hb e = some-injective _ _ (
    sym (decode_string-encode_to_string a ha)
    ∙ ap (λ t. decode_string (drop 5 t)) e
    ∙ decode_string-encode_to_string b hb)
