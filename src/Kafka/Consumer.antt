-- ===== src/Kafka/Consumer.antt =====
-- server/internal/kafka/consumer.go, and the configurations of config.go. The claim of a session is the
-- records of a partition from the committed offset on. The spans of tracing are left out.
use fproto.Base.{
  ℕ, suc, ◌*◌, ◌≡◌, Bool, true, false, Option, none, some, List, [], ◌∷◌, Result, ok, err, leb,
  if◌then◌else◌, filter, any, ◌==◌,
}

pub data Acks : Type 0 where
  wait_for_all : Acks

pub data Compression : Type 0 where
  lz4 : Compression

pub data InitialOffset : Type 0 where
  oldest newest : InitialOffset

pub data IsolationLevel : Type 0 where
  read_committed read_uncommitted : IsolationLevel

pub record ProducerConfig : Type 0 where
  pub required_acks : Acks
  pub idempotent : Bool
  pub return_successes : Bool
  pub return_errors : Bool
  pub retry_max : ℕ
  pub retry_backoff_ms : ℕ
  pub compression : Compression
  pub max_message_bytes : ℕ
  pub max_open_requests : ℕ

abbrev pub default_producer_config : ProducerConfig
default_producer_config = record {
  required_acks = wait_for_all;
  idempotent = true;
  return_successes = true;
  return_errors = true;
  retry_max = 5;
  retry_backoff_ms = 100;
  compression = lz4;
  max_message_bytes = 4 * 1024 * 1024;
  max_open_requests = 1;
}

pub record ConsumerConfig : Type 0 where
  pub initial : InitialOffset
  pub auto_commit : Bool
  pub fetch_min : ℕ
  pub fetch_default : ℕ
  pub max_wait_ms : ℕ
  pub isolation : IsolationLevel

abbrev pub default_consumer_config : ConsumerConfig
default_consumer_config = record {
  initial = oldest;
  auto_commit = false;
  fetch_min = 1;
  fetch_default = 1024 * 1024;
  max_wait_ms = 500;
  isolation = read_committed;
}

-- The offset after the last that was marked or committed.
unfoldable pub latest : List ℕ → Option ℕ → Option ℕ
latest [] c = c
latest (m ∷ ms) c = elim (latest ms c) [
  | none ↦ some (suc m)
  | some n ↦ if leb n m then some (suc m) else some n
]

-- What sarama commits when a session ends in which the offsets `marks` were marked and Commit was not
-- called: with auto-commit up to the latest mark, and otherwise nothing.
pub record OffsetManager : Type 0 where
  pub end_session : Bool → List ℕ → Option ℕ → Option ℕ
  pub commits_marks : (marks : List ℕ) (c : Option ℕ) → end_session true marks c ≡ latest marks c
  pub manual_commits : (marks : List ℕ) (c : Option ℕ) → end_session false marks c ≡ c

module _ {E M W : Type 0} (handler : M → W → Result E (Unit {0}) × W) where
  abbrev pub claimed : ℕ → Result E (Unit {0}) × W → (W → W × List ℕ) → W × List ℕ
  claimed offset (err e, w) rest = rest w
  claimed offset (ok u, w) rest = let (w', marks) = rest w in (w', offset ∷ marks)

  -- ConsumeClaim over the messages of a claim, with their offsets: what the handler leaves, and the
  -- offsets that are marked, in order. Commit is not called.
  unfoldable pub consume_claim : List (ℕ × M) → W → W × List ℕ
  consume_claim [] w = (w, [])
  consume_claim ((offset, m) ∷ ms) w = claimed offset (handler m w) (λ w'. consume_claim ms w')

  abbrev pub from_offset : Option ℕ → ℕ × M → Bool
  from_offset none r = true
  from_offset (some c) r = leb c r.0

  abbrev pub delivered : Option ℕ → List (ℕ × M) → List (ℕ × M)
  delivered c log = filter (from_offset c) log

  -- A session on a partition's log: from the committed offset on, or from the oldest record.
  unfoldable pub session : OffsetManager → Bool → List (ℕ × M) → Option ℕ × W → Option ℕ × W
  session om auto log (c, w) =
      let (w', marks) = consume_claim (delivered c log) w in (om.end_session auto marks c, w')

  -- Sessions one after the other, each with the log as it then is.
  unfoldable pub sessions : OffsetManager → Bool → List (List (ℕ × M)) → Option ℕ × W → Option ℕ × W
  sessions om auto [] s = s
  sessions om auto (log ∷ logs) s = sessions om auto logs (session om auto log s)

-- What one Consume does: whether it sets a session up, and whether the context has ended after it.
pub record Consumed : Type 0 where
  pub sets_up : Bool
  pub fails : Bool
  pub cancelled : Bool

-- The channels that have been made are numbered; `ready` is the current one.
pub record ConsumerGroup : Type 0 where
  pub ready : ℕ
  pub next : ℕ
  pub closed : List ℕ

abbrev pub new_consumer_group : ConsumerGroup
new_consumer_group = record { ready = 0; next = 1; closed = [] }

-- Setup closes the channel of the group.
abbrev pub setup : Bool → ConsumerGroup → ConsumerGroup
setup sets_up g = if sets_up then record g { closed = g.ready ∷ g.closed } else g

abbrev pub renewed : ConsumerGroup → ConsumerGroup
renewed g = record g { ready = g.next; next = suc g.next }

-- Run, over what the calls of Consume do. An error of Consume is logged.
unfoldable pub run : List Consumed → ConsumerGroup → ConsumerGroup
run [] g = g
run (c ∷ cs) g =
    let rest = run cs (renewed (setup c.sets_up g)) in
    if c.cancelled then setup c.sets_up g else rest

abbrev pub is_closed : ℕ → ConsumerGroup → Bool
is_closed channel g = any (λ x. x == channel) g.closed
