-- ===== src/Sync/Examples.antt =====
-- Records through the handler, with an association list for Redis.
use fproto.Base.{
  ltb, ◌-◌, ◌*◌, ℕ, ◌≡◌, if◌then◌else◌, refl, Bool, true, false, Option, none, some, List, [], ◌∷◌,
  arith, Bytes, codes, Result, ok, err, bytes_equal, decode_string, decode_string-encode_to_string,
}
use fproto.Message.{AppMessage, ChatMessage, SignalingMessage, chat, signaling}
use fproto.Sql.{Outcome, unavailable, done, refused}
use fproto.Inbox
use fproto.Inbox.{Table, NewEntry, holds, row_of, columns, add_row, insert_row, is_row_of}
use fproto.Inbox.Laws.{IsUnique, insert-IsUnique, rows_of}
use fproto.Kafka.Topics.{user_topic, group_topic}
use fproto.Dispatcher.Router.{CommandNames, Route, route_message}
use fproto.Sync.Dedup.{Redis, RedisError, Sets, sets, keeps, is_duplicate}
use fproto.Sync.Handler.{
  ConsumerMessage, Env, World, handle, extract_recipient_id, insert_failed, extract_sender_id,
  with_message, with_recipient, after_dedup, after_insert, entry_of,
}
use fproto.Kafka.Consumer.{OffsetManager, latest, ConsumerConfig, newest, read_uncommitted}
use fproto.Sync.Replays.{Claim}
use fproto.Sync.Paging.{Run, get_missed_messages_paginated}
use fproto.Sync.Paging.Termination.{paginated_ends}
use fproto.Sync.Handler.Loss.{redelivered, redelivered_lost, handle-holds}
use fproto.Sync.Handler.Routes.{ReadsHex, routed_group_chat, routed_recipient}

-- A Redis that never fails: the time that each key has left.
abbrev Times : Type 0
Times = Bytes → ℕ

set_new : Times → Bytes → ℕ → Bool → Result RedisError Bool × Times
set_new d k ttl true = (ok false, d)
set_new d k ttl false = (ok true, λ j. if bytes_equal k j then ttl else d j)

set_new-Sets :
    (d : Times) (k : Bytes) (ttl : ℕ) (b : Bool)
    → ltb 0 (d k) ≡ b
    → Sets (λ x j. x j) ttl d k (set_new d k ttl b)
unfolding set_new
set_new-Sets d k ttl true h = keeps d h (λ j. refl)
set_new-Sets d k ttl false h = sets (λ j. if bytes_equal k j then ttl else d j) h (λ j. refl)

abbrev timed_redis : Redis
timed_redis = record {
  Db = Times;
  left = λ d k. d k;
  set_nx = λ d k ttl. set_new d k ttl (ltb 0 (d k));
  wait = λ t d k. d k - t;
  set_nx-Sets = λ d k ttl. set_new-Sets d k ttl (ltb 0 (d k)) refl;
  left-wait = λ t d k. refl;
}

abbrev bob_chat : ChatMessage
bob_chat = record { sender_id = some (5 ∷ []); recipient_id = some (6 ∷ []); group_id = none }

abbrev group_chat : ChatMessage
group_chat = record { sender_id = some (5 ∷ []); recipient_id = none; group_id = some (4 ∷ []) }

abbrev bob_signal : SignalingMessage
bob_signal = record { recipient_id = some (6 ∷ []) }

abbrev to_bob : AppMessage
to_bob = record { message_id = some (9 ∷ []); body = chat (some bob_chat) }

abbrev to_group : AppMessage
to_group = record { message_id = some (9 ∷ []); body = chat (some group_chat) }

abbrev call_bob : AppMessage
call_bob = record { message_id = some (9 ∷ []); body = signaling (some bob_signal) }

abbrev no_names : CommandNames
no_names c = []

abbrev bob_route : Route
bob_route = record { topic = user_topic (6 ∷ []); partition_key = some (6 ∷ []) }

abbrev new_entry : NewEntry
new_entry = record {
  user_id = some (6 ∷ []);
  message_id = some (9 ∷ []);
  conversation_id = none;
  sender_id = some (5 ∷ []);
  payload = some [];
}

-- The one byte that two digits stand for.
abbrev first_byte : Option Bytes → Option ℕ
first_byte (some (b ∷ bs)) = some b
first_byte _ = none

abbrev scan_digits : Bytes → Option ℕ
scan_digits s = first_byte (decode_string s)

abbrev env_of : AppMessage → Env
env_of m = record {
  redis = timed_redis;
  unmarshal = λ v. some m;
  scan_hex = scan_digits;
  push_client = true;
}

abbrev empty_inbox : Table
empty_inbox = record { rows = []; next_id = 1; now = 0 }

empty_inbox-IsUnique : IsUnique empty_inbox
unfolding rows_of
empty_inbox-IsUnique u m = omega arith

abbrev start : World Times
start = record { db = λ k. 0; inbox = empty_inbox; pushes = [] }

abbrev bob_record : ConsumerMessage
bob_record = record { topic = codes "user-06"; value = some (1 ∷ []) }

bob_extracted : extract_recipient_id scan_digits to_bob.body bob_record.topic ≡ some (6 ∷ [])
unfolding extract_recipient_id
bob_extracted = refl

call_bob_no_sender : extract_sender_id call_bob.body ≡ none
unfolding extract_sender_id
call_bob_no_sender = refl

refused_first :
    (handle (env_of to_bob) refused bob_record start).0 ≡ err (insert_failed unavailable)
unfolding handle with_message extract_recipient_id with_recipient after_dedup is_duplicate set_new
    after_insert
refused_first = refl

bob_stored : (handle (env_of to_bob) done bob_record start).0 ≡ ok tt
unfolding handle with_message extract_recipient_id with_recipient after_dedup is_duplicate set_new
    after_insert entry_of insert_row row_of columns add_row holds is_row_of extract_sender_id
bob_stored = refl

-- Two hours, and a day.
abbrev two_more : List (ℕ × Outcome)
two_more = (7200000, done) ∷ (86400000, done) ∷ []

redelivered_lost_example :
    (redelivered
      (env_of to_bob)
      two_more
      bob_record
      (handle (env_of to_bob) refused bob_record start).1).inbox
    ≡ start.inbox
redelivered_lost_example =
    redelivered_lost (env_of to_bob) two_more bob_record start to_bob (6 ∷ []) refl bob_extracted
      refused_first (omega arith)

handle-holds_example :
    holds (6 ∷ []) (9 ∷ []) (handle (env_of to_bob) done bob_record start).1.inbox ≡ true
handle-holds_example =
    handle-holds (env_of to_bob) done bob_record start to_bob (6 ∷ []) (9 ∷ []) refl bob_extracted
      refl refl bob_stored

routed_group_chat_example :
    (route_message no_names (some to_group)
      ≡ ok (record { topic = group_topic (4 ∷ []); partition_key = some (4 ∷ []) }))
    × (handle
          (env_of to_group)
          done
          (record { topic = group_topic (4 ∷ []); value = some (1 ∷ []) })
          start
        ≡ (ok tt, start))
routed_group_chat_example =
    routed_group_chat (env_of to_group) no_names done (some (1 ∷ [])) start to_group group_chat
      (4 ∷ []) refl refl refl (omega arith) refl

scan_digits-ReadsHex : ReadsHex scan_digits
scan_digits-ReadsHex b h = rw (decode_string-encode_to_string (b ∷ []) (h, tt)) refl

routed_recipient_example :
    (route_message no_names (some to_bob) ≡ ok bob_route)
    × (route_message no_names (some call_bob) ≡ ok bob_route)
    × (extract_recipient_id scan_digits to_bob.body bob_route.topic ≡ some (6 ∷ []))
    × (extract_recipient_id scan_digits call_bob.body bob_route.topic ≡ some (6 ∷ []))
routed_recipient_example =
    routed_recipient no_names scan_digits (some (9 ∷ [])) bob_chat bob_signal (6 ∷ [])
      scan_digits-ReadsHex (omega arith, tt) (omega arith) refl refl refl

abbrev one_message : Table
one_message = (Inbox.insert done new_entry empty_inbox).1

paginated_ends_example :
    (r : Run) × (get_missed_messages_paginated
        (λ k. done)
        (λ page. true)
        1
        (6 ∷ [])
        none
        one_message
        3
      ≡ some r)
unfolding insert_row row_of columns add_row holds is_row_of
paginated_ends_example =
    paginated_ends (λ k. done) (λ page. true) 1 (6 ∷ []) none one_message
      (insert-IsUnique done new_entry empty_inbox empty_inbox-IsUnique) (refl, tt)

abbrev sarama : OffsetManager
sarama = record {
  end_session = λ auto marks c. if auto then latest marks c else c;
  commits_marks = λ marks c. refl;
  manual_commits = λ marks c. refl;
}

-- sarama.NewConfig.
abbrev new_config : ConsumerConfig
new_config = record {
  initial = newest;
  auto_commit = true;
  fetch_min = 1;
  fetch_default = 1024 * 1024;
  max_wait_ms = 500;
  isolation = read_uncommitted;
}

abbrev bob_claim : Claim
bob_claim = (0, (1000, (done, bob_record))) ∷ []
