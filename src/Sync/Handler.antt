-- ===== src/Sync/Handler.antt =====
-- server/internal/sync/handler.go. Parameters: protobuf's Unmarshal, fmt.Sscanf(s, "%02x"), Redis, and
-- the outcome of each insert. A push that fails is only logged, so the model keeps the calls made.
pub mod Loss
pub mod Routes
use fproto.Base.{
  ℕ, suc, ◌≡◌, refl, Bool, true, false, not, ◌&&◌, Option, none, some, List, [], ◌∷◌, ◌++◌, arith,
  Bytes, codes, Result, ok, err, ltb, if◌then◌else◌, bytes_equal, take, drop, length,
}
use fproto.Message.{
  len_of, bytes_of, ChatMessage, Body, AppMessage, chat, command, media, sender_key, signaling,
  other,
}
use fproto.Sql.{DbError, Outcome}
use fproto.Inbox
use fproto.Inbox.{Table, NewEntry}
use fproto.Sync.Dedup.{Redis, RedisError, is_duplicate}

-- sarama.ConsumerMessage; the value may be nil.
pub record ConsumerMessage : Type 0 where
  pub topic : Bytes
  pub value : Option Bytes

pub record Env : Type 1 where
  pub redis : Redis
  -- proto.Unmarshal into an AppMessage; `none` is its error
  pub unmarshal : Option Bytes → Option AppMessage
  -- fmt.Sscanf of two characters with %02x; `none` is its error
  pub scan_hex : Bytes → Option ℕ
  -- whether the handler has a push client
  pub push_client : Bool

abbrev cons_byte : Option ℕ → Option Bytes → Option Bytes
cons_byte (some b) (some bs) = some (b ∷ bs)
cons_byte _ _ = none

-- hexDecode: pairs of characters; a last odd one is left out.
unfoldable pub hex_decode : (Bytes → Option ℕ) → Bytes → Option Bytes
hex_decode scan [] = some []
hex_decode scan (x ∷ []) = some []
hex_decode scan (x ∷ y ∷ r) = cons_byte (scan (x ∷ y ∷ [])) (hex_decode scan r)

-- The recipient of a user topic.
unfoldable pub recipient_of_topic : (Bytes → Option ℕ) → Bytes → Option Bytes
recipient_of_topic scan topic =
    if ltb 5 (length topic) && bytes_equal (take 5 topic) (codes "user-")
    then hex_decode scan (drop 5 topic)
    else none

unfoldable pub extract_recipient_id : (Bytes → Option ℕ) → Body → Bytes → Option Bytes
extract_recipient_id scan (chat (some c)) topic =
    if ltb 0 (len_of c.recipient_id) then c.recipient_id else recipient_of_topic scan topic
extract_recipient_id scan _ topic = recipient_of_topic scan topic

unfoldable pub extract_sender_id : Body → Option Bytes
extract_sender_id (chat (some c)) = c.sender_id
extract_sender_id _ = none

unfoldable pub extract_conversation_id : Body → Bytes → Option Bytes
extract_conversation_id (chat (some c)) topic =
    if ltb 0 (len_of c.group_id) then c.group_id else c.recipient_id
extract_conversation_id _ topic = some topic

pub data HandleError : Type 0 where
  unmarshal_failed : HandleError
  dedup_failed : RedisError → HandleError
  insert_failed : DbError → HandleError

-- What the handler acts on: Redis, the inbox, and the calls of PushToUser, newest first.
pub record World (D : Type 0) : Type 0 where
  pub db : D
  pub inbox : Table
  pub pushes : List (Bytes × AppMessage)

module _ (env : Env) where
  open env use {redis, unmarshal, scan_hex, push_client}

  -- The world after some time.
  abbrev pub waited : ℕ → World redis.Db → World redis.Db
  waited t w = record w { db = redis.wait t w.db }

  -- The push, after the insert.
  unfoldable pub pushed : Bytes → AppMessage → World redis.Db → World redis.Db
  pushed user_id app_msg w =
      if push_client then record w { pushes = (user_id, app_msg) ∷ w.pushes } else w

  unfoldable pub after_insert :
      Bytes
      → AppMessage
      → World redis.Db
      → Result DbError (Unit {0}) × Table
      → Result HandleError (Unit {0}) × World redis.Db
  unfolding pushed
  after_insert user_id app_msg w (ok u, t) =
      (ok tt, pushed user_id app_msg (record w { inbox = t }))
  after_insert user_id app_msg w (err e, t) = (err (insert_failed e), record w { inbox = t })

  -- The entry that is inserted.
  unfoldable pub entry_of : ConsumerMessage → Bytes → AppMessage → NewEntry
  entry_of msg user_id app_msg = record {
    user_id = some user_id;
    message_id = app_msg.message_id;
    conversation_id = extract_conversation_id app_msg.body msg.topic;
    sender_id = extract_sender_id app_msg.body;
    payload = msg.value;
  }

  unfoldable pub after_dedup :
      Outcome
      → ConsumerMessage
      → Bytes
      → AppMessage
      → World redis.Db
      → Result RedisError Bool × redis.Db
      → Result HandleError (Unit {0}) × World redis.Db
  after_dedup o msg user_id app_msg w (err e, d) = (err (dedup_failed e), record w { db = d })
  after_dedup o msg user_id app_msg w (ok true, d) = (ok tt, record w { db = d })
  after_dedup o msg user_id app_msg w (ok false, d) =
      after_insert user_id app_msg (record w { db = d })
        (Inbox.insert o (entry_of msg user_id app_msg) w.inbox)

  unfoldable pub with_recipient :
      Outcome
      → ConsumerMessage
      → AppMessage
      → Option Bytes
      → World redis.Db
      → Result HandleError (Unit {0}) × World redis.Db
  with_recipient o msg app_msg none w = (ok tt, w)
  with_recipient o msg app_msg (some user_id) w =
      after_dedup o msg user_id app_msg w (is_duplicate redis w.db user_id app_msg.message_id)

  unfoldable pub with_message :
      Outcome
      → ConsumerMessage
      → Option AppMessage
      → World redis.Db
      → Result HandleError (Unit {0}) × World redis.Db
  with_message o msg none w = (err unmarshal_failed, w)
  with_message o msg (some app_msg) w =
      with_recipient o msg app_msg (extract_recipient_id scan_hex app_msg.body msg.topic) w

  -- Handle, with the outcome of its insert.
  unfoldable pub handle :
      Outcome → ConsumerMessage → World redis.Db → Result HandleError (Unit {0}) × World redis.Db
  unfolding with_message with_recipient
  handle o msg w = with_message o msg (unmarshal msg.value) w
