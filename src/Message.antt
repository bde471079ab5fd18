-- ===== src/Message.antt =====
-- The messages of proto/fproto/v1, as server/internal/protocol/gen/fproto/v1 declares them in Go: the
-- fields that the services read. A []byte is nil (`none`) or a slice; a oneof's body may be nil.
use fproto.Base.{ℕ, Option, none, some, [], Bytes, length}

-- len(b), which is 0 for nil.
abbrev pub len_of : Option Bytes → ℕ
len_of none = 0
len_of (some b) = length b

-- The bytes of a slice that is read or encoded: none for nil.
abbrev pub bytes_of : Option Bytes → Bytes
bytes_of none = []
bytes_of (some b) = b

pub record ChatMessage : Type 0 where
  pub sender_id : Option Bytes
  pub recipient_id : Option Bytes
  pub group_id : Option Bytes

pub data CommandType : Type 0 where
  unspecified create_group add_member remove_member update_group_settings : CommandType
  ban_member delete_message : CommandType
  unlisted_command : ℕ → CommandType

pub record Command : Type 0 where
  pub type : CommandType
  pub target_id : Option Bytes
  pub payload : Option Bytes

pub record MediaChunk : Type 0 where
  pub stream_id : Option Bytes

pub record SenderKeyDistribution : Type 0 where
  pub group_id : Option Bytes
  pub sender_id : Option Bytes
  pub key_id : ℕ
  pub chain_key : Bytes
  pub signing_key : Bytes

pub record SignalingMessage : Type 0 where
  pub recipient_id : Option Bytes

-- The oneof: each wrapper's pointer may be nil. `other` are Ack, Ping, Pong, SyncRequest and no body.
pub data Body : Type 0 where
  chat : Option ChatMessage → Body
  command : Option Command → Body
  media : Option MediaChunk → Body
  sender_key : Option SenderKeyDistribution → Body
  signaling : Option SignalingMessage → Body
  other : Body

pub record AppMessage : Type 0 where
  pub message_id : Option Bytes
  pub body : Body
