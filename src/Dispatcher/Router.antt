-- ===== src/Dispatcher/Router.antt =====
-- server/internal/dispatcher/router.go.
use fproto.Base.{
  Option, none, some, ◌++◌, Bytes, codes, Result, ok, err, ltb, ◌==◌, if◌then◌else◌,
  encode_to_string,
}
use fproto.Message.{
  len_of, bytes_of, ChatMessage, CommandType, Command, MediaChunk, SenderKeyDistribution,
  SignalingMessage, Body, AppMessage, chat, command, media, sender_key, signaling, other,
}
use fproto.Kafka.Topics.{topic_commands, topic_events, topic_media_events}

-- The partition key may be nil.
pub record Route : Type 0 where
  pub topic : Bytes
  pub partition_key : Option Bytes

pub data RouteError : Type 0 where
  nil_message nil_chat nil_command nil_media nil_sender_key nil_signaling : RouteError
  chat_without_receiver sender_key_without_sender signaling_without_recipient : RouteError

unfoldable pub route_chat : Option ChatMessage → Result RouteError Route
route_chat none = err nil_chat
route_chat (some c) =
    if ltb 0 (len_of c.group_id)
    then ok (record {
      topic = codes "group-" ++ encode_to_string (bytes_of c.group_id);
      partition_key = c.group_id;
    })
    else if ltb 0 (len_of c.recipient_id)
    then ok (record {
      topic = codes "user-" ++ encode_to_string (bytes_of c.recipient_id);
      partition_key = c.recipient_id;
    })
    else err chat_without_receiver

-- CommandType.String() is the generated code's: a name for each value.
abbrev pub CommandNames : Type 0
CommandNames = CommandType → Bytes

unfoldable pub route_command : CommandNames → Option Command → Result RouteError Route
route_command names none = err nil_command
route_command names (some c) =
    ok (record { topic = topic_commands; partition_key = some (names c.type) })

unfoldable pub route_media : Option MediaChunk → Result RouteError Route
route_media none = err nil_media
route_media (some m) = ok (record { topic = topic_media_events; partition_key = m.stream_id })

unfoldable pub route_sender_key : Option SenderKeyDistribution → Result RouteError Route
route_sender_key none = err nil_sender_key
route_sender_key (some sk) =
    if len_of sk.sender_id == 0
    then err sender_key_without_sender
    else ok (record { topic = topic_events; partition_key = sk.group_id })

unfoldable pub route_signaling : Option SignalingMessage → Result RouteError Route
route_signaling none = err nil_signaling
route_signaling (some s) =
    if len_of s.recipient_id == 0
    then err signaling_without_recipient
    else ok (record {
      topic = codes "user-" ++ encode_to_string (bytes_of s.recipient_id);
      partition_key = s.recipient_id;
    })

unfoldable pub route_body : CommandNames → Option Bytes → Body → Result RouteError Route
unfolding route_chat route_command route_media route_sender_key route_signaling
route_body names id (chat c) = route_chat c
route_body names id (command c) = route_command names c
route_body names id (media m) = route_media m
route_body names id (sender_key sk) = route_sender_key sk
route_body names id (signaling s) = route_signaling s
route_body names id other = ok (record { topic = topic_events; partition_key = id })

-- RouteMessage; the message is a pointer.
unfoldable pub route_message : CommandNames → Option AppMessage → Result RouteError Route
unfolding route_body
route_message names none = err nil_message
route_message names (some msg) = route_body names msg.message_id msg.body
