-- ===== src/Apps/Notifications.antt =====
-- The notification server (examples/notifications): its subscribers, the events of their connections
-- and of its /send handler, and the client. A map is ranged over in the order of its list here. A
-- remote address names one connection at a time.
pub mod Broadcasts
pub mod Subscriptions
mod Examples
use fproto.Base.{
  ℕ, suc, ◌≡◌, Bool, true, false, ◌&&◌, ◌||◌, Option, none, some, List, [], ◌∷◌, Bytes, codes,
  Result, ok, err, ◌==◌, if◌then◌else◌, any, Map, lookup, assign, unassign, bytes_equal,
}
use fproto.Message.{bytes_of}
use fproto.Noise
use fproto.Noise.{Noise, Session, NoiseError}
use fproto.Apps.Frames.{Json, decode_frame, encoded, sealed}

pub record Notification : Type 0 where
  pub id : Bytes
  pub channel : Bytes
  pub title : Bytes
  pub body : Bytes
  pub priority : Bytes
  pub timestamp_ms : ℕ

pub record Subscription : Type 0 where
  pub channels : List Bytes
  pub user_id : Bytes

pub record NotifyAck : Type 0 where
  pub notification_id : Bytes
  pub status : Bytes

abbrev pub msg_notification : ℕ
msg_notification = 1

abbrev pub msg_subscribe : ℕ
msg_subscribe = 2

abbrev pub msg_ack : ℕ
msg_ack = 3

-- subscriber. Its connection is known by its id in the hub.
pub record Subscriber (Cipher : Type 0) : Type 0 where
  pub session : Session Cipher
  pub channels : List Bytes
  pub user_id : Bytes

-- notifyHub.
abbrev pub NotifyHub : Type 0 → Type 0
NotifyHub Cipher = Map (Subscriber Cipher)

abbrev pub every_channel : Bytes
every_channel = codes "*"

pub data SendReply : Type 0 where
  method_not_allowed bad_request : SendReply
  sent : ℕ → SendReply

abbrev pub stamped : ℕ → Notification → Notification
stamped now x = if x.timestamp_ms == 0 then record x { timestamp_ms = now } else x

abbrev pub id_of : Option Notification → Bytes → Bytes
id_of none left = left
id_of (some x) left = x.id

abbrev pub ack_of : Bytes → NotifyAck
ack_of id = record { notification_id = id; status = codes "delivered" }

module _ {Cipher : Type 0} where
  abbrev pub new_hub : NotifyHub Cipher
  new_hub = []

  unfoldable pub add_subscriber : Bytes → Subscriber Cipher → NotifyHub Cipher → NotifyHub Cipher
  add_subscriber id sub h = assign id sub h

  unfoldable pub remove_subscriber : Bytes → NotifyHub Cipher → NotifyHub Cipher
  remove_subscriber id h = unassign id h

  -- sub.channels[n.Channel] || sub.channels["*"].
  abbrev pub wants : Bytes → Subscriber Cipher → Bool
  wants channel sub =
      any (bytes_equal channel) sub.channels || any (bytes_equal every_channel) sub.channels

  abbrev pub first_subscriber : Bytes → Session Cipher → Subscriber Cipher
  first_subscriber id s = record { session = s; channels = every_channel ∷ []; user_id = id }

  abbrev pub subscribed : Option Subscription → Subscriber Cipher → Subscriber Cipher
  subscribed none sub = sub
  subscribed (some s) sub = record sub { channels = s.channels; user_id = s.user_id }

module _ {Handshake Cipher : Type 0} (n : Noise Handshake Cipher) where
  -- What a broadcast has sent so far: how often, what to whom, and the subscribers after it.
  abbrev pub Sent : Type 0
  Sent = ℕ × Map Bytes × NotifyHub Cipher

  abbrev pub written :
      Bytes → Bool → Subscriber Cipher → Result NoiseError Bytes × Session Cipher → Sent → Sent
  written id writes sub (err e, s) (k, ds, h) = (k, ds, (id, record sub { session = s }) ∷ h)
  written id writes sub (ok ct, s) (k, ds, h) =
      if writes
      then (suc k, (id, ct) ∷ ds, (id, record sub { session = s }) ∷ h)
      else (k, ds, (id, record sub { session = s }) ∷ h)

  abbrev pub passed_by : Bytes → Subscriber Cipher → Sent → Sent
  passed_by id sub (k, ds, h) = (k, ds, (id, sub) ∷ h)

  -- The loop of broadcast; `writes` says whose WriteMessage succeeds.
  unfoldable pub deliver : Bytes → Bytes → (Bytes → Bool) → NotifyHub Cipher → Sent
  deliver channel msg writes [] = (0, [], [])
  deliver channel msg writes ((id, sub) ∷ h) =
      let rest = deliver channel msg writes h in
      if wants channel sub
      then written id (writes id) sub (Noise.encrypt n msg sub.session) rest
      else passed_by id sub rest

  module _ (notifications : Json Notification) (subscriptions : Json Subscription)
      (acks : Json NotifyAck) where
    abbrev pub sent_to : Bytes → (Bytes → Bool) → Option Bytes → NotifyHub Cipher → Sent
    sent_to channel writes none h = (0, [], h)
    sent_to channel writes (some msg) h = deliver channel msg writes h

    -- broadcast.
    unfoldable pub broadcast : Notification → (Bytes → Bool) → NotifyHub Cipher → Sent
    broadcast x writes h =
        sent_to x.channel writes (encoded msg_notification (notifications.marshal x)) h

    -- What happens: a connection whose handshake succeeded, a message that is read, a read that fails,
    -- and a request to /send: whether it is a POST, what is decoded from its body, the time, and whose
    -- writes succeed.
    pub data Event : Type 0 where
      connected : Bytes → Session Cipher → Event
      read : Bytes → Bytes → Event
      read_failed : Bytes → Event
      posted : Bool → Option Notification → ℕ → (Bytes → Bool) → Event

    -- An acknowledgement is only logged.
    abbrev pub handled : Option (ℕ × Bytes) → Subscriber Cipher → Subscriber Cipher
    handled none sub = sub
    handled (some (kind, payload)) sub =
        if kind == msg_subscribe then subscribed (subscriptions.unmarshal payload) sub else sub

    abbrev pub opened :
        Bytes
        → Subscriber Cipher
        → Result NoiseError Bytes × Session Cipher
        → NotifyHub Cipher
        → NotifyHub Cipher
    opened id sub (err e, s) h = remove_subscriber id h
    opened id sub (ok plaintext, s) h =
        assign id (handled (decode_frame plaintext) (record sub { session = s })) h

    abbrev pub read_by :
        Bytes → Bytes → Option (Subscriber Cipher) → NotifyHub Cipher → NotifyHub Cipher
    read_by id ct none h = h
    read_by id ct (some sub) h = opened id sub (Noise.decrypt n ct sub.session) h

    abbrev pub decoded_post :
        Option Notification
        → ℕ
        → (Bytes → Bool)
        → NotifyHub Cipher
        → Option SendReply × Map Bytes × NotifyHub Cipher
    decoded_post none now writes h = (some bad_request, [], h)
    decoded_post (some x) now writes h =
        let (k, ds, h') = broadcast (stamped now x) writes h in (some (sent k), ds, h')

    -- One event: the reply to a request, what is sent to subscribers, and the hub.
    unfoldable pub step : Event → NotifyHub Cipher → Option SendReply × Map Bytes × NotifyHub Cipher
    step (connected id s) h = (none, [], add_subscriber id (first_subscriber id s) h)
    step (read id ct) h = (none, [], read_by id ct (lookup id h) h)
    step (read_failed id) h = (none, [], remove_subscriber id h)
    step (posted is_post decoded now writes) h =
        if is_post then decoded_post decoded now writes h else (some method_not_allowed, [], h)

    -- The client's subscription, and its loop: what it sends for a message, where an error leaves nil.
    -- `left` is the id that Unmarshal leaves in a notification where it fails.
    abbrev pub subscription_message : Subscription → Option Bytes
    subscription_message s = encoded msg_subscribe (subscriptions.marshal s)

    abbrev pub answers_frame :
        (Bytes → Bytes) → Option (ℕ × Bytes) → Session Cipher → List Bytes × Session Cipher
    answers_frame left none s = ([], s)
    answers_frame left (some (kind, payload)) s =
        if kind == msg_notification
        then (let (ct, s') =
              sealed n
                (encoded msg_ack
                  (acks.marshal (ack_of (id_of (notifications.unmarshal payload) (left payload)))))
                s in
            (ct ∷ [], s'))
        else ([], s)

    abbrev pub client_opened :
        (Bytes → Bytes) → Result NoiseError Bytes × Session Cipher → List Bytes × Session Cipher
    client_opened left (err e, s) = answers_frame left (decode_frame []) s
    client_opened left (ok plaintext, s) = answers_frame left (decode_frame plaintext) s

    unfoldable pub client_reads :
        (Bytes → Bytes) → Bytes → Session Cipher → List Bytes × Session Cipher
    client_reads left ct s = client_opened left (Noise.decrypt n ct s)
