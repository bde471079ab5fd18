-- ===== src/Gateway.antt =====
-- handleConn of the gateway (server/cmd/gateway/main.go): the loop over the messages of a connection
-- after its handshake. Metrics and spans are left out. What a client reads is in
-- `Replies`, and what its messages leave in the outbox in `Stored`.
pub mod Replies
pub mod Stored
pub mod EchoServer
mod Examples
use fproto.Base.{
  ℕ, Bool, true, false, Option, none, some, List, [], ◌∷◌, ◌++◌, Bytes, codes, Result, ok, err, ltb,
  if◌then◌else◌,
}
use fproto.Message.{AppMessage, len_of, bytes_of}
use fproto.Noise
use fproto.Noise.{Noise, Session, NoiseError}

-- The fields of a Frame that the gateway reads.
pub record Frame : Type 0 where
  pub session_id : Option Bytes
  pub encrypted_payload : Option Bytes

pub record DispatchRequest : Type 0 where
  pub session_id : Bytes
  pub sender_id : Option Bytes
  pub message : AppMessage

-- An AppMessage with an Ack: its message id, and the id and the status RECEIVED in its body.
pub record AckMessage : Type 0 where
  pub message_id : Option Bytes
  pub ack_message_id : Option Bytes

-- What the gateway is given. `dispatch` is the dispatcher's Dispatch, over its state, if the gateway has
-- a client for it: the id of the acknowledgement, or `none` for an error.
pub record Gateway (D : Type 0) : Type 0 where
  pub frame_of : Bytes → Option Frame
  pub message_of : Bytes → Option AppMessage
  pub marshal : AckMessage → Option Bytes
  pub remote_addr : Bytes
  pub dispatch : Option (DispatchRequest → D → Option (Option Bytes) × D)

module _ {D : Type 0} (gw : Gateway D) where
  abbrev pub request : Frame → AppMessage → DispatchRequest
  request f m = record { session_id = gw.remote_addr; sender_id = f.session_id; message = m }

  abbrev pub with_message :
      (DispatchRequest → D → Option (Option Bytes) × D)
      → Frame
      → Option AppMessage
      → D
      → Option (Option Bytes) × D
  with_message dispatch f none d = (none, d)
  with_message dispatch f (some m) d = dispatch (request f m) d

  abbrev pub with_frame :
      (DispatchRequest → D → Option (Option Bytes) × D)
      → Option Frame
      → D
      → Option (Option Bytes) × D
  with_frame dispatch none d = (none, d)
  with_frame dispatch (some f) d =
      if ltb 0 (len_of f.encrypted_payload)
      then with_message dispatch f (gw.message_of (bytes_of f.encrypted_payload)) d
      else (none, d)

  -- The id that the dispatcher acknowledges a plaintext with, if it comes to that.
  abbrev pub dispatched_by :
      Option (DispatchRequest → D → Option (Option Bytes) × D)
      → Bytes
      → D
      → Option (Option Bytes) × D
  dispatched_by none plaintext d = (none, d)
  dispatched_by (some dispatch) plaintext d = with_frame dispatch (gw.frame_of plaintext) d

  unfoldable pub dispatched : Bytes → D → Option (Option Bytes) × D
  dispatched plaintext d = dispatched_by gw.dispatch plaintext d

  -- The acknowledgement; an error of Marshal is dropped and leaves nil.
  abbrev pub ack : Option Bytes → Bytes
  ack id = bytes_of (gw.marshal (record { message_id = id; ack_message_id = id }))

  abbrev pub echo : Bytes → Bytes
  echo plaintext = codes "echo: " ++ plaintext

  module _ {Handshake Cipher : Type 0} (n : Noise Handshake Cipher) where
    -- The messages that are sent, and the dispatcher's state.
    abbrev pub Served : Type 0
    Served = List Bytes × D

    abbrev pub sends : Bytes → Served → Served
    sends m (ms, d) = (m ∷ ms, d)

    -- After an acknowledgement is encrypted the loop goes on, also where it cannot be sent.
    abbrev pub acknowledged :
        Bool → Result NoiseError Bytes × Session Cipher → (Session Cipher → Served) → Served
    acknowledged writes (err e, s) rest = rest s
    acknowledged writes (ok ct, s) rest =
        let more = rest s in if writes then sends ct more else more

    -- An echo that cannot be sent ends the connection.
    abbrev pub echoed :
        Bool → D → Result NoiseError Bytes × Session Cipher → (Session Cipher → Served) → Served
    echoed writes d (err e, s) rest = ([], d)
    echoed writes d (ok ct, s) rest = let more = rest s in if writes then sends ct more else ([], d)

    abbrev pub answered :
        Bool
        → Bytes
        → Session Cipher
        → Option (Option Bytes) × D
        → (Session Cipher → D → Served)
        → Served
    answered writes plaintext s (some id, d) rest =
        acknowledged writes (Noise.encrypt n (ack id) s) (λ s'. rest s' d)
    answered writes plaintext s (none, d) rest =
        echoed writes d (Noise.encrypt n (echo plaintext) s) (λ s'. rest s' d)

    abbrev pub opened :
        Bool → Result NoiseError Bytes × Session Cipher → D → (Session Cipher → D → Served) → Served
    opened writes (err e, s) d rest = ([], d)
    opened writes (ok plaintext, s) d rest =
        answered writes plaintext s (dispatched plaintext d) rest

    -- The loop over what is read, until a read fails: each message with whether the write after it
    -- succeeds.
    unfoldable pub serve : List (Bytes × Bool) → Session Cipher → D → Served
    serve [] s d = ([], d)
    serve ((ct, writes) ∷ ms) s d = opened writes (Noise.decrypt n ct s) d (serve ms)

    -- handleConn, from the result of its handshake on.
    unfoldable pub handle_conn :
        Result NoiseError (Session Cipher) → List (Bytes × Bool) → D → Served
    handle_conn (err e) ms d = ([], d)
    handle_conn (ok s) ms d = serve ms s d
