-- ===== src/Noise/Handshakes.antt =====
-- ServerHandshake and ClientHandshake (proto-core/crypto/noise.go), and clientHandshake of the Go SDK
-- (sdk/go/crypto.go). The random source of a handshake is drawn from when it is set up.
use fproto.Base.{◌≡◌, refl, true, false, Option, none, some, Bytes, Result, ok, err}
use fproto.Noise.{
  KeyPair, Noise, Session, NoiseError, new_state_failed, write_failed, send_failed, read_failed,
  process_failed, incomplete, or_error,
}
use fproto.Noise.Conversations.{Io, ◌>>=◌, ◌>>◌, read_or, write_or, lift}

-- The session of one end, from the cipher states for the two directions.
abbrev pub initiator_session :
    {Cipher : Type 0} → Option (Cipher × Cipher) → Result NoiseError (Session Cipher)
initiator_session (some (sending, receiving)) = ok (record { send = sending; recv = receiving })
initiator_session none = err incomplete

abbrev pub responder_session :
    {Cipher : Type 0} → Option (Cipher × Cipher) → Result NoiseError (Session Cipher)
responder_session (some (receiving, sending)) = ok (record { send = sending; recv = receiving })
responder_session none = err incomplete

module _ {Handshake Cipher : Type 0} (n : Noise Handshake Cipher) where
  -- hs.WriteMessage and hs.ReadMessage: the answer and the state that is left, or an error.
  abbrev pub written :
      NoiseError → Handshake → Io NoiseError (Bytes × Option (Cipher × Cipher) × Handshake)
  written e hs =
      let (r, left) = n.write_message hs in
      do (m, ciphers) ← lift (or_error e r); lift (ok (m, ciphers, left))

  abbrev pub processed :
      NoiseError → Bytes → Handshake → Io NoiseError (Option (Cipher × Cipher) × Handshake)
  processed e m hs =
      let (r, left) = n.read_message m hs in
      do ciphers ← lift (or_error e r); lift (ok (ciphers, left))

  unfoldable pub server_handshake : KeyPair → Bytes → Io NoiseError (Session Cipher)
  server_handshake key random = do
    hs ← lift (or_error new_state_failed (n.new_state false key random))
    msg1 ← read_or read_failed
    (_, hs1) ← processed process_failed msg1 hs
    (msg2, _, hs2) ← written write_failed hs1
    write_or send_failed msg2
    msg3 ← read_or read_failed
    (ciphers, _) ← processed process_failed msg3 hs2
    lift (responder_session ciphers)

  unfoldable pub client_handshake : KeyPair → Bytes → Io NoiseError (Session Cipher)
  client_handshake key random = do
    hs ← lift (or_error new_state_failed (n.new_state true key random))
    (msg1, _, hs1) ← written write_failed hs
    write_or send_failed msg1
    msg2 ← read_or read_failed
    (_, hs2) ← processed process_failed msg2 hs1
    (msg3, ciphers, _) ← written write_failed hs2
    write_or send_failed msg3
    lift (initiator_session ciphers)

  -- clientHandshake of the SDK; it returns the error of a call as it is, which is named here by the
  -- call that failed.
  unfoldable pub sdk_client_handshake : KeyPair → Bytes → Io NoiseError (Session Cipher)
  sdk_client_handshake key random = do
    hs ← lift (or_error new_state_failed (n.new_state true key random))
    (msg1, _, hs1) ← written write_failed hs
    write_or send_failed msg1
    msg2 ← read_or read_failed
    (_, hs2) ← processed process_failed msg2 hs1
    (msg3, ciphers, _) ← written write_failed hs2
    write_or send_failed msg3
    lift (initiator_session ciphers)

  -- The client of the SDK does what the client of proto-core does.
  pub sdk_client_handshake-client_handshake :
      (key : KeyPair) (random : Bytes)
      → sdk_client_handshake key random ≡ client_handshake key random
  unfolding sdk_client_handshake client_handshake
  sdk_client_handshake-client_handshake key random = refl
