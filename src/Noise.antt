-- ===== src/Noise.antt =====
-- The Noise XX handshake: what the code uses of flynn/noise, and the sessions that a handshake gives
-- (proto-core/crypto/noise.go and keypair.go, sdk/go/crypto.go and client.go). The handshakes are in
-- `Handshakes`, and what the two ends agree on in `Agreement`.
pub mod Conversations
pub mod Handshakes
pub mod Agreement
pub mod OpenLibrary
mod Examples
use fproto.Base.{◌≡◌, Bool, true, false, Option, none, some, Bytes, Result, ok, err}

pub record KeyPair : Type 0 where
  pub private : Bytes
  pub public : Bytes

-- The library, over its HandshakeState and CipherState. A call returns its answer, `none` for an
-- error, and the state that it leaves. `new_state` takes what the random source gives to the
-- handshake. A message that completes the handshake comes with the two cipher states, first the one
-- for messages from the initiator.
pub record Noise (Handshake Cipher : Type 0) : Type 0 where
  pub generate_keypair : Bytes → Option KeyPair
  pub new_state : Bool → KeyPair → Bytes → Option Handshake
  pub write_message : Handshake → Option (Bytes × Option (Cipher × Cipher)) × Handshake
  pub read_message : Bytes → Handshake → Option (Option (Cipher × Cipher)) × Handshake
  pub seal : Bytes → Cipher → Option Bytes × Cipher
  pub unseal : Bytes → Cipher → Option Bytes × Cipher

-- NoiseSession.
pub record Session (Cipher : Type 0) : Type 0 where
  pub send : Cipher
  pub recv : Cipher

pub data NoiseError : Type 0 where
  generate_failed new_state_failed write_failed send_failed read_failed process_failed : NoiseError
  incomplete encrypt_failed decrypt_failed : NoiseError

abbrev pub or_error {ℓ} : {A : Type ℓ} → NoiseError → Option A → Result NoiseError A
or_error e (some a) = ok a
or_error e none = err e

-- GenerateKeyPair.
unfoldable pub generate_key_pair :
    {Handshake Cipher : Type 0} → Noise Handshake Cipher → Option Bytes → Result NoiseError KeyPair
generate_key_pair n none = err generate_failed
generate_key_pair n (some random) = or_error generate_failed (n.generate_keypair random)

module _ {Handshake Cipher : Type 0} (n : Noise Handshake Cipher) where
  -- NoiseSession.Encrypt and Decrypt, with the session that they leave.
  unfoldable pub encrypt : Bytes → Session Cipher → Result NoiseError Bytes × Session Cipher
  encrypt plaintext s =
      let (r, c) = n.seal plaintext s.send in (or_error encrypt_failed r, record s { send = c })

  unfoldable pub decrypt : Bytes → Session Cipher → Result NoiseError Bytes × Session Cipher
  decrypt ciphertext s =
      let (r, c) = n.unseal ciphertext s.recv in (or_error decrypt_failed r, record s { recv = c })
