-- ===== src/SenderKeys/Streams.antt =====
-- Streams of messages in a group: the sender keeps the chain key that Encrypt returns, and a member the
-- one that Decrypt returns (server/internal/senderkeys).
use fproto.Base.{
  ℕ, ◌≡◌, refl, true, Option, some, List, [], ◌∷◌, map, Bytes, Result, ok, length, ◌>>=◌, All,
}
use fproto.Crypto.Aead.{nonce_size}
use fproto.SenderKeys.Keys.{
  Primitives, SenderKeyError, SenderKey, ratchet, ratchet_n, to_distribution, from_distribution,
  private_key_size, public_key_size,
}
use fproto.SenderKeys.Messages.{
  EncryptedMessage, encrypt, decrypt, message_of, encrypt_lem, decrypt-message_of,
}

-- Each message with its random nonce.
unfoldable pub send :
    Primitives
    → Bytes
    → ℕ
    → Bytes
    → List (Bytes × Bytes)
    → Result SenderKeyError (List EncryptedMessage × Bytes)
send p signing_key key_id chain [] = ok ([], chain)
send p signing_key key_id chain ((nonce, plaintext) ∷ ts) = do
  (msg, next) ← encrypt p chain signing_key key_id (some nonce) plaintext
  (msgs, final) ← send p signing_key key_id next ts
  ok (msg ∷ msgs, final)

unfoldable pub receive :
    Primitives → Bytes → Bytes → List EncryptedMessage → Result SenderKeyError (List Bytes × Bytes)
receive p public_key chain [] = ok ([], chain)
receive p public_key chain (msg ∷ msgs) = do
  (plaintext, next) ← decrypt p chain public_key msg
  (plaintexts, final) ← receive p public_key next msgs
  ok (plaintext ∷ plaintexts, final)

-- What a stream of messages reaches on both sides.
abbrev pub Delivered : Primitives → Bytes → ℕ → Bytes → Bytes → List (Bytes × Bytes) → Type 0
Delivered p signing_key key_id public_key chain ts =
    let final : Bytes = (ratchet_n p chain (length ts)).0 in
    (msgs : List EncryptedMessage) × (send p signing_key key_id chain ts ≡ ok (msgs, final))
    × (receive p public_key chain msgs ≡ ok (map (λ t. t.1) ts, final))

module _ (p : Primitives) (signing_key : Bytes) (key_id : ℕ) (public_key : Bytes)
    (private_size : length signing_key ≡ private_key_size)
    (public_size : length public_key ≡ public_key_size)
    (verifies : (m : Bytes) → p.verify public_key m (p.sign signing_key m) ≡ true) where
  stream :
      (chain : Bytes) (ts : List (Bytes × Bytes))
      → All (λ t. length t.0 ≡ nonce_size) ts
      → Delivered p signing_key key_id public_key chain ts
  unfolding send receive ratchet_n
  stream chain [] h = ([], refl, refl)
  stream chain ((nonce, plaintext) ∷ ts) h =
      let (msgs, s, r) = stream (ratchet p chain).0 ts h.1 in
      (
        message_of p chain signing_key key_id nonce plaintext ∷ msgs,
        rw (encrypt_lem p chain signing_key key_id nonce plaintext private_size, s) refl,
        rw
            (
              decrypt-message_of p chain signing_key public_key key_id nonce plaintext public_size
                  h.0 verifies,
              r,
            )
            refl,
      )

-- For keys of Ed25519's sizes whose signatures verify, and nonces of the cipher's size: a member that
-- starts from the sender's distribution decrypts every message of a stream, in order, to what the
-- sender encrypted, and both end with the chain key that RatchetN gives for the number of messages.
pub receive-send :
    (p : Primitives) (sk : SenderKey) (group sender : Option Bytes) (ts : List (Bytes × Bytes))
    → length sk.signing_key ≡ private_key_size
    → length sk.public_key ≡ public_key_size
    → ((m : Bytes) → p.verify sk.public_key m (p.sign sk.signing_key m) ≡ true)
    → All (λ t. length t.0 ≡ nonce_size) ts
    → let (key_id, chain, public) = from_distribution (to_distribution group sender sk) in
      let final : Bytes = (ratchet_n p sk.chain_key (length ts)).0 in
      (msgs : List EncryptedMessage) × (send p sk.signing_key sk.key_id sk.chain_key ts
        ≡ ok (msgs, final))
      × (receive p public chain msgs ≡ ok (map (λ t. t.1) ts, final))
receive-send p sk group sender ts private_size public_size verifies nonces =
    stream p sk.signing_key sk.key_id sk.public_key private_size public_size verifies sk.chain_key
      ts nonces
