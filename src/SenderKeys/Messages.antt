-- ===== src/SenderKeys/Messages.antt =====
-- server/internal/senderkeys/encrypt.go and decrypt.go.
use fproto.Base.{
  subst, Bool-cases, ℕ, ◌≡◌, refl, sym, ap, ◌∙◌, Bool, true, false, Option, none, some, [], Bytes,
  Result, ok, err, ◌==◌, ==_iff, if◌then◌else◌, if_cases, length, wrap, ◌>>=◌, inl, inr,
}
use fproto.Crypto.Aead.{Aead, new_aead, nonce_size}
use fproto.SenderKeys.Keys.{
  Primitives, SenderKeyError, no_nonce, invalid_signature, cannot_open, panics, bad_cipher_key,
  ratchet, public_key_size, private_key_size,
}

pub record EncryptedMessage : Type 0 where
  pub key_id : ℕ
  pub ciphertext : Bytes
  pub nonce : Bytes
  pub signature : Bytes

abbrev pub or_error {ℓ} : {A : Type ℓ} → SenderKeyError → Option A → Result SenderKeyError A
or_error e (some a) = ok a
or_error e none = err e

-- ed25519.Sign, which panics for a private key of another size.
unfoldable pub sign_or_panic : Primitives → Bytes → Bytes → Result SenderKeyError Bytes
sign_or_panic p key message =
    if length key == private_key_size then ok (p.sign key message) else err panics

-- ed25519.Verify, which panics for a public key of another size.
unfoldable pub verify_or_panic : Primitives → Bytes → Bytes → Bytes → Result SenderKeyError Bool
verify_or_panic p key message signature =
    if length key == public_key_size then ok (p.verify key message signature) else err panics

-- aead.Open without associated data, which panics for a nonce of another size.
unfoldable pub open_or_panic : Aead → Bytes → Bytes → Result SenderKeyError Bytes
open_or_panic aead nonce ciphertext =
    if length nonce == nonce_size
    then or_error cannot_open (aead.open_sealed nonce ciphertext [])
    else err panics

-- Encrypt, with the random nonce: the message and the next chain key.
unfoldable pub encrypt :
    Primitives
    → Bytes
    → Bytes
    → ℕ
    → Option Bytes
    → Bytes
    → Result SenderKeyError (EncryptedMessage × Bytes)
encrypt p chain signing_key key_id random plaintext =
    let (next, key) = ratchet p chain in
    do
      aead ← wrap bad_cipher_key (new_aead p.cipher key)
      nonce ← or_error no_nonce random
      let ciphertext = aead.seal nonce plaintext []
      signature ← sign_or_panic p signing_key ciphertext
      ok (
        record { key_id = key_id; ciphertext = ciphertext; nonce = nonce; signature = signature },
        next,
      )

abbrev opened : Primitives → Bytes → EncryptedMessage → Result SenderKeyError (Bytes × Bytes)
opened p chain msg =
    let (next, key) = ratchet p chain in
    do
      aead ← wrap bad_cipher_key (new_aead p.cipher key)
      plaintext ← open_or_panic aead msg.nonce msg.ciphertext
      ok (plaintext, next)

-- Decrypt: the plaintext and the next chain key.
unfoldable pub decrypt :
    Primitives → Bytes → Bytes → EncryptedMessage → Result SenderKeyError (Bytes × Bytes)
decrypt p chain public_key msg = do
  valid ← verify_or_panic p public_key msg.ciphertext msg.signature
  if valid then opened p chain msg else err invalid_signature

-- The message that Encrypt makes of a plaintext with the nonce `nonce`.
abbrev pub message_of : Primitives → Bytes → Bytes → ℕ → Bytes → Bytes → EncryptedMessage
message_of p chain signing_key key_id nonce plaintext =
    let ciphertext = (p.cipher (ratchet p chain).1).seal nonce plaintext [] in
    record {
      key_id = key_id;
      ciphertext = ciphertext;
      nonce = nonce;
      signature = p.sign signing_key ciphertext;
    }

new_aead-message_key :
    (p : Primitives) (chain : Bytes)
    → new_aead p.cipher (ratchet p chain).1 ≡ ok (p.cipher (ratchet p chain).1)
unfolding new_aead ratchet
new_aead-message_key p chain = rw (p.length-hmac chain _) refl

-- With a private key of 64 bytes and a random source that works, Encrypt returns the message and the
-- next chain key.
pub encrypt_lem :
    (p : Primitives) (chain signing_key : Bytes) (key_id : ℕ) (nonce plaintext : Bytes)
    → length signing_key ≡ private_key_size
    → (encrypt p chain signing_key key_id (some nonce) plaintext
        ≡ ok (message_of p chain signing_key key_id nonce plaintext, (ratchet p chain).0))
unfolding encrypt sign_or_panic
encrypt_lem p chain signing_key key_id nonce plaintext h = rw (new_aead-message_key p chain, h) refl

-- What Encrypt made decrypts under the same chain key, to the plaintext and the same next chain key.
pub decrypt-message_of :
    (p : Primitives) (chain signing_key public_key : Bytes) (key_id : ℕ) (nonce plaintext : Bytes)
    → length public_key ≡ public_key_size
    → length nonce ≡ nonce_size
    → ((m : Bytes) → p.verify public_key m (p.sign signing_key m) ≡ true)
    → (decrypt p chain public_key (message_of p chain signing_key key_id nonce plaintext)
        ≡ ok (plaintext, (ratchet p chain).0))
unfolding decrypt verify_or_panic open_or_panic
decrypt-message_of p chain signing_key public_key key_id nonce plaintext hk hn v =
    rw (hk, v _)
      (rw (new_aead-message_key p chain, hn)
        (rw ((p.cipher (ratchet p chain).1).open_sealed-seal nonce plaintext []) refl))

ok_injective {ℓ} : {E : Type 0} {A : Type ℓ} {a b : A} → ◌≡◌ {A = Result E A} (ok a) (ok b) → a ≡ b
ok_injective h = cc

-- A message under a nonce of another length passes the check of its signature, and Decrypt panics.
panics_at :
    (p : Primitives) (chain signing_key public_key : Bytes) (key_id : ℕ)
    (nonce plaintext other : Bytes)
    → length public_key ≡ public_key_size
    → ((m : Bytes) → p.verify public_key m (p.sign signing_key m) ≡ true)
    → (length other == nonce_size) ≡ false
    → (decrypt p chain public_key
          (record (message_of p chain signing_key key_id nonce plaintext) { nonce = other })
        ≡ err panics)
unfolding decrypt verify_or_panic open_or_panic
panics_at p chain signing_key public_key key_id nonce plaintext other hk v hn =
    rw (hk, v _) (rw (new_aead-message_key p chain, hn) refl)

-- Encrypt returns a message only with a private key of 64 bytes.
encrypt-ok :
    (p : Primitives) (chain signing_key : Bytes) (key_id : ℕ) (nonce plaintext next : Bytes)
    (msg : EncryptedMessage)
    → encrypt p chain signing_key key_id (some nonce) plaintext ≡ ok (msg, next)
    → ◌≡◌ {A = EncryptedMessage × Bytes}
        (message_of p chain signing_key key_id nonce plaintext, (ratchet p chain).0)
        (msg, next)
unfolding encrypt sign_or_panic
encrypt-ok p chain signing_key key_id nonce plaintext next msg h =
    let k = rw (new_aead-message_key p chain) at h in
    elim (Bool-cases (length signing_key == private_key_size)) [
      | inl g ↦ ok_injective (rw g at k)
      | inr g ↦ let k' = rw g at k in absurd cc
    ]

-- The signature does not cover the nonce. What Encrypt returns decrypts to the plaintext under the public
-- key of its private key; the same message with only its nonce replaced, by one of another length,
-- makes Decrypt panic.
pub decrypt-other_nonce :
    (p : Primitives) (chain signing_key public_key : Bytes) (key_id : ℕ)
    (nonce plaintext other next : Bytes) (msg : EncryptedMessage)
    → length public_key ≡ public_key_size
    → ((m : Bytes) → p.verify public_key m (p.sign signing_key m) ≡ true)
    → length nonce ≡ nonce_size
    → (length other == nonce_size) ≡ false
    → encrypt p chain signing_key key_id (some nonce) plaintext ≡ ok (msg, next)
    → (decrypt p chain public_key msg ≡ ok (plaintext, next))
      × (decrypt p chain public_key (record msg { nonce = other }) ≡ err panics)
decrypt-other_nonce p chain signing_key public_key key_id nonce plaintext other next msg hk v hn ho
      h =
    subst
      (λ r.
        (decrypt p chain public_key r.0 ≡ ok (plaintext, r.1))
        × (decrypt p chain public_key (record (r.0) { nonce = other }) ≡ err panics))
      (encrypt-ok p chain signing_key key_id nonce plaintext next msg h)
      (
        decrypt-message_of p chain signing_key public_key key_id nonce plaintext hk hn v,
        panics_at p chain signing_key public_key key_id nonce plaintext other hk v ho,
      )

bind-ok {ℓ κ} :
    {E : Type 0} {A : Type ℓ} {B : Type κ} (m : Result E A) (f : A → Result E B) {b : B}
    → (m >>= f) ≡ ok b
    → (a : A) × (m ≡ ok a) × (f a ≡ ok b)
bind-ok (ok a) f h = (a, refl, h)
bind-ok (err e) f h = absurd cc

open_or_panic-ok :
    (aead : Aead) (nonce ciphertext plaintext : Bytes)
    → open_or_panic aead nonce ciphertext ≡ ok plaintext
    → (length nonce ≡ nonce_size) × (aead.open_sealed nonce ciphertext [] ≡ some plaintext)
unfolding open_or_panic
open_or_panic-ok aead nonce ciphertext plaintext h =
    elim (if_cases (length nonce == nonce_size) h) [
      | inl (g, k) ↦
          ((==_iff (length nonce) nonce_size).0 g, some_of (aead.open_sealed nonce ciphertext []) k)
      | inr (_, k) ↦ absurd cc
    ]
  where
    some_of : (o : Option Bytes) → or_error cannot_open o ≡ ok plaintext → o ≡ some plaintext
    some_of (some a) k = cc
    some_of none k = absurd cc

verified :
    (p : Primitives) (key message signature : Bytes) (valid : Bool)
    → verify_or_panic p key message signature ≡ ok valid
    → p.verify key message signature ≡ valid
unfolding verify_or_panic
verified p key message signature valid h = elim (if_cases (length key == public_key_size) h) [
  | inl (_, k) ↦ ok_injective k
  | inr (_, k) ↦ absurd cc
]

opened-ok :
    (p : Primitives) (chain plaintext next : Bytes) (msg : EncryptedMessage)
    → opened p chain msg ≡ ok (plaintext, next)
    → (length msg.nonce ≡ nonce_size)
      × ((p.cipher (ratchet p chain).1).open_sealed msg.nonce msg.ciphertext [] ≡ some plaintext)
      × (next ≡ (ratchet p chain).0)
opened-ok p chain plaintext next msg h =
    let (aead, q, k) = bind-ok (wrap bad_cipher_key (new_aead p.cipher (ratchet p chain).1)) _ h in
    let (a, o, r) = bind-ok (open_or_panic aead msg.nonce msg.ciphertext) _ k in
    let e : aead ≡ p.cipher (ratchet p chain).1 =
      ok_injective (sym q ∙ ap (wrap bad_cipher_key) (new_aead-message_key p chain)) in
    let (n, c) = open_or_panic-ok aead msg.nonce msg.ciphertext a o in
    let same : a ≡ plaintext = cc in
    (n, ap (λ x. x.open_sealed msg.nonce msg.ciphertext []) (sym e) ∙ c ∙ ap some same, cc)

-- Where Decrypt returns a plaintext, the signature of the ciphertext was valid, the nonce has the
-- cipher's size, the ciphertext opens to that plaintext under the message key of the chain key, and
-- the chain key returned is the next one.
pub decrypt-ok :
    (p : Primitives) (chain public_key plaintext next : Bytes) (msg : EncryptedMessage)
    → decrypt p chain public_key msg ≡ ok (plaintext, next)
    → (p.verify public_key msg.ciphertext msg.signature ≡ true)
      × (length msg.nonce ≡ nonce_size)
      × ((p.cipher (ratchet p chain).1).open_sealed msg.nonce msg.ciphertext [] ≡ some plaintext)
      × (next ≡ (ratchet p chain).0)
unfolding decrypt
decrypt-ok p chain public_key plaintext next msg h =
    let (valid, v, k) = bind-ok (verify_or_panic p public_key msg.ciphertext msg.signature) _ h in
    elim (if_cases valid k) [
      | inl (t, o) ↦
          let (n, c, e) = opened-ok p chain plaintext next msg o in
          (verified p public_key msg.ciphertext msg.signature valid v ∙ t, n, c, e)
      | inr (_, o) ↦ absurd cc
    ]
