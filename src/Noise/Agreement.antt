-- ===== src/Noise/Agreement.antt =====
-- What the two ends of a handshake agree on, and what they then read of each other's messages.
use fproto.Base.{
  ◌≡◌, refl, ◌⊎◌, inl, inr, Bool, true, false, Option, none, some, List, [], ◌∷◌, Bytes, Result, ok,
  err,
}
use fproto.Noise.{KeyPair, Noise, Session, NoiseError, encrypt_failed, encrypt, decrypt}
use fproto.Noise.Conversations.{connect, ◌>>=◌}
use fproto.Noise.Handshakes.{server_handshake, client_handshake}

module _ {Handshake Cipher : Type 0} (n : Noise Handshake Cipher) where
  -- The pattern XX between an initiator and a responder: three messages, and cipher states of which
  -- those for one direction are paired.
  abbrev pub Exchange : (Cipher → Cipher → Type 0) → Handshake → Handshake → Type 0
  Exchange Paired client server =
      (m1 m2 m3 : Bytes) × (c1 c2 c3 s1 s2 s3 : Handshake) × (out back to from : Cipher)
      × (n.write_message client ≡ (some (m1, none), c1))
      × (n.read_message m1 server ≡ (some none, s1))
      × (n.write_message s1 ≡ (some (m2, none), s2))
      × (n.read_message m2 c1 ≡ (some none, c2))
      × (n.write_message c2 ≡ (some (m3, some (out, back)), c3))
      × (n.read_message m3 s2 ≡ (some (some (from, to)), s3))
      × Paired out from
      × Paired to back

  -- What is relied on of the library. A handshake that two new states start follows the pattern; what
  -- one of two paired cipher states seals, the other unseals, and they stay paired; and an error of
  -- Encrypt leaves them paired.
  pub record IsXx (Paired : Cipher → Cipher → Type 0) : Type 0 where
    pub exchange :
        (client_key server_key : KeyPair) (client_random server_random : Bytes)
        (client server : Handshake)
        → n.new_state true client_key client_random ≡ some client
        → n.new_state false server_key server_random ≡ some server
        → Exchange Paired client server
    pub unseal-seal :
        (c d c' : Cipher) (plaintext ciphertext : Bytes)
        → Paired c d
        → n.seal plaintext c ≡ (some ciphertext, c')
        → ((n.unseal ciphertext d).0 ≡ some plaintext) × Paired c' (n.unseal ciphertext d).1
    pub seal_failed :
        (c d c' : Cipher) (plaintext : Bytes)
        → Paired c d
        → n.seal plaintext c ≡ (none, c')
        → Paired c' d

  abbrev pub Matched : (Cipher → Cipher → Type 0) → Session Cipher → Session Cipher → Type 0
  Matched Paired a b = Paired a.send b.recv × Paired b.send a.recv

  pub connect-handshakes :
      (Paired : Cipher → Cipher → Type 0) (client_key server_key : KeyPair)
      (client_random server_random : Bytes) (client server : Handshake)
      → n.new_state true client_key client_random ≡ some client
      → n.new_state false server_key server_random ≡ some server
      → Exchange Paired client server
      → (a b : Session Cipher) × (connect
            (client_handshake n client_key client_random)
            (server_handshake n server_key server_random)
          ≡ some (ok a, ok b))
        × Matched Paired a b
  unfolding client_handshake server_handshake connect ◌>>=◌
  connect-handshakes Paired client_key server_key client_random server_random client server hc hs
        (m1, m2, m3, c1, c2, c3, s1, s2, s3, out, back, to, from, w1, r1, w2, r2, w3, r3, p, q) =
      (
        record { send = out; recv = back },
        record { send = to; recv = from },
        rw (hc, hs)
            (rw w1 (
              rw (r1, connect)
                (rw (w2, connect) (rw (r2, connect) (rw (w3, connect) (rw (r3, connect) refl)))))),
        (p, q),
      )

  abbrev delivered :
      Result NoiseError Bytes × Session Cipher
      → Session Cipher
      → Result NoiseError Bytes × Session Cipher × Session Cipher
  delivered (ok ciphertext, a) b = let (r, left) = decrypt n ciphertext b in (r, a, left)
  delivered (err e, a) b = (err e, a, b)

  -- One message from the end `a` to the end `b`: what `b` reads, and both sessions.
  unfoldable pub say :
      Bytes
      → Session Cipher
      → Session Cipher
      → Result NoiseError Bytes × Session Cipher × Session Cipher
  say plaintext a b = delivered (encrypt n plaintext a) b

  -- A conversation: each message with whether the client says it, and what the other end reads.
  unfoldable pub talk :
      List (Bool × Bytes) → Session Cipher → Session Cipher → List (Result NoiseError Bytes)
  talk [] client server = []
  talk ((true, m) ∷ ms) client server =
      let (r, client', server') = say m client server in r ∷ talk ms client' server'
  talk ((false, m) ∷ ms) client server =
      let (r, server', client') = say m server client in r ∷ talk ms client' server'

  -- Each message is read as it was, unless the end that says it could not encrypt it.
  abbrev pub Understood : List (Bool × Bytes) → List (Result NoiseError Bytes) → Type 0
  Understood [] [] = Unit
  Understood ((who, m) ∷ ms) (r ∷ rs) = ((r ≡ ok m) ⊎ (r ≡ err encrypt_failed)) × Understood ms rs
  Understood _ _ = ⊥

  module _ (Paired : Cipher → Cipher → Type 0) (x : IsXx Paired) where
    say-Matched :
        (m : Bytes) (a b : Session Cipher)
        → Matched Paired a b
        → (((say m a b).0 ≡ ok m) ⊎ ((say m a b).0 ≡ err encrypt_failed))
          × Matched Paired (say m a b).1 (say m a b).2
    unfolding say encrypt decrypt
    say-Matched m a b (p, q) = sealed (n.seal m a.send) refl
      where
        sealed :
            (r : Option Bytes × Cipher)
            → n.seal m a.send ≡ r
            → (((say m a b).0 ≡ ok m) ⊎ ((say m a b).0 ≡ err encrypt_failed))
              × Matched Paired (say m a b).1 (say m a b).2
        sealed (none, c) h = rw h (inr refl, (x.seal_failed a.send b.recv c m p h, q))
        sealed (some ct, c) h =
            let (e, p') = x.unseal-seal a.send b.recv c m ct p h in rw (h, e) (inl refl, (p', q))

    talk-Understood :
        (ms : List (Bool × Bytes)) (client server : Session Cipher)
        → Matched Paired client server
        → Understood ms (talk ms client server)
    unfolding talk
    talk-Understood [] client server h = tt
    talk-Understood ((true, m) ∷ ms) client server h =
        let (r, h') = say-Matched m client server h in (r, talk-Understood ms _ _ h')
    talk-Understood ((false, m) ∷ ms) client server (p, q) =
        let (r, (q', p')) = say-Matched m server client (q, p) in
        (r, talk-Understood ms _ _ (p', q'))

-- With a library that follows the pattern XX, and states that it sets up for the two keys:
-- ClientHandshake and ServerHandshake connected to each other both succeed, and in any conversation
-- over their sessions each end reads every message as the other said it, in whatever order the ends
-- speak, but for those that the library could not encrypt.
pub handshake-Understood :
    {Handshake Cipher : Type 0} (n : Noise Handshake Cipher) (Paired : Cipher → Cipher → Type 0)
    (client_key server_key : KeyPair) (client_random server_random : Bytes)
    (client server : Handshake)
    → IsXx n Paired
    → n.new_state true client_key client_random ≡ some client
    → n.new_state false server_key server_random ≡ some server
    → (a b : Session Cipher) × (connect
          (client_handshake n client_key client_random)
          (server_handshake n server_key server_random)
        ≡ some (ok a, ok b))
      × ((ms : List (Bool × Bytes)) → Understood n ms (talk n ms a b))
handshake-Understood n Paired client_key server_key client_random server_random client server x hc
      hs =
    let (a, b, e, m) =
      connect-handshakes n Paired client_key server_key client_random server_random client server hc
        hs (x.exchange client_key server_key client_random server_random client server hc hs) in
    (a, b, e, λ ms. talk-Understood n Paired x ms a b m)
