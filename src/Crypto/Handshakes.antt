-- ===== src/Crypto/Handshakes.antt =====
-- InitiateHandshake and ProcessHandshake (server/internal/cryptogrpc/server.go): the handshakes that
-- the service keeps, by the hexadecimal form of their ids. A call works on the handshake that the map
-- points to, so what it leaves is in the map; two calls at once for one id are not modelled.
use fproto.Base.{
  Bool, true, false, Option, none, some, [], Bytes, Result, ok, err, ltb, if◌then◌else◌, length,
  Map, lookup, assign, unassign, encode_to_string, ◌≡◌, refl, lookup-assign, lookup-unassign, ◌∙◌,
  ap,
}
use fproto.Message.{len_of, bytes_of}
use fproto.Noise.{KeyPair, Noise}
use fproto.Noise.Agreement.{Exchange, IsXx}

-- The status codes that the calls return, and the panic of serializeCipherStates.
pub data HandshakeError : Type 0 where
  init_failed no_state_id state_not_found read_refused write_refused random_panic : HandshakeError

pub record HandshakeResponse : Type 0 where
  pub response_payload : Bytes
  pub completed : Bool
  pub crypto_state : Bytes

-- serializeCipherStates, which takes no notice of the cipher states: 64 bytes of the random source.
unfoldable pub serialize_cipher_states :
    {Cipher : Type 0} → Option Bytes → Cipher × Cipher → Result HandshakeError Bytes
serialize_cipher_states (some placeholder) ciphers = ok placeholder
serialize_cipher_states none ciphers = err random_panic

abbrev pub completed_with :
    Bytes → Result HandshakeError Bytes → Result HandshakeError HandshakeResponse
completed_with payload (ok state) =
    ok (record { response_payload = payload; completed = true; crypto_state = state })
completed_with payload (err e) = err e

module _ {Handshake Cipher : Type 0} (n : Noise Handshake Cipher) where
  -- The handshakes that the service keeps.
  abbrev pub Pending : Type 0
  Pending = Map Handshake

  abbrev pub Answer : Type 0
  Answer = Result HandshakeError HandshakeResponse × Pending

  -- With the random bytes of the handshake and those of the id.
  unfoldable pub initiate_handshake :
      KeyPair → Bool → Bytes → Option Bytes → Pending → Result HandshakeError Bytes × Pending
  initiate_handshake key is_initiator random id p = set_up (n.new_state is_initiator key random) id
    where
      set_up : Option Handshake → Option Bytes → Result HandshakeError Bytes × Pending
      set_up none i = (err init_failed, p)
      set_up (some hs) none = (err no_state_id, p)
      set_up (some hs) (some i) = (ok i, assign (encode_to_string i) hs p)

  -- The end of the call, from WriteMessage on.
  abbrev pub wrote :
      Option Bytes
      → Bytes
      → Option (Bytes × Option (Cipher × Cipher)) × Handshake
      → Pending
      → Answer
  wrote random key (none, hs) p = (err write_refused, assign key hs p)
  wrote random key (some (m, some ciphers), hs) p =
      (completed_with m (serialize_cipher_states random ciphers), unassign key p)
  wrote random key (some (m, none), hs) p =
      (ok (record { response_payload = m; completed = false; crypto_state = [] }), assign key hs p)

  -- After ReadMessage.
  abbrev pub was_read :
      Option Bytes → Bytes → Option (Option (Cipher × Cipher)) × Handshake → Pending → Answer
  was_read random key (none, hs) p = (err read_refused, assign key hs p)
  was_read random key (some (some ciphers), hs) p =
      (completed_with [] (serialize_cipher_states random ciphers), unassign key p)
  was_read random key (some none, hs) p = wrote random key (n.write_message hs) p

  abbrev pub with_state : Option Bytes → Bytes → Option Bytes → Option Handshake → Pending → Answer
  with_state random key payload none p = (err state_not_found, p)
  with_state random key payload (some hs) p =
      if ltb 0 (len_of payload)
      then was_read random key (n.read_message (bytes_of payload) hs) p
      else wrote random key (n.write_message hs) p

  -- ProcessHandshake, with the random bytes that serializeCipherStates would draw.
  unfoldable pub process_handshake : Option Bytes → Option Bytes → Option Bytes → Pending → Answer
  process_handshake random id payload p =
      let key = encode_to_string (bytes_of id) in with_state random key payload (lookup key p) p

  abbrev pub unfinished : Bytes → HandshakeResponse
  unfinished m = record { response_payload = m; completed = false; crypto_state = [] }

  abbrev pub finished_with : Bytes → Bytes → HandshakeResponse
  finished_with m state = record { response_payload = m; completed = true; crypto_state = state }

  -- The payload of a response as the next request brings it.
  abbrev pub payload_of : Answer → Option Bytes
  payload_of (ok r, p) = some r.response_payload
  payload_of (err e, p) = none

  -- A handshake between two services, each with its id, its handshakes and its random source: the first
  -- is asked for the first message, and each response is brought to the other. The last answers.
  unfoldable pub handshake_between :
      (a b : Bytes) (random_a random_b : Option Bytes) → Pending → Pending → Answer × Answer
  handshake_between a b random_a random_b p q =
      let a1 : Answer = process_handshake random_a (some a) none p in
      let b1 : Answer = process_handshake random_b (some b) (payload_of a1) q in
      let a2 : Answer = process_handshake random_a (some a) (payload_of b1) a1.1 in
      let b2 : Answer = process_handshake random_b (some b) (payload_of a2) b1.1 in (a2, b2)

  -- Every message that the library writes has bytes.
  abbrev pub WritesBytes : Type 0
  WritesBytes =
      (hs left : Handshake) (m : Bytes) (c : Option (Cipher × Cipher))
      → n.write_message hs ≡ (some (m, c), left)
      → ltb 0 (length m) ≡ true

  -- The four calls of a handshake between two services.
  module _ (Paired : Cipher → Cipher → Type 0) (a b state_a state_b : Bytes) (p q : Pending)
      (client server : Handshake) (full : WritesBytes)
      (hp : lookup (encode_to_string a) p ≡ some client)
      (hq : lookup (encode_to_string b) q ≡ some server) where
    -- What is left in the end.
    abbrev Ends : Handshake → Handshake → Bytes → Answer × Answer → Type 0
    Ends c s m r = r ≡ (
      (
        ok (finished_with m state_a),
        unassign (encode_to_string a) (assign (encode_to_string a) c p),
      ),
      (
        ok (finished_with [] state_b),
        unassign (encode_to_string b) (assign (encode_to_string b) s q),
      ),
    )

    joined :
        {m1 m2 m3 : Bytes} {p1 q1 p2 q2 : Pending}
        → process_handshake (some state_a) (some a) none p ≡ (ok (unfinished m1), p1)
        → process_handshake (some state_b) (some b) (some m1) q ≡ (ok (unfinished m2), q1)
        → process_handshake (some state_a) (some a) (some m2) p1
          ≡ (ok (finished_with m3 state_a), p2)
        → process_handshake (some state_b) (some b) (some m3) q1
          ≡ (ok (finished_with [] state_b), q2)
        → handshake_between a b (some state_a) (some state_b) p q
          ≡ ((ok (finished_with m3 state_a), p2), (ok (finished_with [] state_b), q2))
    unfolding handshake_between
    joined e1 e2 e3 e4 = rw e1 (rw e2 (rw e3 (rw e4 refl)))

    calls :
        Exchange n Paired client server
        → (c s : Handshake) × (m : Bytes) × Ends c s m
            (handshake_between a b (some state_a) (some state_b) p q)
    unfolding process_handshake serialize_cipher_states
    calls (m1, m2, m3, c1, c2, c3, s1, s2, s3, out, back, to, from, w1, r1, w2, r2, w3, r3, _, _) =
        let ka : Bytes = encode_to_string a in
        let kb : Bytes = encode_to_string b in
        let e1 : process_handshake (some state_a) (some a) none p
            ≡ (ok (unfinished m1), assign ka c1 p) =
          rw hp (rw w1 refl) in
        let e2 : process_handshake (some state_b) (some b) (some m1) q
            ≡ (ok (unfinished m2), assign kb s2 q) =
          rw (hq, full client c1 m1 none w1) (rw r1 (rw w2 refl)) in
        let e3 : process_handshake (some state_a) (some a) (some m2) (assign ka c1 p)
            ≡ (ok (finished_with m3 state_a), unassign ka (assign ka c1 p)) =
          rw (lookup-assign ka c1 p, full s1 s2 m2 none w2) (rw r2 (rw w3 refl)) in
        let e4 : process_handshake (some state_b) (some b) (some m3) (assign kb s2 q)
            ≡ (ok (finished_with [] state_b), unassign kb (assign kb s2 q)) =
          rw (lookup-assign kb s2 q, full c2 c3 m3 (some (out, back)) w3) (rw r3 refl) in
        (c1, s2, m3, joined e1 e2 e3 e4)

initiated :
    {Handshake Cipher : Type 0} (n : Noise Handshake Cipher) (key : KeyPair) (is_initiator : Bool)
    (random id : Bytes) (p : Pending n) (hs : Handshake)
    → n.new_state is_initiator key random ≡ some hs
    → lookup (encode_to_string id) (initiate_handshake n key is_initiator random (some id) p).1
      ≡ some hs
unfolding initiate_handshake
initiated n key is_initiator random id p hs h = rw h (lookup-assign (encode_to_string id) hs p)

-- With a library that follows the pattern XX and writes no empty message, and random sources that work:
-- a handshake between two services that InitiateHandshake set up, one of them as the initiator,
-- completes on both sides and leaves neither id in the map. But the crypto states that the two return
-- are the random bytes that each of them drew, whatever the cipher states are.
pub handshake_between-random :
    {Handshake Cipher : Type 0} (n : Noise Handshake Cipher) (Paired : Cipher → Cipher → Type 0)
    (key_a key_b : KeyPair) (random_a random_b a b state_a state_b : Bytes) (p q : Pending n)
    (client server : Handshake)
    → IsXx n Paired
    → WritesBytes n
    → n.new_state true key_a random_a ≡ some client
    → n.new_state false key_b random_b ≡ some server
    → let p1 : Pending n = (initiate_handshake n key_a true random_a (some a) p).1 in
      let q1 : Pending n = (initiate_handshake n key_b false random_b (some b) q).1 in
      let r : Answer n × Answer n = handshake_between n a b (some state_a) (some state_b) p1 q1 in
      (m : Bytes) × (r.0.0 ≡ ok (finished_with n m state_a))
      × (r.1.0 ≡ ok (finished_with n [] state_b))
      × (lookup (encode_to_string a) r.0.1 ≡ none)
      × (lookup (encode_to_string b) r.1.1 ≡ none)
handshake_between-random n Paired key_a key_b random_a random_b a b state_a state_b p q client
      server x full hc hs =
    let p1 : Pending n = (initiate_handshake n key_a true random_a (some a) p).1 in
    let q1 : Pending n = (initiate_handshake n key_b false random_b (some b) q).1 in
    let (c, s, m, e) =
      calls n Paired a b state_a state_b p1 q1 client server full
        (initiated n key_a true random_a a p client hc)
        (initiated n key_b false random_b b q server hs)
        (x.exchange key_a key_b random_a random_b client server hc hs) in
    (
      m,
      ap (λ r. r.0.0) e,
      ap (λ r. r.1.0) e,
      ap (λ r. lookup (encode_to_string a) r.0.1) e
          ∙ lookup-unassign (encode_to_string a) (assign (encode_to_string a) c p1),
      ap (λ r. lookup (encode_to_string b) r.1.1) e
          ∙ lookup-unassign (encode_to_string b) (assign (encode_to_string b) s q1),
    )
