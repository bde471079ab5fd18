-- ===== src/Apps/Starter.antt =====
-- The starter program (starters/go/main.go): what its server and its client do after the handshake, as
-- trees of reads and writes. log.Fatalf ends the client with its error.
use mathlib.Core.List.{append-nil, append_assoc}
use fproto.Base.{
  ℕ, ◌≡◌, ◌<◌, true, false, ap, sym, ◌∙◌, ◌++◌, Option, some, List, [], ◌∷◌, arith, Bytes, ok, err,
  length, codes,
}
use fproto.Message.{bytes_of}
use fproto.Noise
use fproto.Noise.{KeyPair, Noise, Session, NoiseError, send_failed, read_failed, encrypt, decrypt}
use fproto.Noise.Agreement.{IsXx, Matched, connect-handshakes}
use fproto.Noise.Conversations.{Io, ◌>>=◌, ◌>>◌, read_or, write_or, lift, connect}
use fproto.Noise.Handshakes.{client_handshake, server_handshake}
use fproto.Gateway.Replies.{Seals}

-- json.Marshal of the map with the echo and the timestamp.
abbrev pub MarshalReply : Type 0
MarshalReply = Bytes → ℕ → Option Bytes

-- The messages of runClient.
abbrev pub messages : List Bytes
messages = codes "Hello FProto!" ∷ codes "Encrypted message" ∷ codes "Goodbye!" ∷ []

abbrev pub replies_to : MarshalReply → List Bytes → List ℕ → List Bytes
replies_to marshal [] times = []
replies_to marshal (msg ∷ msgs) [] = []
replies_to marshal (msg ∷ msgs) (now ∷ times) =
    bytes_of (marshal msg now) ∷ replies_to marshal msgs times

module _ {Handshake Cipher : Type 0} (n : Noise Handshake Cipher) where
  -- The first rounds of the server's loop, each with its time; an error of Marshal is dropped and
  -- leaves nil.
  unfoldable pub serve : MarshalReply → List ℕ → Session Cipher → Io NoiseError (Unit {0})
  serve marshal [] s = lift (ok tt)
  serve marshal (now ∷ times) s = do
    ct ← read_or read_failed
    let decrypted = Noise.decrypt n ct s
    pt ← lift decrypted.0
    let encrypted = Noise.encrypt n (bytes_of (marshal pt now)) decrypted.1
    enc ← lift encrypted.0
    write_or send_failed enc
    serve marshal times encrypted.1

  -- The client's loop over its messages, with the replies that it has logged.
  unfoldable pub exchange : List Bytes → List Bytes → Session Cipher → Io NoiseError (List Bytes)
  exchange logged [] s = lift (ok logged)
  exchange logged (msg ∷ msgs) s = do
    let encrypted = Noise.encrypt n msg s
    ct ← lift encrypted.0
    write_or send_failed ct
    reply_ct ← read_or read_failed
    let decrypted = Noise.decrypt n reply_ct encrypted.1
    reply_pt ← lift decrypted.0
    exchange (logged ++ (reply_pt ∷ [])) msgs decrypted.1

  module _ (Paired : Cipher → Cipher → Type 0) (x : IsXx n Paired) (seals : Seals n)
      (marshal : MarshalReply) where
    sends_sealed :
        (m : Bytes) (a : Session Cipher)
        → (ct : Bytes) × (c' : Cipher) × (Noise.encrypt n m a ≡ (ok ct, record a { send = c' }))
          × (n.seal m a.send ≡ (some ct, c'))
    unfolding encrypt
    sends_sealed m a = let (ct, c', e) = seals m a.send in (ct, c', rw e, e)

    reads_sealed :
        (m ct : Bytes) (a b : Session Cipher) (c' : Cipher)
        → Paired a.send b.recv
        → n.seal m a.send ≡ (some ct, c')
        → (d' : Cipher) × (Noise.decrypt n ct b ≡ (ok m, record b { recv = d' })) × Paired c' d'
    unfolding decrypt
    reads_sealed m ct a b c' p e =
        let (u, p') = x.unseal-seal a.send b.recv c' m ct p e in ((n.unseal ct b.recv).1, rw u, p')

    exchange-serve :
        (logged msgs : List Bytes) (times : List ℕ) (a b : Session Cipher)
        → Matched n Paired a b
        → length msgs < length times
        → connect (exchange logged msgs a) (serve marshal times b)
          ≡ some (ok (logged ++ replies_to marshal msgs times), err read_failed)
    unfolding exchange serve connect ◌>>=◌
    exchange-serve logged msgs [] a b m h = absurd (omega arith)
    exchange-serve logged [] (now ∷ times) a b m h =
        ap (λ l. some (ok l, err read_failed)) (sym (append-nil logged))
    exchange-serve logged (msg ∷ msgs) (now ∷ times) a b (p, q) h =
        let reply : Bytes = bytes_of (marshal msg now) in
        let (ct, c', e, e') = sends_sealed msg a in
        let (d', u, p') = reads_sealed msg ct a b c' p e' in
        let b' : Session Cipher = record b { recv = d' } in
        let a' : Session Cipher = record a { send = c' } in
        let (ct2, c2, f, f') = sends_sealed reply b' in
        let (d2, v, q') = reads_sealed reply ct2 b' a' c2 q f' in
        rw (e, connect)
          (rw (u, connect)
            (rw (f, connect)
              (rw (v, connect)
                (exchange-serve (logged ++ (reply ∷ [])) msgs times
                    (record { send = c'; recv = d2 }) (record { send = c2; recv = d' }) (p', q')
                    (omega arith)
                  ∙ ap (λ l. some (ok l, err read_failed))
                      (append_assoc logged (reply ∷ []) (replies_to marshal msgs times))))))

-- The handshakes of the two ends succeed, and then the client gets the reply to each of its messages, in
-- order, and the server, if it has more rounds than there are messages, ends when the client is gone.
pub starter_replies :
    {Handshake Cipher : Type 0} (n : Noise Handshake Cipher) (Paired : Cipher → Cipher → Type 0)
    (marshal : MarshalReply) (client_key server_key : KeyPair) (client_random server_random : Bytes)
    (client server : Handshake) (msgs : List Bytes) (times : List ℕ)
    → IsXx n Paired
    → Seals n
    → n.new_state true client_key client_random ≡ some client
    → n.new_state false server_key server_random ≡ some server
    → length msgs < length times
    → (a b : Session Cipher) × (connect
          (client_handshake n client_key client_random)
          (server_handshake n server_key server_random)
        ≡ some (ok a, ok b))
      × (connect (exchange n [] msgs a) (serve n marshal times b)
          ≡ some (ok (replies_to marshal msgs times), err read_failed))
starter_replies n Paired marshal ck sk cr sr client server msgs times x seals hc hs h =
    let (a, b, e, m) =
      connect-handshakes n Paired ck sk cr sr client server hc hs
        (x.exchange ck sk cr sr client server hc hs) in
    (a, b, e, exchange-serve n Paired x seals marshal [] msgs times a b m h)
