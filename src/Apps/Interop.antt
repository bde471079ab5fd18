-- ===== src/Apps/Interop.antt =====
-- The echo server of the interoperability tests (starters/interop/server.go), with the client of the
-- starter program (starters/go/main.go) at its other end.
use mathlib.Core.Path.{fun_ext}
use fproto.Base.{
  ℕ, zero, suc, ◌≡◌, ◌<◌, refl, ap, ◌∙◌, false, true, some, List, [], ◌∷◌, Bytes, ok, err, length,
  arith,
}
use fproto.Noise
use fproto.Noise.{KeyPair, Noise, Session, NoiseError, send_failed, read_failed}
use fproto.Noise.Agreement.{IsXx}
use fproto.Noise.Conversations.{Io, ◌>>=◌, ◌>>◌, read_or, write_or, lift, connect}
use fproto.Noise.Handshakes.{client_handshake, server_handshake}
use fproto.Gateway.Replies.{Seals}
use fproto.Apps.Starter.{MarshalReply, replies_to, serve, exchange, starter_replies}

abbrev pub same : MarshalReply
same pt now = some pt

abbrev times_of : ℕ → List ℕ
times_of zero = []
times_of (suc k) = 0 ∷ times_of k

module _ {Handshake Cipher : Type 0} (n : Noise Handshake Cipher) where
  -- The first rounds of the server's loop.
  unfoldable pub echo : ℕ → Session Cipher → Io NoiseError (Unit {0})
  echo zero s = lift (ok tt)
  echo (suc k) s = do
    ct ← read_or read_failed
    let decrypted = Noise.decrypt n ct s
    pt ← lift decrypted.0
    let encrypted = Noise.encrypt n pt decrypted.1
    enc ← lift encrypted.0
    write_or send_failed enc
    echo k encrypted.1

  echo-serve : (k : ℕ) (s : Session Cipher) → echo k s ≡ serve n same (times_of k) s
  unfolding echo serve
  echo-serve zero s = refl
  echo-serve (suc k) s =
      ap (λ f. read_or read_failed >>= f)
        (fun_ext λ ct.
          let decrypted = Noise.decrypt n ct s in
          ap (λ f. lift decrypted.0 >>= f)
            (fun_ext λ pt.
              let encrypted = Noise.encrypt n pt decrypted.1 in
              ap (λ rest. lift encrypted.0 >>= λ enc. write_or send_failed enc >> rest)
                (echo-serve k encrypted.1)))

length-times_of : (k : ℕ) → length (times_of k) ≡ k
length-times_of zero = refl
length-times_of (suc k) = ap suc (length-times_of k)

replies_to-same :
    (msgs : List Bytes) (k : ℕ) → length msgs < k → replies_to same msgs (times_of k) ≡ msgs
replies_to-same [] k h = refl
replies_to-same (m ∷ ms) zero h = absurd (omega arith)
replies_to-same (m ∷ ms) (suc k) h = ap (λ r. m ∷ r) (replies_to-same ms k (omega arith))

-- The handshakes of the starter program's client and of the echo server succeed, and then the client
-- gets its own messages back, in order, and the server, if it has more rounds than there are messages,
-- ends when the client is gone.
pub interop_echoes :
    {Handshake Cipher : Type 0} (n : Noise Handshake Cipher) (Paired : Cipher → Cipher → Type 0)
    (client_key server_key : KeyPair) (client_random server_random : Bytes)
    (client server : Handshake) (msgs : List Bytes) (rounds : ℕ)
    → IsXx n Paired
    → Seals n
    → n.new_state true client_key client_random ≡ some client
    → n.new_state false server_key server_random ≡ some server
    → length msgs < rounds
    → (a b : Session Cipher) × (connect
          (client_handshake n client_key client_random)
          (server_handshake n server_key server_random)
        ≡ some (ok a, ok b))
      × (connect (exchange n [] msgs a) (echo n rounds b) ≡ some (ok msgs, err read_failed))
interop_echoes n Paired ck sk cr sr client server msgs rounds x seals hc hs h =
    let enough : length msgs < length (times_of rounds) = rw (length-times_of rounds) h in
    let (a, b, e, replies) =
      starter_replies n Paired same ck sk cr sr client server msgs (times_of rounds) x seals hc hs
        enough in
    (
      a,
      b,
      e,
      ap (λ server. connect (exchange n [] msgs a) server) (echo-serve n rounds b)
          ∙ replies
          ∙ ap (λ l. some (ok l, err read_failed)) (replies_to-same msgs rounds h),
    )
