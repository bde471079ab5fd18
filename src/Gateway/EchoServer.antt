-- ===== src/Gateway/EchoServer.antt =====
-- handleConnection of the echo server (server/cmd/echo-server/main.go), after the upgrade.
use fproto.Base.{
  ◌≡◌, refl, ap, Bool, true, false, none, List, [], ◌∷◌, ◌++◌, Bytes, codes, Result, ok, err,
  if◌then◌else◌,
}
use fproto.Noise
use fproto.Noise.{Noise, Session, NoiseError}
use fproto.Gateway.{Gateway, serve, handle_conn, dispatched, opened, echoed}

module _ {Handshake Cipher : Type 0} (n : Noise Handshake Cipher) where
  -- The answer to what was encrypted; `rest` is the loop from there on.
  abbrev pub responded :
      Bool → Result NoiseError Bytes × Session Cipher → (Session Cipher → List Bytes) → List Bytes
  responded writes (err e, s) rest = []
  responded writes (ok encrypted, s) rest =
      let more = rest s in if writes then encrypted ∷ more else []

  abbrev pub received :
      Bool → Result NoiseError Bytes × Session Cipher → (Session Cipher → List Bytes) → List Bytes
  received writes (err e, s) rest = []
  received writes (ok plaintext, s) rest =
      responded writes (Noise.encrypt n (codes "echo: " ++ plaintext) s) rest

  -- The loop over what is read, each message with whether the write after it succeeds: what is sent.
  unfoldable pub serve_echo : List (Bytes × Bool) → Session Cipher → List Bytes
  serve_echo [] s = []
  serve_echo ((ciphertext, writes) ∷ ms) s =
      received writes (Noise.decrypt n ciphertext s) (serve_echo ms)

  unfoldable pub handle_connection :
      Result NoiseError (Session Cipher) → List (Bytes × Bool) → List Bytes
  handle_connection (err e) ms = []
  handle_connection (ok s) ms = serve_echo ms s

  module _ {D : Type 0} (gw : Gateway D) (alone : gw.dispatch ≡ none) where
    -- The loops go on alike.
    abbrev Alike : List (Bytes × Bool) → D → Type 0
    Alike ms d = (s : Session Cipher) → (serve gw n ms s d).0 ≡ serve_echo ms s

    echoed-responded :
        (writes : Bool) (ms : List (Bytes × Bool)) (d : D)
        → Alike ms d
        → (e : Result NoiseError Bytes × Session Cipher)
        → (echoed gw n writes d e (λ s. serve gw n ms s d)).0 ≡ responded writes e (serve_echo ms)
    echoed-responded writes ms d same (err e, s) = refl
    echoed-responded true ms d same (ok ct, s) = ap (λ rs. ct ∷ rs) (same s)
    echoed-responded false ms d same (ok ct, s) = refl

    dispatched-alone : (t : Bytes) (d : D) → dispatched gw t d ≡ (none, d)
    unfolding dispatched
    dispatched-alone t d = rw alone refl

    opened-received :
        (writes : Bool) (ms : List (Bytes × Bool)) (d : D)
        → Alike ms d
        → (p : Result NoiseError Bytes × Session Cipher)
        → (opened gw n writes p d (serve gw n ms)).0 ≡ received writes p (serve_echo ms)
    opened-received writes ms d same (err e, s) = refl
    opened-received writes ms d same (ok t, s) =
        rw (dispatched-alone t d)
          (echoed-responded writes ms d same (Noise.encrypt n (codes "echo: " ++ t) s))

    -- A gateway without a dispatcher sends what the echo server sends.
    serve-serve_echo :
        (ms : List (Bytes × Bool)) (s : Session Cipher) (d : D)
        → (serve gw n ms s d).0 ≡ serve_echo ms s
    unfolding serve serve_echo
    serve-serve_echo [] s d = refl
    serve-serve_echo ((ct, writes) ∷ ms) s d =
        opened-received writes ms d (λ s'. serve-serve_echo ms s' d) (Noise.decrypt n ct s)

    handle_conn-handle_connection :
        (r : Result NoiseError (Session Cipher)) (ms : List (Bytes × Bool)) (d : D)
        → (handle_conn gw n r ms d).0 ≡ handle_connection r ms
    unfolding handle_conn handle_connection
    handle_conn-handle_connection (err e) ms d = refl
    handle_conn-handle_connection (ok s) ms d = serve-serve_echo ms s d
