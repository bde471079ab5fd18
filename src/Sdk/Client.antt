-- ===== src/Sdk/Client.antt =====
-- sdk/go/client.go. A transport is known by a number; what it reads and whether it writes is a
-- parameter, a script. The mutex lets one call at a time in.
use fproto.Base.{
  ℕ, ◌≡◌, refl, Bool, true, false, ◌||◌, Option, none, some, List, [], ◌∷◌, Bytes, Result, ok, err,
  if◌then◌else◌,
}
use fproto.Noise
use fproto.Noise.{KeyPair, Noise, Session, NoiseError}
use fproto.Noise.Conversations.{Io, done, read, write}
use fproto.Noise.Handshakes.{sdk_client_handshake}

-- What each read of a transport gives, `none` for an error, and whether each write succeeds. A read or
-- a write that is not listed fails.
pub record Script : Type 0 where
  pub reads : List (Option Bytes)
  pub writes : List Bool

abbrev next_read : List (Option Bytes) → Option Bytes × List (Option Bytes)
next_read [] = (none, [])
next_read (m ∷ ms) = (m, ms)

abbrev next_write : List Bool → Bool × List Bool
next_write [] = (false, [])
next_write (b ∷ bs) = (b, bs)

-- Code over a transport with a script.
unfoldable pub follow : {E A : Type 0} → Io E A → List (Option Bytes) → List Bool → Result E A
follow (done r) reads writes = r
follow (read k) reads writes = let (m, left) = next_read reads in follow (k m) left writes
follow (write m k) reads writes = let (sent, left) = next_write writes in follow (k sent) reads left

-- A nil session is dereferenced: a run-time panic.
pub data ClientError : Type 0 where
  dial_failed not_connected write_failed read_failed close_failed nil_session cancelled :
      ClientError
  handshake_failed noise_failed : NoiseError → ClientError

module _ {Handshake Cipher : Type 0} (n : Noise Handshake Cipher) where
  pub record Client : Type 0 where
    pub conn : Option ℕ
    pub session : Option (Session Cipher)
    pub key : KeyPair
    pub closed : Bool

  -- New.
  abbrev pub new : KeyPair → Client
  new key = record { conn = none; session = none; key = key; closed = false }

  -- What Connect meets: the transport that dial gives, its script, and the random source.
  pub record Attempt : Type 0 where
    pub dialed : Option ℕ
    pub script : Script
    pub random : Bytes

  -- The answer of Connect, the client, and the transports that it closed.
  abbrev pub Connected : Type 0
  Connected = Result ClientError (Unit {0}) × Client × List ℕ

  abbrev pub with_session : ℕ → Client → Result NoiseError (Session Cipher) → Connected
  with_session t c (ok s) =
      (ok tt, record c { conn = some t; session = some s; closed = false }, [])
  with_session t c (err e) = (err (handshake_failed e), record c { conn = some t }, t ∷ [])

  abbrev pub shake_hands : Attempt → Client → Result NoiseError (Session Cipher)
  shake_hands a c = follow (sdk_client_handshake n c.key a.random) a.script.reads a.script.writes

  unfoldable pub connect : Attempt → Client → Connected
  connect a c = elim a.dialed [
    | none ↦ (err dial_failed, c, [])
    | some t ↦ with_session t c (shake_hands a c)
  ]

  -- The message that is put on the transport.
  abbrev pub sent :
      Bool → Client → Result NoiseError Bytes × Session Cipher → Result ClientError Bytes × Client
  sent writes c (err e, s) = (err (noise_failed e), record c { session = some s })
  sent writes c (ok ct, s) =
      (if writes then ok ct else err write_failed, record c { session = some s })

  abbrev pub send_with :
      Bool → Bytes → Client → Option (Session Cipher) → Result ClientError Bytes × Client
  send_with writes plaintext c none = (err nil_session, c)
  send_with writes plaintext c (some s) = sent writes c (Noise.encrypt n plaintext s)

  abbrev pub is_none : Option ℕ → Bool
  is_none none = true
  is_none (some t) = false

  -- Send, and whether the transport writes: the ciphertext that it sends.
  unfoldable pub send : Bool → Bytes → Client → Result ClientError Bytes × Client
  send writes plaintext c =
      if c.closed || is_none c.conn
      then (err not_connected, c)
      else send_with writes plaintext c c.session

  abbrev pub opened :
      Client → Result NoiseError Bytes × Session Cipher → Result ClientError Bytes × Client
  opened c (err e, s) = (err (noise_failed e), record c { session = some s })
  opened c (ok m, s) = (ok m, record c { session = some s })

  abbrev pub receive_with :
      Option Bytes → Client → Option (Session Cipher) → Result ClientError Bytes × Client
  receive_with none c s = (err read_failed, c)
  receive_with (some ct) c none = (err nil_session, c)
  receive_with (some ct) c (some s) = opened c (Noise.decrypt n ct s)

  -- Receive, and what the transport reads. It does not look at `closed`.
  unfoldable pub receive : Option Bytes → Client → Result ClientError Bytes × Client
  receive message c =
      if is_none c.conn then (err not_connected, c) else receive_with message c c.session

  -- Close, and whether the transport closes without an error: the transports that it closed.
  unfoldable pub close : Bool → Client → Connected
  close closes c = elim c.conn [
    | none ↦ (ok tt, record c { closed = true }, [])
    | some t ↦ (if closes then ok tt else err close_failed, record c { closed = true }, t ∷ [])
  ]

  -- Where the handshake of a new client's Connect fails, Connect returns its error and closes the
  -- transport, but the client keeps it, open and without a session: the next Send panics.
  send_after_failed_handshake :
      (key : KeyPair) (a : Attempt) (t : ℕ) (e : NoiseError) (writes : Bool) (plaintext : Bytes)
      → a.dialed ≡ some t
      → shake_hands a (new key) ≡ err e
      → let r : Connected = connect a (new key) in
        (r.0 ≡ err (handshake_failed e))
        × (r.2 ≡ t ∷ [])
        × ((send writes plaintext r.1).0 ≡ err nil_session)
  unfolding connect send
  send_after_failed_handshake key a t e writes plaintext hd hs =
      (rw hd (rw hs refl), rw hd (rw hs refl), rw hd (rw hs refl))
