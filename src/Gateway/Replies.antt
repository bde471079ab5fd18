-- ===== src/Gateway/Replies.antt =====
-- What a client of the gateway (server/cmd/gateway/main.go) reads.
use mathlib.Core.Path.{ap₂}
use fproto.Base.{◌≡◌, refl, true, Option, none, some, List, [], ◌∷◌, map, Bytes, ok}
use fproto.Message.{bytes_of}
use fproto.Noise.{Noise, Session, encrypt, decrypt}
use fproto.Noise.Agreement.{IsXx, Matched}
use fproto.Gateway.{Gateway, dispatched, ack, echo, serve, handle_conn, answered}

-- The answer to each plaintext, and the dispatcher's state: an acknowledgement of what was dispatched,
-- and otherwise an echo.
module _ {D : Type 0} (gw : Gateway D) where
  abbrev pub reply_to : Bytes → Option (Option Bytes) × D → Bytes
  reply_to plaintext (some id, d) = ack gw id
  reply_to plaintext (none, d) = echo gw plaintext

  unfoldable pub answers : List Bytes → D → List Bytes × D
  answers [] d = ([], d)
  answers (t ∷ ts) d =
      let (replies, last) = answers ts (dispatched gw t d).1 in
      (reply_to t (dispatched gw t d) ∷ replies, last)

module _ {Handshake Cipher : Type 0} (n : Noise Handshake Cipher) where
  -- A client that seals each of its messages, and one that opens each of the replies.
  unfoldable pub seal_all : List Bytes → Cipher → List Bytes
  seal_all [] c = []
  seal_all (t ∷ ts) c = let (r, c') = n.seal t c in bytes_of r ∷ seal_all ts c'

  unfoldable pub open_all : List Bytes → Cipher → List (Option Bytes)
  open_all [] c = []
  open_all (m ∷ ms) c = let (r, c') = n.unseal m c in r ∷ open_all ms c'

  -- Encryption does not fail.
  abbrev pub Seals : Type 0
  Seals = (t : Bytes) (c : Cipher) → (ct : Bytes) × (c' : Cipher) × (n.seal t c ≡ (some ct, c'))

  module _ {D : Type 0} (gw : Gateway D) (Paired : Cipher → Cipher → Type 0) (x : IsXx n Paired)
      (seals : Seals) where
    abbrev Answered : List Bytes → Cipher → Cipher → Session Cipher → D → Type 0
    Answered ts c r s d =
        (open_all (serve gw n (map (λ m. (m, true)) (seal_all ts c)) s d).0 r
          ≡ map some (answers gw ts d).0)
        × ((serve gw n (map (λ m. (m, true)) (seal_all ts c)) s d).1 ≡ (answers gw ts d).1)

    -- All the rest of a conversation.
    abbrev Rest : List Bytes → Type 0
    Rest ts =
        (c r : Cipher) (s : Session Cipher) (d : D)
        → Paired c s.recv
        → Paired s.send r
        → Answered ts c r s d

    -- A reply that is sent, and the rest.
    replied :
        (t : Bytes) (ts : List Bytes) (c r : Cipher) (s : Session Cipher)
        → Rest ts
        → Paired c s.recv
        → Paired s.send r
        → (o : Option (Option Bytes) × D)
        → let served =
            answered gw n true t s o (serve gw n (map (λ m. (m, true)) (seal_all ts c))) in
          (open_all served.0 r ≡ some (reply_to gw t o) ∷ map some (answers gw ts o.1).0)
          × (served.1 ≡ (answers gw ts o.1).1)
    unfolding open_all encrypt
    replied t ts c r s rest p q (some id, d) =
        let (ct, c', e) = seals (ack gw id) s.send in
        let (u, q') = x.unseal-seal s.send r c' (ack gw id) ct q e in
        let (i, j) = rest c (n.unseal ct r).1 (record s { send = c' }) d p q' in
        rw e (ap₂ ◌∷◌ u i, j)
    replied t ts c r s rest p q (none, d) =
        let (ct, c', e) = seals (echo gw t) s.send in
        let (u, q') = x.unseal-seal s.send r c' (echo gw t) ct q e in
        let (i, j) = rest c (n.unseal ct r).1 (record s { send = c' }) d p q' in
        rw e (ap₂ ◌∷◌ u i, j)

    all_answered : (ts : List Bytes) → Rest ts
    unfolding serve seal_all open_all answers decrypt
    all_answered [] c r s d p q = (refl, refl)
    all_answered (t ∷ ts) c r s d p q =
        let (ct, c', e) = seals t c in
        let (u, p') = x.unseal-seal c s.recv c' t ct p e in
        let left : Session Cipher = record s { recv = (n.unseal ct s.recv).1 } in
        let both = replied t ts c' r left (all_answered ts) p' q (dispatched gw t d) in
        rw e (rw u both)

-- Over a session whose cipher states are paired with the client's, with a library that does not fail to
-- encrypt and writes that succeed: the client opens one reply to each of its messages, in order. Each
-- is the acknowledgement of the dispatcher for what the message carries, or an echo of the message
-- where there is no dispatcher, the message carries nothing that decodes, or the dispatcher fails; and
-- the dispatcher is called in the order of the messages.
pub gateway_answers :
    {Handshake Cipher D : Type 0} (n : Noise Handshake Cipher) (gw : Gateway D)
    (Paired : Cipher → Cipher → Type 0) (ts : List Bytes) (client server : Session Cipher) (d : D)
    → IsXx n Paired
    → Seals n
    → Matched n Paired client server
    → let served : List Bytes × D =
        handle_conn gw n (ok server) (map (λ m. (m, true)) (seal_all n ts client.send)) d in
      (open_all n served.0 client.recv ≡ map some (answers gw ts d).0)
      × (served.1 ≡ (answers gw ts d).1)
unfolding handle_conn
gateway_answers n gw Paired ts client server d x seals (p, q) =
    all_answered n gw Paired x seals ts client.send client.recv server d p q
