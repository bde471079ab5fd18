-- ===== src/Transport/Framing/RoundTrip.antt =====
-- Reading back what was written, and where the two ends disagree.
use mathlib.Core.List.{append_assoc, append-nil}
use fproto.Base.{
  ℕ, zero, suc, ◌+◌, ◌-◌, ◌≤◌, ◌<◌, ◌^◌, ◌≡◌, refl, ◌∙◌, inl, inr, some, List, [], ◌∷◌, ◌++◌, arith,
  Bytes, Result, ok, err, ltb, if◌then◌else◌, length, take, put_uint32_be, uint32_be, All,
  length-append, take-length_append, drop-length_append, subst, lt→ltb, ltb→lt, length-take,
  Bool-cases, ◌>>=◌,
}
use fproto.Transport.Framing
use fproto.Transport.Framing.{
  FrameError, read_length, read_payload, message_too_large, quic_max_msg_size, read_full, uint32_of,
  read_payload_of, read_message, sdk_read_message, WriteOutcome, written, failed_after,
  stream_write, header, write_message,
}

-- A whole frame.
unfoldable pub frame : Bytes → Bytes
frame buf = header buf ++ buf

uint32_of-header : (buf : Bytes) → length buf < 2 ^ 32 → uint32_of (header buf) ≡ length buf
unfolding uint32_of header put_uint32_be uint32_be
uint32_of-header buf h = omega arith

length-header : (buf : Bytes) → length (header buf) ≡ 4
unfolding header put_uint32_be
length-header buf = refl

read_full-append : (s rest : Bytes) → read_full (length s) (s ++ rest) ≡ some (s, rest)
unfolding read_full
read_full-append s rest =
    rw (take-length_append s rest, drop-length_append s rest) (ground (arith, length-append s rest))

read_full-header : (buf rest : Bytes) → read_full 4 (header buf ++ rest) ≡ some (header buf, rest)
read_full-header buf rest =
    subst (λ n. read_full n (header buf ++ rest) ≡ some (header buf, rest)) (length-header buf)
      (read_full-append (header buf) rest)

read_payload_of-append :
    (buf rest : Bytes) → read_payload_of (length buf) (buf ++ rest) ≡ ok (buf, rest)
unfolding read_payload_of
read_payload_of-append buf rest = rw (read_full-append buf rest)

module _ (buf : Bytes) (small : length buf < 2 ^ 32) (rest : Bytes) where
  read_message-split : read_message (header buf ++ rest) ≡ (
      if ltb quic_max_msg_size (length buf)
      then err (message_too_large (length buf))
      else read_payload_of (length buf) rest)
  unfolding read_message
  read_message-split = rw (read_full-header buf rest, uint32_of-header buf small)

  sdk_read_message-split : sdk_read_message (header buf ++ rest) ≡ read_payload_of (length buf) rest
  unfolding sdk_read_message
  sdk_read_message-split = rw (read_full-header buf rest, uint32_of-header buf small)

module _ (buf : Bytes) (small : length buf < 2 ^ 32) (rest : Bytes) where
  read_message-frame_split : read_message (frame buf ++ rest) ≡ (
      if ltb quic_max_msg_size (length buf)
      then err (message_too_large (length buf))
      else read_payload_of (length buf) (buf ++ rest))
  unfolding frame
  read_message-frame_split = rw (append_assoc, read_message-split buf small (buf ++ rest))

  sdk_read_message-frame_split :
      sdk_read_message (frame buf ++ rest) ≡ read_payload_of (length buf) (buf ++ rest)
  unfolding frame
  sdk_read_message-frame_split = rw (append_assoc, sdk_read_message-split buf small (buf ++ rest))

-- A frame within the limit is read back, and what follows it is left.
pub read_message-frame :
    (buf rest : Bytes)
    → length buf ≤ quic_max_msg_size
    → read_message (frame buf ++ rest) ≡ ok (buf, rest)
read_message-frame buf rest h =
    rw (read_message-frame_split buf (omega arith) rest)
      (ground (arith, read_payload_of-append buf rest))

write_message-frame :
    (buf wire : Bytes) → write_message written written buf wire ≡ (ok tt, wire ++ frame buf)
unfolding frame write_message
write_message-frame buf wire = rw append_assoc

-- WriteMessage called for each message in turn, every Write succeeding.
unfoldable pub write_all : List Bytes → Bytes → Bytes
write_all [] wire = wire
write_all (m ∷ ms) wire = write_all ms (write_message written written m wire).1

-- ReadMessage called n times.
unfoldable pub read_all : ℕ → Bytes → Result Framing.FrameError (List Bytes × Bytes)
read_all zero s = ok ([], s)
read_all (suc n) s = do (m, s') ← read_message s; (ms, s'') ← read_all n s'; ok (m ∷ ms, s'')

abbrev pub WithinLimit : Bytes → Type 0
WithinLimit m = length m ≤ quic_max_msg_size

unfoldable pub frames : List Bytes → Bytes
frames [] = []
frames (m ∷ ms) = frame m ++ frames ms

write_all-frames : (ms : List Bytes) (wire : Bytes) → write_all ms wire ≡ wire ++ frames ms
unfolding write_all frames
write_all-frames [] wire = rw append-nil
write_all-frames (m ∷ ms) wire =
    rw (write_message-frame m wire)
      (write_all-frames ms (wire ++ frame m) ∙ append_assoc wire (frame m) (frames ms))

read_all-frames :
    (ms : List Bytes) (rest : Bytes)
    → All WithinLimit ms
    → read_all (length ms) (frames ms ++ rest) ≡ ok (ms, rest)
unfolding read_all frames
read_all-frames [] rest h = refl
read_all-frames (m ∷ ms) rest h =
    rw (append_assoc, read_message-frame m (frames ms ++ rest) h.0, read_all-frames ms rest h.1)

-- Messages within the limit that WriteMessage put on a stream one after the other are what as many
-- calls of ReadMessage return, in the same order, whatever is on the stream behind them.
pub read_all-write_all :
    (ms : List Bytes) (rest : Bytes)
    → All WithinLimit ms
    → read_all (length ms) (write_all ms [] ++ rest) ≡ ok (ms, rest)
read_all-write_all ms rest h = rw (write_all-frames ms []) (read_all-frames ms rest h)

-- A message over the limit and shorter than 2 ^ 32 bytes is written without an error, refused by
-- the server's ReadMessage, and taken by the Go SDK's, which has no limit.
oversized_message :
    (buf rest : Bytes)
    → quic_max_msg_size < length buf
    → length buf < 2 ^ 32
    → let wire = (write_message written written buf []).1 in
      ((write_message written written buf []).0 ≡ ok tt)
      × (read_message (wire ++ rest) ≡ err (message_too_large (length buf)))
      × (sdk_read_message (wire ++ rest) ≡ ok (buf, rest))
oversized_message buf rest h small = rw (write_message-frame buf []) (
  refl,
  read_message-frame_split buf small rest ∙ rw (lt→ltb _ _ h),
  sdk_read_message-frame_split buf small rest ∙ read_payload_of-append buf rest,
)

read_payload_of_short : (n : ℕ) (s : Bytes) → length s < n → read_payload_of n s ≡ err read_payload
unfolding read_payload_of read_full
read_payload_of_short n s h = ground arith

read_message_short : (s : Bytes) → length s < 4 → read_message s ≡ err read_length
unfolding read_message read_full
read_message_short s h = ground arith

take-frame :
    (k : ℕ) (buf : Bytes) → take (suc (suc (suc (suc k)))) (frame buf) ≡ header buf ++ take k buf
unfolding frame header put_uint32_be
take-frame k buf = refl

-- A stream that ends inside a frame within the limit gives an error, which says whether the length
-- or the payload was cut, never a shorter message.
read_message_truncated :
    (k : ℕ) (buf : Bytes)
    → length buf ≤ quic_max_msg_size
    → k < 4 + length buf
    → read_message (take k (frame buf)) ≡ err (if ltb k 4 then read_length else read_payload)
read_message_truncated k buf small h = elim (Bool-cases (ltb k 4)) [
  | inl short ↦ rw short (read_message_short _ (omega (arith, length-take k (frame buf), ltb→lt)))
  | inr long ↦
      let e : k ≡ suc (suc (suc (suc (k - 4)))) = ground arith in
      rw (long, e, take-frame (k - 4) buf, read_message-split buf (omega arith) (take (k - 4) buf))
        (ground
          (arith, read_payload_of_short (length buf) (take (k - 4) buf), length-take (k - 4) buf))
]
