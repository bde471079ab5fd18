-- ===== src/Transport/Framing.antt =====
-- The framing of QUIC streams: ReadMessage and WriteMessage of proto-core/transport/quic.go, and
-- of sdk/go/transport.go, whose reader has no limit. A stream to read from is the list of the
-- bytes that still arrive before it ends. quic-go's Write is a parameter: each call's outcome.
pub mod RoundTrip
use fproto.Base.{
  ℕ, zero, suc, ◌≡◌, ◌%◌, ◌^◌, Bool, true, false, Option, none, some, List, [], ◌∷◌, ◌++◌, arith,
  Bytes, Result, ok, err, ltb, leb, if◌then◌else◌, length, take, drop, put_uint32_be, uint32_be,
  wrap, ◌>>=◌, ◌>>◌,
}

abbrev pub quic_max_msg_size : ℕ
quic_max_msg_size = 65536

pub data FrameError : Type 0 where
  read_length read_payload write_length write_payload : FrameError
  message_too_large : ℕ → FrameError

-- io.ReadFull with a buffer of n bytes: the bytes, and what is left of the stream.
unfoldable pub read_full : ℕ → Bytes → Option (Bytes × Bytes)
read_full n s = if leb n (length s) then some (take n s, drop n s) else none

-- binary.BigEndian.Uint32 of a buffer of four bytes.
unfoldable pub uint32_of : Bytes → ℕ
unfolding uint32_be
uint32_of (a ∷ b ∷ c ∷ d ∷ r) = uint32_be a b c d
uint32_of _ = 0

abbrev or_fail {ℓ} : {A : Type ℓ} → FrameError → Option A → Result FrameError A
or_fail e none = err e
or_fail e (some a) = ok a

-- The second half of ReadMessage: the payload.
unfoldable pub read_payload_of : ℕ → Bytes → Result FrameError (Bytes × Bytes)
unfolding read_full
read_payload_of n s = or_fail read_payload (read_full n s)

-- QUICConn.ReadMessage: the message, and what is left of the stream.
unfoldable pub read_message : Bytes → Result FrameError (Bytes × Bytes)
read_message s = do
  (len_buf, s') ← or_fail read_length (read_full 4 s)
  let msg_len = uint32_of len_buf
  if ltb quic_max_msg_size msg_len
      then err (message_too_large msg_len)
      else read_payload_of msg_len s'

-- quicTransport.ReadMessage of the Go SDK.
unfoldable pub sdk_read_message : Bytes → Result FrameError (Bytes × Bytes)
sdk_read_message s = do
  (len_buf, s') ← or_fail read_length (read_full 4 s)
  read_payload_of (uint32_of len_buf) s'

-- The outcome of one call of Write: all bytes, or an error after the first n of them.
pub data WriteOutcome : Type 0 where
  written : WriteOutcome
  failed_after : ℕ → WriteOutcome

-- What stands on the wire after a Write, and whether it failed.
unfoldable pub stream_write :
    WriteOutcome → FrameError → Bytes → Bytes → Result FrameError (Unit {0}) × Bytes
stream_write written e buf wire = (ok tt, wire ++ buf)
stream_write (failed_after n) e buf wire = (err e, wire ++ take n buf)

-- The header: uint32(len(data)) wraps.
unfoldable pub header : Bytes → Bytes
unfolding put_uint32_be
header buf = put_uint32_be (length buf % 2 ^ 32)

-- WriteMessage, the same in both packages.
unfoldable pub write_message :
    WriteOutcome → WriteOutcome → Bytes → Bytes → Result FrameError (Unit {0}) × Bytes
unfolding stream_write
write_message o₁ o₂ buf wire =
    let (r, wire') = stream_write o₁ write_length (header buf) wire in
    elim r [ ok u ↦ stream_write o₂ write_payload buf wire' | err e ↦ (err e, wire') ]
