-- ===== src/Apps/Frames.antt =====
-- The frames inside the encrypted messages of the examples: a type, the length of the payload in four
-- bytes, and the payload (messages.go of examples/finance-orders, notifications, game-realtime and
-- iot-telemetry). decodeFrame is the same in the first three; decodeMessage is that of the last.
use native.Mathlib.Nat.{mod-eq_of_lt}
use fproto.Message.{bytes_of}
use fproto.Noise
use fproto.Noise.{Noise, Session, NoiseError}
use fproto.Base.{
  Result, ok, err, ℕ, ◌≡◌, ◌<◌, ◌+◌, ◌-◌, ◌%◌, ◌^◌, refl, ap, Option, none, some, List, [], ◌∷◌,
  ◌++◌, ◌||◌, arith, Bytes, ltb, if◌then◌else◌, length, length-append, take, take_all,
  take-length_append, put_uint32_be, uint32_be, uint32_be-put_uint32_be,
}

-- encoding/json for one type: Marshal, and Unmarshal into a zero value. Both can fail.
pub record Json {ℓ} (A : Type ℓ) : Type ℓ where
  pub marshal : A → Option Bytes
  pub unmarshal : Bytes → Option A

-- What is marshalled unmarshals to the value that it was.
abbrev pub ReadsBack {ℓ} : {A : Type ℓ} → Json A → Type ℓ
ReadsBack {A = A} j = (a : A) (b : Bytes) → j.marshal a ≡ some b → j.unmarshal b ≡ some a

-- The message that is made from a payload: uint32(len(payload)) wraps.
unfoldable pub frame : ℕ → Bytes → Bytes
unfolding put_uint32_be
frame kind payload = kind ∷ (put_uint32_be (length payload % 2 ^ 32) ++ payload)

-- The encode functions: nil and an error where Marshal fails.
abbrev pub encoded : ℕ → Option Bytes → Option Bytes
encoded kind none = none
encoded kind (some payload) = some (frame kind payload)

abbrev payload_within : ℕ → ℕ → Bytes → Option (ℕ × Bytes)
payload_within kind n rest = if ltb (length rest) n then none else some (kind, take n rest)

-- decodeFrame.
unfoldable pub decode_frame : Bytes → Option (ℕ × Bytes)
unfolding uint32_be
decode_frame (kind ∷ a ∷ b ∷ c ∷ d ∷ rest) = payload_within kind (uint32_be a b c d) rest
decode_frame _ = none

-- A slice: its elements, and those of its array behind them.
pub record Slice : Type 0 where
  pub elements : Bytes
  pub behind : Bytes

-- What decodeMessage returns, or its panic.
pub data Decoded : Type 0 where
  decoded : ℕ → Bytes → Decoded
  out_of_range : Decoded

-- data[5 : 5+payloadLen], where the sum is a uint32 and a slice may reach to the end of its array.
abbrev pub payload_of : ℕ → ℕ → Bytes → Decoded
payload_of kind n rest =
    let high = (5 + n) % 2 ^ 32 in
    if ltb high 5 || ltb (5 + length rest) high
    then out_of_range
    else decoded kind (take (high - 5) rest)

-- decodeMessage: what is too short has the type 0, and is no error.
unfoldable pub decode_elements : Bytes → Bytes → Decoded
unfolding uint32_be
decode_elements (kind ∷ a ∷ b ∷ c ∷ d ∷ rest) behind =
    payload_of kind (uint32_be a b c d) (rest ++ behind)
decode_elements _ behind = decoded 0 []

abbrev pub decode_message : Slice → Decoded
decode_message s = decode_elements s.elements s.behind

-- What was put in a frame is taken out of it.
pub decode_frame-frame :
    (kind : ℕ) (payload : Bytes)
    → length payload < 2 ^ 32
    → decode_frame (frame kind payload) ≡ some (kind, payload)
unfolding decode_frame frame
decode_frame-frame kind payload h =
    rw (uint32_be-put_uint32_be (length payload % 2 ^ 32) (omega arith), mod-eq_of_lt h)
      (ground (arith, take_all (length payload) payload (omega arith)))

pub decode_elements-frame :
    (kind : ℕ) (payload behind : Bytes)
    → length payload + 5 < 2 ^ 32
    → decode_elements (frame kind payload) behind ≡ decoded kind payload
unfolding decode_elements frame
decode_elements-frame kind payload behind h =
    rw
      (
        uint32_be-put_uint32_be (length payload % 2 ^ 32) (omega arith),
        mod-eq_of_lt {n = length payload} {m = 2 ^ 32} (omega arith),
      )
      (ground (
        arith,
        length-append payload behind,
        mod-eq_of_lt {n = 5 + length payload} {m = 2 ^ 32} (omega arith),
        take-length_append payload behind,
      ))

-- A frame that claims more than there is makes decodeMessage panic.
pub decode_elements-out_of_range :
    (kind a b c d : ℕ) (rest behind : Bytes)
    → uint32_be a b c d < 2 ^ 32
    → length rest + length behind < uint32_be a b c d
    → decode_elements (kind ∷ a ∷ b ∷ c ∷ d ∷ rest) behind ≡ out_of_range
unfolding decode_elements
decode_elements-out_of_range kind a b c d rest behind h k =
    ground (arith, length-append rest behind)

-- How the loop over the messages of a connection ends.
pub data Ending : Type 0 where
  closed undecryptable panicked : Ending

-- What the loop passes to WriteMessage, how it ends, and the shared state that it leaves.
abbrev pub Served : Type 0 → Type 0
Served S = List Bytes × Ending × S

abbrev pub sends : {S : Type 0} → Bytes → Served S → Served S
sends m (ms, e, s) = (m ∷ ms, e, s)

abbrev or_nil : {S : Type 0} → Result NoiseError Bytes × S → Bytes × S
or_nil (ok ct, s) = (ct, s)
or_nil (err e, s) = ([], s)

-- An answer, encrypted; errors of the encoding and of Encrypt are dropped and leave nil.
abbrev pub sealed :
    {Handshake Cipher : Type 0}
    → Noise Handshake Cipher
    → Option Bytes
    → Session Cipher
    → Bytes × Session Cipher
sealed n answer s = or_nil (Noise.encrypt n (bytes_of answer) s)

or_nil-state : {S : Type 0} (p : Result NoiseError Bytes × S) → (or_nil p).1 ≡ p.1
or_nil-state (ok ct, s) = refl
or_nil-state (err e, s) = refl

-- An answer leaves the cipher state for messages from the client as it was.
pub sealed-recv :
    {Handshake Cipher : Type 0} (n : Noise Handshake Cipher) (answer : Option Bytes)
    (s : Session Cipher)
    → (sealed n answer s).1.recv ≡ s.recv
unfolding Noise.encrypt
sealed-recv n answer s = ap (λ s'. s'.recv) (or_nil-state (Noise.encrypt n (bytes_of answer) s))
