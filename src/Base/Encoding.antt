-- ===== src/Base/Encoding.antt =====
-- What the code uses of encoding/hex and encoding/binary.
use Prim.Native.Nat.{ℕ, zero, suc, ◌+◌, ◌-◌, ◌*◌, ◌/◌, ◌%◌, ◌^◌, ◌<◌}
use mathlib.Core.Path.{◌≡◌, refl, ap}
use mathlib.Core.Bool.{◌&&◌}
use mathlib.Core.List.{[], ◌∷◌}
use mathlib.Core.Option.{Option, none, some}
use native.Mathlib.Omega.{arith}
use native.Mathlib.Nat.{pow-suc}
use fproto.Base.Tests.{ltb, leb, if◌then◌else◌}
use fproto.Base.ByteStrings.{Bytes, IsBytes}
use fproto.Base.Lists.{length}

-- A hexadecimal digit, in lower case.
unfoldable pub hex_digit : ℕ → ℕ
hex_digit d = if ltb d 10 then b'0' + d else b'a' + (d - 10)

-- hex.EncodeToString.
unfoldable pub encode_to_string : Bytes → Bytes
unfolding hex_digit
encode_to_string [] = []
encode_to_string (b ∷ bs) = hex_digit (b / 16) ∷ hex_digit (b % 16) ∷ encode_to_string bs

-- The value of a hexadecimal digit of either case.
unfoldable pub from_hex_char : ℕ → Option ℕ
from_hex_char c =
    if leb b'0' c && leb c b'9'
    then some (c - b'0')
    else if leb b'a' c && leb c b'f'
    then some (c - b'a' + 10)
    else if leb b'A' c && leb c b'F'
    then some (c - b'A' + 10)
    else none

abbrev join_digits : Option ℕ → Option ℕ → Option Bytes → Option Bytes
join_digits (some h) (some l) (some bs) = some ((h * 16 + l) ∷ bs)
join_digits _ _ _ = none

-- hex.DecodeString; `none` is its error (an odd length or a byte that is no digit).
unfoldable pub decode_string : Bytes → Option Bytes
decode_string [] = some []
decode_string (x ∷ []) = none
decode_string (x ∷ y ∷ r) = join_digits (from_hex_char x) (from_hex_char y) (decode_string r)

pub from_hex_char-hex_digit : (d : ℕ) → d < 16 → from_hex_char (hex_digit d) ≡ some d
unfolding from_hex_char hex_digit
from_hex_char-hex_digit d h = ground arith

-- Decoding what was encoded gives the bytes back.
pub decode_string-encode_to_string :
    (bs : Bytes) → IsBytes bs → decode_string (encode_to_string bs) ≡ some bs
unfolding decode_string encode_to_string
decode_string-encode_to_string [] h = refl
decode_string-encode_to_string (b ∷ bs) h =
    rw
      (
        from_hex_char-hex_digit (b / 16) (omega arith),
        from_hex_char-hex_digit (b % 16) (omega arith),
        decode_string-encode_to_string bs h.1,
      )
      (ap some (ap (λ x. x ∷ bs) (omega arith)))

pub length-encode_to_string : (bs : Bytes) → length (encode_to_string bs) ≡ 2 * length bs
unfolding encode_to_string
length-encode_to_string [] = refl
length-encode_to_string (b ∷ bs) = omega (arith, length-encode_to_string bs)

-- binary.BigEndian.PutUint32 and Uint32.
unfoldable pub put_uint32_be : ℕ → Bytes
put_uint32_be n = n / 2 ^ 24 % 256 ∷ n / 2 ^ 16 % 256 ∷ n / 2 ^ 8 % 256 ∷ n % 256 ∷ []

unfoldable pub uint32_be : ℕ → ℕ → ℕ → ℕ → ℕ
uint32_be a b c d = a * 2 ^ 24 + b * 2 ^ 16 + c * 2 ^ 8 + d

pub uint32_be-put_uint32_be :
    (n : ℕ)
    → n < 2 ^ 32
    → uint32_be (n / 2 ^ 24 % 256) (n / 2 ^ 16 % 256) (n / 2 ^ 8 % 256) (n % 256) ≡ n
unfolding uint32_be
uint32_be-put_uint32_be n h = omega arith

-- binary.LittleEndian.PutUint64: `k` bytes, the least significant first.
unfoldable pub put_le : ℕ → ℕ → Bytes
put_le zero n = []
put_le (suc k) n = n % 256 ∷ put_le k (n / 256)

abbrev pub put_uint64_le : ℕ → Bytes
put_uint64_le n = put_le 8 n

-- The number that such bytes stand for.
unfoldable pub of_le : Bytes → ℕ
of_le [] = 0
of_le (b ∷ bs) = b + 256 * of_le bs

pub length-put_le : (k n : ℕ) → length (put_le k n) ≡ k
unfolding put_le
length-put_le zero n = refl
length-put_le (suc k) n = ap suc (length-put_le k (n / 256))

pub of_le-put_le : (k n : ℕ) → n < 256 ^ k → of_le (put_le k n) ≡ n
unfolding put_le of_le
of_le-put_le zero n h = omega arith
of_le-put_le (suc k) n h =
    rw (of_le-put_le k (n / 256) (omega (arith, pow-suc 256 k))) (omega arith)
