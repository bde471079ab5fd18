-- ===== src/Crypto/Rekey.antt =====
-- proto-core/crypto/rekey.go and zeroize.go. HKDF-SHA256 is a parameter: the bytes that the reader
-- of hkdf.New(sha256.New, key, nil, "proto-rekey") delivers first, or its error.
use fproto.Base.{
  ℕ, ◌≡◌, refl, ap, Option, none, some, [], ◌∷◌, Bytes, codes, Result, ok, err, length, replicate,
}

pub data RekeyError : Type 0 where
  empty_current_key hkdf_failed : RekeyError

-- io.ReadFull on hkdf.New(sha256.New, key, nil, info) with a buffer of n bytes.
abbrev pub Hkdf : Type 0
Hkdf = Bytes → Bytes → ℕ → Option Bytes

abbrev pub rekey_info : Bytes
rekey_info = codes "proto-rekey"

abbrev pub rekey_len : ℕ
rekey_len = 32

abbrev or_hkdf_error : Option Bytes → Result RekeyError Bytes
or_hkdf_error (some k) = ok k
or_hkdf_error none = err hkdf_failed

unfoldable pub rekey : Hkdf → Bytes → Result RekeyError Bytes
rekey hkdf [] = err empty_current_key
rekey hkdf (b ∷ bs) = or_hkdf_error (hkdf (b ∷ bs) rekey_info rekey_len)

-- Every byte of the slice is set to 0, in place.
unfoldable pub zeroize : Bytes → Bytes
zeroize [] = []
zeroize (b ∷ bs) = 0 ∷ zeroize bs

pub zeroize_lem : (b : Bytes) → zeroize b ≡ replicate (length b) 0
unfolding zeroize
zeroize_lem [] = refl
zeroize_lem (b ∷ bs) = ap (◌∷◌ 0) (zeroize_lem bs)
