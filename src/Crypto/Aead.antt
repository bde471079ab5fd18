-- ===== src/Crypto/Aead.antt =====
-- proto-core/crypto/aead.go. The cipher of golang.org/x/crypto/chacha20poly1305 is a parameter.
use mathlib.Core.Path.{ap₂}
use fproto.Base.{
  ℕ, ◌<◌, ◌^◌, ◌≡◌, sym, ap, ◌∙◌, Option, none, some, ◌++◌, arith, Bytes, Result, ok, err, ◌==◌,
  if◌then◌else◌, length, take, drop, put_uint64_le, of_le, length-put_le, of_le-put_le, replicate,
  length-append, take-length_append, drop-length_append,
}

-- cipher.AEAD: Seal(nil, nonce, plaintext, aad) and Open(nil, nonce, ciphertext, aad). Open fails,
-- as `none`, or returns the plaintext; what was sealed opens under the same nonce and data.
pub record Aead : Type 0 where
  pub seal : Bytes → Bytes → Bytes → Bytes
  pub open_sealed : Bytes → Bytes → Bytes → Option Bytes
  pub open_sealed-seal :
      (nonce pt aad : Bytes) → open_sealed nonce (seal nonce pt aad) aad ≡ some pt

-- chacha20poly1305.New for keys of 32 bytes.
abbrev pub KeyedCipher : Type 0
KeyedCipher = Bytes → Aead

abbrev pub key_size : ℕ
key_size = 32

abbrev pub nonce_size : ℕ
nonce_size = 12

pub data AeadError : Type 0 where
  invalid_key_size : ℕ → AeadError
  aead_decrypt : AeadError

unfoldable pub new_aead : KeyedCipher → Bytes → Result AeadError Aead
new_aead cipher key =
    if length key == key_size then ok (cipher key) else err (invalid_key_size (length key))

-- Four zero bytes and the number in little-endian order.
unfoldable pub build_nonce : ℕ → Bytes
build_nonce seq = replicate 4 0 ++ put_uint64_le seq

unfoldable pub build_aad : Bytes → ℕ → Bytes
build_aad session_id seq = session_id ++ put_uint64_le seq

unfoldable pub encrypt_aead : Aead → Bytes → ℕ → Bytes → Bytes
encrypt_aead aead session_id seq plaintext =
    aead.seal (build_nonce seq) plaintext (build_aad session_id seq)

abbrev or_decrypt_error : Option Bytes → Result AeadError Bytes
or_decrypt_error (some pt) = ok pt
or_decrypt_error none = err aead_decrypt

unfoldable pub decrypt_aead : Aead → Bytes → ℕ → Bytes → Result AeadError Bytes
decrypt_aead aead session_id seq ciphertext =
    or_decrypt_error (aead.open_sealed (build_nonce seq) ciphertext (build_aad session_id seq))

-- What was encrypted for a session and a number decrypts for the same two.
pub decrypt_aead-encrypt_aead :
    (aead : Aead) (session_id : Bytes) (seq : ℕ) (plaintext : Bytes)
    → decrypt_aead aead session_id seq (encrypt_aead aead session_id seq plaintext) ≡ ok plaintext
unfolding decrypt_aead encrypt_aead
decrypt_aead-encrypt_aead aead session_id seq plaintext =
    rw (aead.open_sealed-seal (build_nonce seq) plaintext (build_aad session_id seq))

put_uint64_le_injective :
    (m n : ℕ) → m < 2 ^ 64 → n < 2 ^ 64 → put_uint64_le m ≡ put_uint64_le n → m ≡ n
put_uint64_le_injective m n hm hn e = sym (of_le-put_le 8 m hm) ∙ ap of_le e ∙ of_le-put_le 8 n hn

-- A nonce has the cipher's size, and two numbers of 64 bits that share one are the same.
build_nonce_injective :
    (m n : ℕ)
    → m < 2 ^ 64
    → n < 2 ^ 64
    → build_nonce m ≡ build_nonce n
    → (length (build_nonce m) ≡ nonce_size) × (m ≡ n)
unfolding build_nonce
build_nonce_injective m n hm hn e =
    (omega (arith, length-put_le 8 m), put_uint64_le_injective m n hm hn (ap (drop 4) e))

-- A suffix of a known length tells where a list was joined.
append_injective :
    (xs xs' ys ys' : Bytes)
    → length ys ≡ length ys'
    → xs ++ ys ≡ xs' ++ ys'
    → (xs ≡ xs') × (ys ≡ ys')
append_injective xs xs' ys ys' h e =
    let n : length xs ≡ length xs' =
      omega (arith, h, ap length e, length-append xs ys, length-append xs' ys') in
    (
      sym (take-length_append xs ys) ∙ ap₂ take n e ∙ take-length_append xs' ys',
      sym (drop-length_append xs ys) ∙ ap₂ drop n e ∙ drop-length_append xs' ys',
    )

-- With numbers of 64 bits the associated data determines the session and the number, whatever the
-- length of the id.
build_aad_injective :
    (s s' : Bytes) (m n : ℕ)
    → m < 2 ^ 64
    → n < 2 ^ 64
    → build_aad s m ≡ build_aad s' n
    → (s ≡ s') × (m ≡ n)
unfolding build_aad
build_aad_injective s s' m n hm hn e =
    let (p, q) = append_injective s s' _ _ (length-put_le 8 m ∙ sym (length-put_le 8 n)) e in
    (p, put_uint64_le_injective m n hm hn q)
