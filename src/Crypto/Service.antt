-- ===== src/Crypto/Service.antt =====
-- The stateless calls of server/internal/cryptogrpc/server.go: Encrypt, Decrypt and Rekey.
use fproto.Base.{
  ℕ, ◌+◌, ◌<◌, ◌≤◌, ◌≡◌, refl, sym, ap, ◌∙◌, false, some, [], ◌∷◌, ◌++◌, arith, Bytes, Result, ok,
  err, ltb, if◌then◌else◌, length, take, drop, wrap, ◌>>=◌, length-append, length-take, lt→ltb,
  length-drop, ◌-◌, take-append, take-append_le, replicate,
}
use fproto.Crypto.Aead.{
  KeyedCipher, AeadError, new_aead, encrypt_aead, decrypt_aead, decrypt_aead-encrypt_aead,
}
use fproto.Crypto.Rekey.{Hkdf, RekeyError, rekey, zeroize, zeroize_lem, rekey_info, rekey_len}

-- The status codes that the calls return, and a run-time panic.
pub data ServiceError : Type 0 where
  invalid_crypto_state : AeadError → ServiceError
  decrypt_failed : AeadError → ServiceError
  crypto_state_too_short : ServiceError
  rekey_failed : RekeyError → ServiceError
  slice_panic : ServiceError

-- A byte field of a request: a slice, and what its array holds behind the slice's end.
pub record Slice : Type 0 where
  pub bytes : Bytes
  pub spare : Bytes

-- s[:n], which reaches up to the capacity and panics past it.
unfoldable pub slice_to : ℕ → Slice → Result ServiceError Bytes
slice_to n s =
    if ltb (length s.bytes + length s.spare) n
    then err slice_panic
    else ok (take n (s.bytes ++ s.spare))

pub record CryptRequest : Type 0 where
  pub session_id : Bytes
  pub seq : ℕ
  pub crypto_state : Slice
  pub body : Bytes

-- The body of the response, and UpdatedCryptoState.
pub record CryptResponse : Type 0 where
  pub body : Bytes
  pub updated_crypto_state : Bytes

unfoldable pub encrypt : KeyedCipher → CryptRequest → Result ServiceError CryptResponse
encrypt cipher req = do
  key ← slice_to 32 req.crypto_state
  aead ← wrap invalid_crypto_state (new_aead cipher key)
  ok (record {
    body = encrypt_aead aead req.session_id req.seq req.body;
    updated_crypto_state = req.crypto_state.bytes;
  })

unfoldable pub decrypt : KeyedCipher → CryptRequest → Result ServiceError CryptResponse
decrypt cipher req = do
  key ← slice_to 32 req.crypto_state
  aead ← wrap invalid_crypto_state (new_aead cipher key)
  pt ← wrap decrypt_failed (decrypt_aead aead req.session_id req.seq req.body)
  ok (record { body = pt; updated_crypto_state = req.crypto_state.bytes })

-- copy(dst, src): the common length is overwritten.
unfoldable pub copy : Bytes → Bytes → Bytes
copy [] src = []
copy (d ∷ dst) [] = d ∷ dst
copy (d ∷ dst) (x ∷ src) = x ∷ copy dst src

-- copy(newState[:32], newKey), for a state of 32 bytes or more.
unfoldable pub with_key : Bytes → Bytes → Bytes
with_key state key = copy (take 32 state) key ++ drop 32 state

-- The new state, and what is left of the new key in memory.
unfoldable pub service_rekey : Hkdf → Slice → Result ServiceError (Bytes × Bytes)
service_rekey hkdf state = if ltb (length state.bytes) 32 then err crypto_state_too_short else do
  old ← slice_to 32 state
  new_key ← wrap rekey_failed (rekey hkdf old)
  ok (with_key state.bytes new_key, zeroize new_key)

slice_to_long :
    (s : Slice) → 32 ≤ length s.bytes → slice_to 32 s ≡ ok (take 32 (s.bytes ++ s.spare))
unfolding slice_to
slice_to_long s h = ground arith

slice_to_within :
    (s : Slice)
    → 32 ≤ length s.bytes + length s.spare
    → slice_to 32 s ≡ ok (take 32 (s.bytes ++ s.spare))
unfolding slice_to
slice_to_within s h = ground arith

module _ (cipher : KeyedCipher) where
  new_aead_of : (key : Bytes) → length key ≡ 32 → new_aead cipher key ≡ ok (cipher key)
  unfolding new_aead
  new_aead_of key h = ground arith

  new_aead_taken :
      (xs : Bytes) → 32 ≤ length xs → new_aead cipher (take 32 xs) ≡ ok (cipher (take 32 xs))
  unfolding new_aead
  new_aead_taken xs h = ground (arith, length-take 32 xs)

  -- With a state of 32 bytes or more both calls succeed: Encrypt's ciphertext, sent to Decrypt
  -- with the same state, session and number, gives the plaintext back, and the state is unchanged.
  pub decrypt-encrypt :
      (req : CryptRequest)
      → 32 ≤ length req.crypto_state.bytes
      → (ct : Bytes) × (encrypt cipher req
          ≡ ok (record { body = ct; updated_crypto_state = req.crypto_state.bytes }))
        × (decrypt cipher (record req { body = ct })
            ≡ ok (record { body = req.body; updated_crypto_state = req.crypto_state.bytes }))
  unfolding encrypt decrypt
  decrypt-encrypt req h =
      let xs = req.crypto_state.bytes ++ req.crypto_state.spare in
      let long : 32 ≤ length xs =
        omega (arith, length-append req.crypto_state.bytes req.crypto_state.spare) in
      (
        encrypt_aead (cipher (take 32 xs)) req.session_id req.seq req.body,
        rw (slice_to_long req.crypto_state h, new_aead_taken xs long),
        rw (
          slice_to_long req.crypto_state h,
          new_aead_taken xs long,
          decrypt_aead-encrypt_aead (cipher (take 32 xs)) req.session_id req.seq req.body,
        ),
      )

  encrypt_within :
      (req : CryptRequest) (key : Bytes)
      → 32 ≤ length req.crypto_state.bytes + length req.crypto_state.spare
      → take 32 (req.crypto_state.bytes ++ req.crypto_state.spare) ≡ key
      → encrypt cipher req
        ≡ ok (record {
          body = encrypt_aead (cipher key) req.session_id req.seq req.body;
          updated_crypto_state = req.crypto_state.bytes;
        })
  unfolding encrypt
  encrypt_within req key h e =
      let xs = req.crypto_state.bytes ++ req.crypto_state.spare in
      let n : length (take 32 xs) ≡ 32 = omega (
        arith,
        h,
        length-append req.crypto_state.bytes req.crypto_state.spare,
        length-take 32 xs,
      ) in
      rw (slice_to_within req.crypto_state h, new_aead_of (take 32 xs) n, e)

  -- A state whose array is shorter than 32 bytes is refused by Rekey, and Encrypt and Decrypt panic.
  short_state_panics :
      (hkdf : Hkdf) (req : CryptRequest)
      → length req.crypto_state.bytes + length req.crypto_state.spare < 32
      → (service_rekey hkdf req.crypto_state ≡ err crypto_state_too_short)
        × (encrypt cipher req ≡ err slice_panic)
        × (decrypt cipher req ≡ err slice_panic)
  short_state_panics hkdf req h = (
    unfold service_rekey in ground arith,
    unfold encrypt slice_to in rw (lt→ltb _ _ h),
    unfold decrypt slice_to in rw (lt→ltb _ _ h),
  )

  -- A state shorter than 32 bytes, in an array that reaches 32, is refused by Rekey but not by
  -- Encrypt, whose key then ends in bytes that are not part of the state.
  short_state_padded :
      (hkdf : Hkdf) (req : CryptRequest)
      → length req.crypto_state.bytes < 32
      → 32 ≤ length req.crypto_state.bytes + length req.crypto_state.spare
      → (service_rekey hkdf req.crypto_state ≡ err crypto_state_too_short)
        × (encrypt cipher req
            ≡ ok (record {
              body =
                  encrypt_aead
                    (cipher (
                      req.crypto_state.bytes
                      ++ take (32 - length req.crypto_state.bytes) req.crypto_state.spare))
                    req.session_id
                    req.seq
                    req.body;
              updated_crypto_state = req.crypto_state.bytes;
            }))
  short_state_padded hkdf req h long = (
    unfold service_rekey in ground arith,
    encrypt_within req _ long
        (take-append 32 req.crypto_state.bytes req.crypto_state.spare (omega arith)),
  )

-- What the code relies on of HKDF: a reader that fills a buffer of n bytes delivers n bytes.
abbrev pub FillsBuffer : Hkdf → Type 0
FillsBuffer hkdf = (key info k : Bytes) (n : ℕ) → hkdf key info n ≡ some k → length k ≡ n

copy_same : (dst src : Bytes) → length dst ≡ length src → copy dst src ≡ src
unfolding copy
copy_same [] [] h = refl
copy_same [] (x ∷ src) h = absurd (omega arith)
copy_same (d ∷ dst) [] h = absurd (omega arith)
copy_same (d ∷ dst) (x ∷ src) h = ap (◌∷◌ x) (copy_same dst src (omega arith))

rekey_ok :
    (hkdf : Hkdf) (key k : Bytes)
    → 0 < length key
    → hkdf key rekey_info rekey_len ≡ some k
    → rekey hkdf key ≡ ok k
unfolding rekey
rekey_ok hkdf [] k h e = absurd (omega arith)
rekey_ok hkdf (b ∷ key) k h e = rw e

-- Of a state of 32 bytes or more, where HKDF derives a key and fills the buffer, Rekey replaces the
-- first 32 bytes by the derived key and keeps the others, so that the length stays, and leaves only
-- zeros of the new key in its own buffer.
service_rekey_ok :
    (hkdf : Hkdf) (state : Slice) (k : Bytes)
    → FillsBuffer hkdf
    → 32 ≤ length state.bytes
    → hkdf (take 32 state.bytes) rekey_info rekey_len ≡ some k
    → (service_rekey hkdf state ≡ ok (k ++ drop 32 state.bytes, replicate 32 0))
      × (length (k ++ drop 32 state.bytes) ≡ length state.bytes)
unfolding service_rekey with_key
service_rekey_ok hkdf state k fills long e =
    let key = take 32 state.bytes in
    let n : length k ≡ 32 = fills key rekey_info k 32 e in
    let m : length key ≡ 32 = omega (arith, length-take 32 state.bytes) in
    let taken : slice_to 32 state ≡ ok key =
      slice_to_long state long ∙ ap ok (take-append_le 32 state.bytes state.spare long) in
    let stays : ltb (length state.bytes) 32 ≡ false = ground arith in
    (
      rw (
        stays,
        taken,
        rekey_ok hkdf key k (omega arith) e,
        with_key,
        copy_same key k (m ∙ sym n),
        zeroize_lem k,
        n,
      ),
      omega (arith, length-append k (drop 32 state.bytes), length-drop 32 state.bytes),
    )
