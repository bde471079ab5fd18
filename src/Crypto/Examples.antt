-- ===== src/Crypto/Examples.antt =====
-- Calls of the crypto service under a toy cipher and a toy HKDF that have the stated laws.
use mathlib.Core.Option.{some-injective}
use fproto.Base.{
  zero, suc, subst, ℕ, ◌≡◌, refl, some, [], ◌∷◌, arith, Bytes, ok, length, replicate, true, false,
  none, lookup, encode_to_string,
}
use fproto.Crypto.Aead.{KeyedCipher}
use fproto.Crypto.Rekey.{Hkdf}
use fproto.Crypto.Service.{Slice, CryptRequest, encrypt, decrypt, decrypt-encrypt, FillsBuffer}
use fproto.Noise.OpenLibrary.{open_library, open_library-IsXx, writes_bytes, no_key, begun, waiting}
use fproto.Crypto.Handshakes.{
  Pending, Answer, initiate_handshake, handshake_between, finished_with, handshake_between-random,
}

-- A cipher that seals without hiding, and opens everything.
abbrev plain_cipher : KeyedCipher
plain_cipher key = record {
  seal = λ nonce pt aad. pt;
  open_sealed = λ nonce ct aad. some ct;
  open_sealed-seal = λ nonce pt aad. refl;
}

-- An HKDF that delivers ones.
abbrev ones_hkdf : Hkdf
ones_hkdf key info n = some (replicate n 1)

abbrev request_of : Slice → CryptRequest
request_of s = record { session_id = 1 ∷ []; seq = 3; crypto_state = s; body = 4 ∷ 5 ∷ [] }

abbrev full_state : Slice
full_state = record { bytes = replicate 33 8; spare = [] }

abbrev short_slice : Slice
short_slice = record { bytes = replicate 10 8; spare = [] }

abbrev spare_slice : Slice
spare_slice = record { bytes = replicate 10 8; spare = replicate 22 9 }

abbrev five : ℕ
five = 5

abbrev one_id : Bytes
one_id = 1 ∷ []

decrypt-encrypt_example :
    (ct : Bytes) × (encrypt plain_cipher (request_of full_state)
      ≡ ok (record { body = ct; updated_crypto_state = full_state.bytes }))
    × (decrypt plain_cipher (record (request_of full_state) { body = ct })
        ≡ ok (record { body = 4 ∷ 5 ∷ []; updated_crypto_state = full_state.bytes }))
decrypt-encrypt_example = decrypt-encrypt plain_cipher (request_of full_state) (omega arith)

length-replicate : (n b : ℕ) → length (replicate n b) ≡ n
length-replicate zero b = refl
length-replicate (suc n) b = omega (arith, length-replicate n b)

ones_hkdf-FillsBuffer : FillsBuffer ones_hkdf
ones_hkdf-FillsBuffer key info k n h =
    subst (λ x. length x ≡ n) (some-injective _ _ h) (length-replicate n 1)

handshake_between-random_example :
    let p1 : Pending open_library =
      (initiate_handshake open_library no_key true [] (some (1 ∷ [])) []).1 in
    let q1 : Pending open_library =
      (initiate_handshake open_library no_key false [] (some (2 ∷ [])) []).1 in
    let r : Answer open_library × Answer open_library =
      handshake_between open_library
        (1 ∷ [])
        (2 ∷ [])
        (some (replicate 64 7))
        (some (replicate 64 8))
        p1
        q1 in
    (m : Bytes) × (r.0.0 ≡ ok (finished_with open_library m (replicate 64 7)))
    × (r.1.0 ≡ ok (finished_with open_library [] (replicate 64 8)))
    × (lookup (encode_to_string (1 ∷ [])) r.0.1 ≡ none)
    × (lookup (encode_to_string (2 ∷ [])) r.1.1 ≡ none)
handshake_between-random_example =
    handshake_between-random open_library ◌≡◌ no_key no_key [] [] (1 ∷ []) (2 ∷ []) (replicate 64 7)
      (replicate 64 8) [] [] begun waiting open_library-IsXx writes_bytes refl refl
