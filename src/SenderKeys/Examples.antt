-- ===== src/SenderKeys/Examples.antt =====
-- Sender keys with a cipher that hides nothing, and a signature that is the message.
use fproto.Base.{
  ℕ, ◌≡◌, ◌≢◌, refl, true, none, some, List, [], ◌∷◌, map, arith, Bytes, ok, err, codes, length,
  replicate, bytes_equal, bytes_equal_refl, unassign,
}
use fproto.Crypto.Aead.{Aead, nonce_size}
use fproto.Sql.{done}
use fproto.SenderKeys.Keys.{
  Primitives, SenderKey, panics, ratchet, ratchet_n, to_distribution, from_distribution,
}
use fproto.SenderKeys.Messages.{
  EncryptedMessage, decrypt, message_of, decrypt-message_of, decrypt-other_nonce, encrypt_lem,
  decrypt-ok,
}
use fproto.SenderKeys.Streams.{send, receive, receive-send}
use fproto.SenderKeys.Cache.{CachedKey, Redis, set, get, delete_all, get-delete_all, cache_key}

abbrev plain : Aead
plain = record {
  seal = λ nonce text aad. text;
  open_sealed = λ nonce text aad. some text;
  open_sealed-seal = λ nonce text aad. refl;
}

abbrev toy : Primitives
toy = record {
  hmac_sha256 = λ key text. replicate 32 (length text);
  length-hmac = λ key text. refl;
  cipher = λ key. plain;
  sign = λ key message. message;
  verify = λ key message signature. bytes_equal message signature;
}

abbrev alice : SenderKey
alice = record {
  key_id = 1;
  chain_key = replicate 32 7;
  signing_key = replicate 64 1;
  public_key = replicate 32 2;
}

abbrev nonce_of : ℕ → Bytes
nonce_of n = replicate 12 n

abbrev texts : List (Bytes × Bytes)
texts = (nonce_of 1, codes "hello") ∷ (nonce_of 2, codes "world") ∷ []

receive-send_example :
    let (key_id, chain, public) =
      from_distribution (to_distribution (some (5 ∷ [])) (some (6 ∷ [])) alice) in
    let final : Bytes = (ratchet_n toy alice.chain_key 2).0 in
    (msgs : List EncryptedMessage) × (send toy alice.signing_key alice.key_id alice.chain_key texts
      ≡ ok (msgs, final))
    × (receive toy public chain msgs ≡ ok (map (λ t. t.1) texts, final))
receive-send_example =
    receive-send toy alice (some (5 ∷ [])) (some (6 ∷ [])) texts refl refl bytes_equal_refl
      (refl, (refl, tt))

abbrev hello : EncryptedMessage
hello = message_of toy alice.chain_key alice.signing_key 1 (nonce_of 1) (codes "hello")

decrypt-other_nonce_example :
    (decrypt toy alice.chain_key alice.public_key hello
      ≡ ok (codes "hello", (ratchet toy alice.chain_key).0))
    × (decrypt toy alice.chain_key alice.public_key (record hello { nonce = [] }) ≡ err panics)
decrypt-other_nonce_example =
    decrypt-other_nonce toy alice.chain_key alice.signing_key alice.public_key 1 (nonce_of 1)
      (codes "hello") [] _ hello refl bytes_equal_refl refl refl
      (encrypt_lem toy alice.chain_key alice.signing_key 1 (nonce_of 1) (codes "hello") refl)

hello_lem :
    decrypt toy alice.chain_key alice.public_key hello
    ≡ ok (codes "hello", (ratchet toy alice.chain_key).0)
hello_lem =
    decrypt-message_of toy alice.chain_key alice.signing_key alice.public_key 1 (nonce_of 1)
      (codes "hello") refl refl bytes_equal_refl

decrypt-ok_example :
    (bytes_equal hello.ciphertext hello.signature ≡ true)
    × (length hello.nonce ≡ nonce_size)
    × (some hello.ciphertext ≡ some (codes "hello"))
    × ((ratchet toy alice.chain_key).0 ≡ (ratchet toy alice.chain_key).0)
decrypt-ok_example =
    decrypt-ok toy alice.chain_key alice.public_key (codes "hello") (ratchet toy alice.chain_key).0
      hello hello_lem

abbrev cached : CachedKey
cached = record { key_id = 1; chain_key = some (7 ∷ []); signing_key = some (2 ∷ []) }

abbrev stored : Redis
stored = (set done 10 (some (5 ∷ [])) (some (6 ∷ [])) cached []).1

other_group : ◌≢◌ {A = Bytes} (5 ∷ []) (4 ∷ [])
other_group h = absurd cc

get-delete_all_example :
    (get done 20 (some (5 ∷ [])) (some (6 ∷ [])) (unassign (cache_key (5 ∷ [])) stored) ≡ ok none)
    × (get done 20 (some (4 ∷ [])) (some (6 ∷ [])) (unassign (cache_key (5 ∷ [])) stored)
        ≡ get done 20 (some (4 ∷ [])) (some (6 ∷ [])) stored)
unfolding delete_all
get-delete_all_example =
    get-delete_all done done 20 (some (5 ∷ [])) (some (4 ∷ [])) (some (6 ∷ [])) stored
      (unassign (cache_key (5 ∷ [])) stored) (omega arith, tt) (omega arith, tt) other_group refl
