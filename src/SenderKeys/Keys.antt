-- ===== src/SenderKeys/Keys.antt =====
-- server/internal/senderkeys/ratchet.go, keypair.go, distribution.go and rotation.go.
use fproto.Base.{
  ℕ, zero, suc, ◌+◌, ◌≡◌, refl, ap, ◌∙◌, Bool, true, false, Option, none, some, List, [], ◌∷◌, ◌++◌,
  Bytes, Result, ok, err, codes, length, arith,
}
use fproto.Message.{SenderKeyDistribution}
use fproto.Crypto.Aead.{KeyedCipher, AeadError}

-- crypto/hmac with SHA-256, of a key and data; its digests have 32 bytes. ChaCha20-Poly1305. And
-- crypto/ed25519: Sign of a private key and Verify of a public key, a message and a signature.
pub record Primitives : Type 0 where
  pub hmac_sha256 : Bytes → Bytes → Bytes
  pub length-hmac : (key text : Bytes) → length (hmac_sha256 key text) ≡ 32
  pub cipher : KeyedCipher
  pub sign : Bytes → Bytes → Bytes
  pub verify : Bytes → Bytes → Bytes → Bool

abbrev pub public_key_size : ℕ
public_key_size = 32

abbrev pub private_key_size : ℕ
private_key_size = 64

-- The errors of the package, and a run-time panic of a callee.
pub data SenderKeyError : Type 0 where
  no_chain_key no_ed25519 no_nonce invalid_signature cannot_open panics : SenderKeyError
  bad_cipher_key : AeadError → SenderKeyError

pub record SenderKey : Type 0 where
  pub key_id : ℕ
  pub chain_key : Bytes
  pub signing_key : Bytes
  pub public_key : Bytes

-- GenerateSenderKey, of what the two random sources give: the chain key, and the public and the
-- private key.
unfoldable pub generate_sender_key :
    ℕ → Option Bytes → Option (Bytes × Bytes) → Result SenderKeyError SenderKey
generate_sender_key id none pair = err no_chain_key
generate_sender_key id (some chain) none = err no_ed25519
generate_sender_key id (some chain) (some (public, private)) =
    ok (record { key_id = id; chain_key = chain; signing_key = private; public_key = public })

abbrev pub public_material : SenderKey → Bytes × Bytes
public_material sk = (sk.chain_key, sk.public_key)

-- The next chain key and the message key.
unfoldable pub ratchet : Primitives → Bytes → Bytes × Bytes
ratchet p chain = (p.hmac_sha256 chain (codes "ratchet"), p.hmac_sha256 chain (codes "message"))

-- RatchetN, for n that is not negative: the final chain key, and the message keys in order.
unfoldable pub ratchet_n : Primitives → Bytes → ℕ → Bytes × List Bytes
ratchet_n p chain zero = (chain, [])
ratchet_n p chain (suc n) =
    let (next, key) = ratchet p chain in
    let (final, keys) = ratchet_n p next n in (final, key ∷ keys)

abbrev pub to_distribution : Option Bytes → Option Bytes → SenderKey → SenderKeyDistribution
to_distribution group sender sk = record {
  group_id = group;
  sender_id = sender;
  key_id = sk.key_id;
  chain_key = sk.chain_key;
  signing_key = sk.public_key;
}

abbrev pub from_distribution : SenderKeyDistribution → ℕ × Bytes × Bytes
from_distribution d = (d.key_id, d.chain_key, d.signing_key)

pub data RotationEvent : Type 0 where
  member_removed member_added timer_expired : RotationEvent

unfoldable pub needs_full_rotation : RotationEvent → Bool
needs_full_rotation member_removed = true
needs_full_rotation _ = false

unfoldable pub needs_distribution : RotationEvent → Bool
needs_distribution member_added = true
needs_distribution _ = false

zero_plus : (n : ℕ) → 0 + n ≡ n
zero_plus n = omega arith

suc_plus : (m n : ℕ) → suc m + n ≡ suc (m + n)
suc_plus m n = omega arith

pair_eta : (r : Bytes × List Bytes) → r ≡ (r.0, r.1)
pair_eta (a, b) = refl

-- RatchetN over m + n steps is RatchetN over m steps, and from its final chain key over n: the message
-- keys are the first ones followed by the others. It gives one key for each step.
pub ratchet_n-add :
    (p : Primitives) (chain : Bytes) (m n : ℕ)
    → (ratchet_n p chain (m + n) ≡ (
      (ratchet_n p (ratchet_n p chain m).0 n).0,
      (ratchet_n p chain m).1 ++ (ratchet_n p (ratchet_n p chain m).0 n).1,
    ))
unfolding ratchet_n
ratchet_n-add p chain zero n = ap (ratchet_n p chain) (zero_plus n) ∙ pair_eta (ratchet_n p chain n)
ratchet_n-add p chain (suc m) n =
    ap (ratchet_n p chain) (suc_plus m n)
    ∙ ap (λ r. (r.0, (ratchet p chain).1 ∷ r.1)) (ratchet_n-add p (ratchet p chain).0 m n)
