-- ===== src/Apps/FinanceOrders.antt =====
-- The order server (examples/finance-orders): signed orders, the order book, and the loop over the
-- messages of a trader. Go's float64 and crypto/ed25519 are parameters; an int64 is a number below
-- 2 ^ 64, in two's complement. Sign is given keys of the length that GenerateKey makes, which it wants.
pub mod Fills
pub mod Genuine
mod Examples
use fproto.Base.{
  ℕ, ◌+◌, ◌%◌, ◌^◌, Bool, true, false, Option, none, some, List, [], ◌∷◌, ◌++◌, Bytes, codes,
  Result, ok, err, ◌==◌, if◌then◌else◌, length, ◌>>=◌, ◌>>◌,
}
use fproto.Noise
use fproto.Noise.{Noise, Session, NoiseError}
use fproto.Apps.Frames.{
  Json, decode_frame, encoded, Ending, Served, closed, undecryptable, panicked, sends, sealed,
}

pub record Ed25519 : Type 0 where
  pub generate : Bytes → Option (Bytes × Bytes)
  pub sign : Bytes → Bytes → Bytes
  pub verify : Bytes → Bytes → Bytes → Bool

module _ (F : Type 0) where
  pub record Order : Type 0 where
    pub order_id : Bytes
    pub instrument : Bytes
    pub side : Bytes
    pub quantity : F
    pub price : F
    pub timestamp_ms : ℕ

pub record SignedOrder : Type 0 where
  pub order : Bytes
  pub signature : Bytes
  pub public_key : Bytes

pub record OrderResponse : Type 0 where
  pub order_id : Bytes
  pub status : Bytes
  pub message : Bytes

pub record SigningKey : Type 0 where
  pub public : Bytes
  pub private : Bytes

abbrev pub msg_order : ℕ
msg_order = 1

abbrev pub msg_order_response : ℕ
msg_order_response = 2

abbrev pub key_of : Option (Bytes × Bytes) → Option SigningKey
key_of none = none
key_of (some (public, private)) = some (record { public = public; private = private })

-- GenerateSigningKey, over what the random source gives.
unfoldable pub generate_signing_key : Ed25519 → Option Bytes → Option SigningKey
generate_signing_key ed none = none
generate_signing_key ed (some random) = key_of (ed.generate random)

-- encoding/json at the types of the messages, with the texts of the errors of Unmarshal; and %d.
pub record Codecs (F : Type 0) : Type 0 where
  pub orders : Json (Order F)
  pub signed_orders : Json SignedOrder
  pub responses : Json OrderResponse
  pub order_error : Bytes → Bytes
  pub signed_order_error : Bytes → Bytes
  pub decimal : ℕ → Bytes

pub data VerifyError : Type 0 where
  unmarshal_signed unmarshal_order : Bytes → VerifyError
  invalid_signature : VerifyError
  bad_key_length : VerifyError

-- err.Error().
abbrev pub text : VerifyError → Bytes
text (unmarshal_signed e) = codes "unmarshal signed: " ++ e
text (unmarshal_order e) = codes "unmarshal order: " ++ e
text invalid_signature = codes "invalid Ed25519 signature"
text bad_key_length = []

-- orderBook.
pub record OrderBook (F : Type 0) : Type 0 where
  pub orders : List (Order F)
  pub seq : ℕ

module _ {F : Type 0} (ed : Ed25519) (js : Codecs F) where
  abbrev pub signed_with : SigningKey → Bytes → SignedOrder
  signed_with key order_bytes = record {
    order = order_bytes;
    signature = ed.sign key.private order_bytes;
    public_key = key.public;
  }

  abbrev pub framed : SigningKey → Option Bytes → Option Bytes
  framed key none = none
  framed key (some order_bytes) =
      encoded msg_order (js.signed_orders.marshal (signed_with key order_bytes))

  -- signOrder.
  unfoldable pub sign_order : Order F → SigningKey → Option Bytes
  sign_order order key = framed key (js.orders.marshal order)

  abbrev pub or_error {ℓ} : {A : Type ℓ} → VerifyError → Option A → Result VerifyError A
  or_error e none = err e
  or_error e (some a) = ok a

  -- ed25519.Verify, which panics at a key of another length.
  abbrev pub checked : SignedOrder → Result VerifyError (Unit {0})
  checked s =
      if length s.public_key == 32
      then (if ed.verify s.public_key s.order s.signature then ok tt else err invalid_signature)
      else err bad_key_length

  -- verifyOrder.
  unfoldable pub verify_order : Bytes → Result VerifyError (Order F)
  verify_order signed_bytes = do
    signed ←
        or_error (unmarshal_signed (js.signed_order_error signed_bytes))
          (js.signed_orders.unmarshal signed_bytes)
    checked signed
    or_error (unmarshal_order (js.order_error signed.order)) (js.orders.unmarshal signed.order)

  -- encodeResponse.
  abbrev pub encode_response : OrderResponse → Option Bytes
  encode_response r = encoded msg_order_response (js.responses.marshal r)

  -- orderBook.accept and count.
  unfoldable pub accept : Order F → OrderBook F → Bytes × OrderBook F
  accept o b =
      let seq = (b.seq + 1) % 2 ^ 64 in
      (codes "accepted-" ++ js.decimal seq, record { orders = b.orders ++ (o ∷ []); seq = seq })

  unfoldable pub count : OrderBook F → ℕ
  count b = length b.orders

  abbrev pub rejected : VerifyError → OrderResponse
  rejected e = record { order_id = []; status = codes "rejected"; message = text e }

  abbrev pub filled : Order F → Bytes → OrderResponse
  filled o exec_id = record { order_id = o.order_id; status = codes "filled"; message = exec_id }

  -- The book after some orders, one after the other.
  abbrev pub accept_all : List (Order F) → OrderBook F → OrderBook F
  accept_all [] b = b
  accept_all (o ∷ os) b = accept_all os (accept o b).1

  -- A message that is read, with the orders of other connections that are accepted before its turn.
  pub record Read : Type 0 where
    pub ciphertext : Bytes
    pub others : List (Order F)

  module _ {Handshake Cipher : Type 0} (n : Noise Handshake Cipher) where
    abbrev pub Rest : Type 0
    Rest = Session Cipher → OrderBook F → Served (OrderBook F)

    abbrev pub responded :
        OrderResponse → Session Cipher → OrderBook F → Rest → Served (OrderBook F)
    responded r s b rest = let (ct, s') = sealed n (encode_response r) s in sends ct (rest s' b)

    abbrev pub ordered :
        Result VerifyError (Order F) → Session Cipher → OrderBook F → Rest → Served (OrderBook F)
    ordered (err bad_key_length) s b rest = ([], panicked, b)
    ordered (err invalid_signature) s b rest = responded (rejected invalid_signature) s b rest
    ordered (err (unmarshal_signed e)) s b rest = responded (rejected (unmarshal_signed e)) s b rest
    ordered (err (unmarshal_order e)) s b rest = responded (rejected (unmarshal_order e)) s b rest
    ordered (ok o) s b rest =
        let (exec_id, b') = accept o b in responded (filled o exec_id) s b' rest

    abbrev pub received :
        Option (ℕ × Bytes) → Session Cipher → OrderBook F → Rest → Served (OrderBook F)
    received none s b rest = rest s b
    received (some (kind, payload)) s b rest =
        if kind == msg_order then ordered (verify_order payload) s b rest else rest s b

    abbrev pub opened :
        Result NoiseError Bytes × Session Cipher → OrderBook F → Rest → Served (OrderBook F)
    opened (err e, s) b rest = ([], undecryptable, b)
    opened (ok plaintext, s) b rest = received (decode_frame plaintext) s b rest

    -- The loop of handleTrader over what is read until a read fails.
    unfoldable pub serve : List Read → Rest
    serve [] s b = ([], closed, b)
    serve (m ∷ ms) s b = opened (Noise.decrypt n m.ciphertext s) (accept_all m.others b) (serve ms)

    unfoldable pub handle_trader :
        Result NoiseError (Session Cipher) → List Read → OrderBook F → Served (OrderBook F)
    handle_trader (err e) ms b = ([], closed, b)
    handle_trader (ok s) ms b = serve ms s b
