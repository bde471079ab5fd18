-- ===== src/Apps/FinanceOrders/Fills.antt =====
-- The orders that a trader signs with its own key, and the answers to them
-- (signOrder and handleTrader of examples/finance-orders).
use fproto.Base.{◌≡◌, ◌<◌, ◌^◌, true, some, List, [], ◌∷◌, ◌++◌, map, Bytes, length}
use fproto.Message.{bytes_of}
use fproto.Noise.{Noise, Session}
use fproto.Noise.Agreement.{IsXx}
use fproto.Gateway.Replies.{seal_all, open_all, Seals}
use fproto.Apps.FinanceOrders.{
  Ed25519, Order, SigningKey, Codecs, OrderBook, signed_with, sign_order, accept, accept_all,
  encode_response, filled, Read, serve,
}

module _ {F : Type 0} (ed : Ed25519) (js : Codecs F) where
  -- An order of the trader, with the orders of others that are accepted before its turn.
  abbrev pub Turn : Type 0
  Turn = List (Order F) × Order F

  -- The answers to orders that are all filled, and the book with them.
  unfoldable pub fills : List Turn → OrderBook F → List Bytes × OrderBook F
  fills [] b = ([], b)
  fills ((others, o) ∷ os) b =
      let (exec_id, b') = accept ed js o (accept_all ed js others b) in
      let (answers, last) = fills os b' in
      (bytes_of (encode_response ed js (filled ed js o exec_id)) ∷ answers, last)

  -- All the orders, in the order in which they are accepted.
  abbrev pub in_turn : List Turn → List (Order F)
  in_turn [] = []
  in_turn ((others, o) ∷ os) = others ++ (o ∷ in_turn os)

  -- The messages that a trader makes of its orders.
  abbrev pub messages : SigningKey → List Turn → List Bytes
  messages key = map (λ t. bytes_of (sign_order ed js t.1 key))

  -- The messages that the server reads of them, each in its turn.
  abbrev pub reads_of : List Turn → List Bytes → List (Read ed js)
  reads_of ((others, o) ∷ os) (ct ∷ cts) =
      record { ciphertext = ct; others = others } ∷ reads_of os cts
  reads_of _ _ = []

  module _ (key : SigningKey) where
    -- The order is marshalled, and once more with its signature, to less than four gigabytes, and both
    -- read back.
    pub record Marshals (o : Order F) : Type 0 where
      pub order_bytes : Bytes
      pub payload : Bytes
      pub marshals : js.orders.marshal o ≡ some order_bytes
      pub marshals_signed :
          js.signed_orders.marshal (signed_with ed js key order_bytes) ≡ some payload
      pub reads : js.orders.unmarshal order_bytes ≡ some o
      pub reads_signed :
          js.signed_orders.unmarshal payload ≡ some (signed_with ed js key order_bytes)
      pub fits : length payload < 2 ^ 32

    -- Keys of the length of Ed25519 whose signatures verify.
    pub record IsKey : Type 0 where
      pub key_length : length key.public ≡ 32
      pub verifies : (m : Bytes) → ed.verify key.public m (ed.sign key.private m) ≡ true

    module _ (k : IsKey) where
      module _ {Handshake Cipher : Type 0} (n : Noise Handshake Cipher)
          (Paired : Cipher → Cipher → Type 0) (x : IsXx n Paired) (seals : Seals n) where
        abbrev Filled : List Turn → Cipher → Cipher → Session Cipher → OrderBook F → Type 0
        Filled os c r s b =
            let served = serve ed js n (reads_of os (seal_all n (messages key os) c)) s b in
            (open_all n served.0 r ≡ map some (fills os b).0) × (served.2 ≡ (fills os b).1)

        abbrev AllFilled : List Turn → Type 0
        AllFilled os =
            (c r : Cipher) (s : Session Cipher) (b : OrderBook F)
            → Paired c s.recv
            → Paired s.send r
            → Filled os c r s b
