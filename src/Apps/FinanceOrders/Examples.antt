-- ===== src/Apps/FinanceOrders/Examples.antt =====
-- Orders over a library that hides nothing, with codecs of bytes that are any numbers.
use fproto.Base.{
  ℕ, ◌≡◌, refl, Option, none, some, List, [], ◌∷◌, ◌++◌, Bytes, codes, ok, length, take, drop,
  replicate, bytes_equal,
}
use fproto.Noise.{Session}
use fproto.Noise.OpenLibrary.{open_library}
use fproto.Gateway.Replies.{seal_all}
use fproto.Apps.FinanceOrders
use fproto.Apps.FinanceOrders.{
  Ed25519, Order, SignedOrder, SigningKey, Codecs, OrderBook, handle_trader,
}
use fproto.Apps.FinanceOrders.Fills.{Turn, messages, reads_of}
use fproto.Apps.FinanceOrders.Genuine
use fproto.Apps.FinanceOrders.Genuine.{payloads_of, handle_trader-Inv}

abbrev session : Session ℕ
session = record { send = 0; recv = 0 }

-- Three texts behind the lengths of two of them.
abbrev pack : Bytes → Bytes → Bytes → Bytes
pack a b c = length a ∷ length b ∷ (a ++ (b ++ c))

abbrev third : ℕ → ℕ → Bytes → Bytes
third i j r = drop j (drop i r)

abbrev signed_of : Bytes → Option SignedOrder
signed_of (i ∷ j ∷ r) =
    some (record { order = take i r; signature = take j (drop i r); public_key = third i j r })
signed_of _ = none

abbrev order_of : Bytes → Option (Order ℕ)
order_of (q ∷ p ∷ t ∷ i ∷ j ∷ r) = some (record {
  order_id = take i r;
  instrument = take j (drop i r);
  side = third i j r;
  quantity = q;
  price = p;
  timestamp_ms = t;
})
order_of _ = none

abbrev toy_ed25519 : Ed25519
toy_ed25519 = record {
  generate = λ random. some (random, random);
  sign = λ key m. m;
  verify = λ key m signature. bytes_equal m signature;
}

abbrev toy_codecs : Codecs ℕ
toy_codecs = record {
  orders = record {
    marshal =
        λ o. some (o.quantity ∷ o.price ∷ o.timestamp_ms ∷ pack o.order_id o.instrument o.side);
    unmarshal = order_of;
  };
  signed_orders = record {
    marshal = λ s. some (pack s.order s.signature s.public_key);
    unmarshal = signed_of;
  };
  responses = record { marshal = λ r. some (r.order_id ++ r.message); unmarshal = λ b. none };
  order_error = λ b. [];
  signed_order_error = λ b. [];
  decimal = λ k. k ∷ [];
}

abbrev toy_key : SigningKey
toy_key = record { public = replicate 32 0; private = [] }

abbrev order_numbered : ℕ → Order ℕ
order_numbered k = record {
  order_id = k ∷ [];
  instrument = codes "BTC/USD";
  side = codes "buy";
  quantity = 2;
  price = 65000;
  timestamp_ms = 1;
}

-- Two orders, with one of another trader between them.
abbrev two_orders : List (Turn toy_ed25519 toy_codecs)
two_orders = ([], order_numbered 1) ∷ (order_numbered 5 ∷ [], order_numbered 2) ∷ []

abbrev empty_book : OrderBook ℕ
empty_book = record { orders = []; seq = 0 }

abbrev two_reads : List (FinanceOrders.Read toy_ed25519 toy_codecs)
two_reads =
    reads_of toy_ed25519 toy_codecs two_orders
      (seal_all open_library (messages toy_ed25519 toy_codecs toy_key two_orders) 0)

-- The book gets the two orders, and that of the other trader.
handle_trader-Inv_example :
    Genuine.Inv toy_ed25519 toy_codecs
      (λ o. o ≡ order_numbered 5)
      (payloads_of toy_ed25519 toy_codecs open_library two_reads 0)
      (handle_trader toy_ed25519 toy_codecs open_library (ok session) two_reads empty_book).2
unfolding seal_all
handle_trader-Inv_example =
    handle_trader-Inv toy_ed25519 toy_codecs open_library (λ o. o ≡ order_numbered 5) session
      two_reads empty_book (tt, ((refl, tt), tt)) tt refl
