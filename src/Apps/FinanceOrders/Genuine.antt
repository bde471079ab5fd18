-- ===== src/Apps/FinanceOrders/Genuine.antt =====
-- What gets into the book of the order server (examples/finance-orders/server.go).
use mathlib.Core.List.{Memᴰ}
use fproto.Base.{
  ◌⊎◌, All-mono, subst, sym, if◌then◌else◌, ℕ, ◌≡◌, ◌%◌, ◌^◌, refl, true, Option, none, some, List,
  [], ◌∷◌, arith, Bytes, Result, ok, err, ◌==◌, ==_iff, length, length-append, All, All-append,
  ◌>>◌, Bool-cases, Option-cases, inl, inr,
}
use fproto.Noise
use fproto.Noise.{Noise, Session, decrypt, decrypt_failed}
use fproto.Apps.Frames.{decode_frame, sealed, sealed-recv}
use fproto.Apps.FinanceOrders.{
  Ed25519, Order, SignedOrder, Codecs, VerifyError, unmarshal_order, unmarshal_signed,
  invalid_signature, bad_key_length, OrderBook, or_error, checked, verify_order, accept, accept_all,
  Read, OrderResponse, responded, encode_response, ordered, received, opened, serve, handle_trader,
  msg_order,
}

All-Memᴰ {ℓ} : {A : Type ℓ} (xs : List A) → All (λ x. Memᴰ x xs) xs
All-Memᴰ [] = tt
All-Memᴰ (x ∷ xs) = (Memᴰ.head refl, All-mono _ _ (λ y m. Memᴰ.tail m) xs (All-Memᴰ xs))

module _ {F : Type 0} (ed : Ed25519) (js : Codecs F) where
  -- The order was in one of some payloads, a signed order whose signature verifies under the key of 32
  -- bytes that came with it.
  pub record IsSent (payloads : List Bytes) (o : Order F) : Type 0 where
    pub payload : Bytes
    pub read : Memᴰ payload payloads
    pub signed : SignedOrder
    pub unmarshals : js.signed_orders.unmarshal payload ≡ some signed
    pub key_length : length signed.public_key ≡ 32
    pub verifies : ed.verify signed.public_key signed.order signed.signature ≡ true
    pub carries : js.orders.unmarshal signed.order ≡ some o

  module _ (Others : Order F → Type 0) (payloads : List Bytes) where
    abbrev pub IsKnown : Order F → Type 0
    IsKnown o = Others o ⊎ IsSent payloads o

    -- The book holds known orders only, and the last number that was given is how many.
    pub record Inv (b : OrderBook F) : Type 0 where
      pub known : All IsKnown b.orders
      pub numbered : b.seq ≡ length b.orders % 2 ^ 64

    carried-IsSent :
        (p : Bytes) (s : SignedOrder) (r : Option (Order F)) (o : Order F) (e : VerifyError)
        → Memᴰ p payloads
        → js.signed_orders.unmarshal p ≡ some s
        → length s.public_key ≡ 32
        → ed.verify s.public_key s.order s.signature ≡ true
        → js.orders.unmarshal s.order ≡ r
        → or_error ed js e r ≡ ok o
        → IsSent payloads o
    carried-IsSent p s none o e m u l v c h = cc
    carried-IsSent p s (some o') o e m u l v c h = record {
      payload = p;
      read = m;
      signed = s;
      unmarshals = u;
      key_length = l;
      verifies = v;
      carries = cc;
    }

    checked-IsSent :
        (p : Bytes) (s : SignedOrder) (o : Order F) (e : VerifyError)
        → Memᴰ p payloads
        → js.signed_orders.unmarshal p ≡ some s
        → (checked ed js s >> or_error ed js e (js.orders.unmarshal s.order)) ≡ ok o
        → IsSent payloads o
    checked-IsSent p s o e m u h = elim (Bool-cases (length s.public_key == 32)) [
      | inl l ↦ elim (Bool-cases (ed.verify s.public_key s.order s.signature)) [
        | inl v ↦ carried-IsSent p s _ o e m u ((==_iff _ _).0 l) v refl (rw (l, v) at h)
        | inr v ↦ let h' = rw (l, v) at h in cc
      ]
      | inr l ↦ let h' = rw l at h in cc
    ]

    verify_order-IsSent :
        (p : Bytes) (o : Order F)
        → Memᴰ p payloads
        → verify_order ed js p ≡ ok o
        → IsSent payloads o
    unfolding verify_order
    verify_order-IsSent p o m h = elim (Option-cases (js.signed_orders.unmarshal p)) [
      | inl e ↦ let h' = rw e at h in cc
      | inr (s, e) ↦ checked-IsSent p s o _ m e (rw e at h)
    ]

    accept-Inv : (o : Order F) (b : OrderBook F) → IsKnown o → Inv b → Inv (accept ed js o b).1
    unfolding accept
    accept-Inv o b g v = record {
      known = All-append IsKnown b.orders (o ∷ []) v.known (g, tt);
      numbered = omega (arith, v.numbered, length-append b.orders (o ∷ []));
    }

    accept_all-Inv :
        (os : List (Order F)) (b : OrderBook F)
        → All Others os
        → Inv b
        → Inv (accept_all ed js os b)
    accept_all-Inv [] b h v = v
    accept_all-Inv (o ∷ os) b h v =
        accept_all-Inv os (accept ed js o b).1 h.1 (accept-Inv o b (inl h.0) v)

  module _ {Handshake Cipher : Type 0} (n : Noise Handshake Cipher) where
    abbrev in_frame : Option (ℕ × Bytes) → List Bytes → List Bytes
    in_frame none ps = ps
    in_frame (some (kind, p)) ps = if kind == msg_order then p ∷ ps else ps

    abbrev followed : Option Bytes × Cipher → (Cipher → List Bytes) → List Bytes
    followed (none, c) rest = []
    followed (some pt, c) rest = in_frame (decode_frame pt) (rest c)

    -- The payloads of the orders among what is read, up to the first message that does not open.
    unfoldable pub payloads_of : List (Read ed js) → Cipher → List Bytes
    payloads_of [] c = []
    payloads_of (m ∷ ms) c = followed (n.unseal m.ciphertext c) (payloads_of ms)

    module _ (Others : Order F → Type 0) (payloads : List Bytes) where
      abbrev Known : OrderBook F → Type 0
      Known = Inv Others payloads

      abbrev Within : List Bytes → Type 0
      Within = All (λ p. Memᴰ p payloads)

      abbrev After : List (Read ed js) → Type 0
      After ms =
          (s : Session Cipher) (b : OrderBook F)
          → Within (payloads_of ms s.recv)
          → Known b
          → Known (serve ed js n ms s b).2

      responded-Inv :
          (r : OrderResponse) (ms : List (Read ed js)) (s : Session Cipher) (b : OrderBook F)
          → After ms
          → Within (payloads_of ms s.recv)
          → Known b
          → Known (responded ed js n r s b (serve ed js n ms)).2
      responded-Inv r ms s b ih i v =
          ih (sealed n (encode_response ed js r) s).1 b
            (subst (λ c. Within (payloads_of ms c))
              (sym (sealed-recv n (encode_response ed js r) s)) i)
            v

      ordered-Inv :
          (r : Result VerifyError (Order F)) (ms : List (Read ed js)) (s : Session Cipher)
          (b : OrderBook F)
          → ((o : Order F) → r ≡ ok o → IsSent payloads o)
          → After ms
          → Within (payloads_of ms s.recv)
          → Known b
          → Known (ordered ed js n r s b (serve ed js n ms)).2
      ordered-Inv (err (unmarshal_signed e)) ms s b g ih i v = responded-Inv _ ms s b ih i v
      ordered-Inv (err (unmarshal_order e)) ms s b g ih i v = responded-Inv _ ms s b ih i v
      ordered-Inv (err invalid_signature) ms s b g ih i v = responded-Inv _ ms s b ih i v
      ordered-Inv (err bad_key_length) ms s b g ih i v = v
      ordered-Inv (ok o) ms s b g ih i v =
          responded-Inv _ ms s _ ih i (accept-Inv Others payloads o b (inr (g o refl)) v)

      received-Inv :
          (f : Option (ℕ × Bytes)) (ms : List (Read ed js)) (s : Session Cipher) (b : OrderBook F)
          → After ms
          → Within (in_frame f (payloads_of ms s.recv))
          → Known b
          → Known (received ed js n f s b (serve ed js n ms)).2
      received-Inv none ms s b ih i v = ih s b i v
      received-Inv (some (kind, p)) ms s b ih i v = elim (Bool-cases (kind == msg_order)) [
        | inl e ↦
            let (here, rest) = rw e at i in
            rw e (
              ordered-Inv (verify_order ed js p) ms s b
                (λ o. verify_order-IsSent Others payloads p o here) ih rest v)
        | inr e ↦ let rest = rw e at i in rw e (ih s b rest v)
      ]

      opened-Inv :
          (p : Option Bytes × Cipher) (ms : List (Read ed js)) (s : Session Cipher)
          (b : OrderBook F)
          → After ms
          → Within (followed p (payloads_of ms))
          → Known b
          → Known
              (opened ed js n
                (Noise.or_error decrypt_failed p.0, record s { recv = p.1 })
                b
                (serve ed js n ms)).2
      opened-Inv (none, c) ms s b ih i v = v
      opened-Inv (some pt, c) ms s b ih i v =
          received-Inv (decode_frame pt) ms (record s { recv = c }) b ih i v

      serve-Inv : (ms : List (Read ed js)) → All (λ m. All Others m.others) ms → After ms
      unfolding serve payloads_of decrypt
      serve-Inv [] k s b i v = v
      serve-Inv (m ∷ ms) k s b i v =
          opened-Inv (n.unseal m.ciphertext s.recv) ms s (accept_all ed js m.others b)
            (serve-Inv ms k.1) i (accept_all-Inv Others payloads m.others b k.0 v)

    -- Whatever a trader sends over a session, and whatever is accepted from others meanwhile: each order
    -- in the book is one that was there, or of the others, or was in a payload that this trader
    -- sent, with a signature that verifies under the key of 32 bytes in the same payload; and the
    -- last number given is the number of orders, up to wrapping.
    pub handle_trader-Inv :
        (Others : Order F → Type 0) (s : Session Cipher) (ms : List (Read ed js)) (b : OrderBook F)
        → All (λ m. All Others m.others) ms
        → All Others b.orders
        → b.seq ≡ length b.orders % 2 ^ 64
        → Inv Others (payloads_of ms s.recv) (handle_trader ed js n (ok s) ms b).2
    unfolding handle_trader
    handle_trader-Inv Others s ms b k old numbered =
        serve-Inv Others (payloads_of ms s.recv) ms k s b (All-Memᴰ (payloads_of ms s.recv))
          (record { known = All-mono Others _ (λ o h. inl h) b.orders old; numbered = numbered })
