-- ===== src/Apps/IotTelemetry/Recent.antt =====
-- What the store of the telemetry server (examples/iot-telemetry/server.go) holds after a connection.
use fproto.Base.{
  ℕ, ◌≡◌, ◌≤◌, ◌+◌, ◌<◌, ◌^◌, refl, ap, sym, ◌∙◌, Option, none, some, List, [], ◌∷◌, ◌++◌, Bytes,
  ok, ◌==◌, if◌then◌else◌, length, Bool-cases, inl, inr, uint32_be,
}
use fproto.Noise.{Noise, Session, or_error, decrypt, decrypt_failed}
use fproto.Apps.Frames.{
  Json, Decoded, decoded, out_of_range, decode_elements, decode_elements-out_of_range, panicked,
  sealed, sealed-recv,
}
use fproto.Apps.IotTelemetry.{
  Telemetry, TelemetryStore, ControlCommand, records_of, add, add_all, kept, Read, msg_telemetry,
  ack, stored, received, opened, serve,
}
use fproto.Apps.IotTelemetry.Kept.{
  last, length-last, of_device, IsBounded, add_all-append, records_of-add_all,
}

module _ {Value : Type 0} where
  -- The record that a payload reports, if it does, and those after it; none where decodeMessage panics.
  module _ (json : Json (Telemetry Value)) where
    abbrev pub with_record :
        Option (Telemetry Value) → List (Telemetry Value) → List (Telemetry Value)
    with_record none ts = ts
    with_record (some t) ts = t ∷ ts

    abbrev pub in_frame : Decoded → List (Telemetry Value) → List (Telemetry Value)
    in_frame out_of_range ts = []
    in_frame (decoded kind payload) ts =
        if kind == msg_telemetry then with_record (json.unmarshal payload) ts else ts

module _ {Value Handshake Cipher : Type 0} (n : Noise Handshake Cipher)
    (json : Json (Telemetry Value)) where
  abbrev pub followed :
      Bytes → Option Bytes × Cipher → (Cipher → List (Telemetry Value)) → List (Telemetry Value)
  followed behind (none, c) rest = []
  followed behind (some pt, c) rest = in_frame json (decode_elements pt behind) (rest c)

  -- All records that arrive while a connection is served, in order: those that it reports, up to the
  -- first message that does not open or that makes the server panic, and those of the others.
  unfoldable pub arrived : List (Read Value) → Cipher → List (Telemetry Value)
  arrived [] c = []
  arrived (m ∷ ms) c = m.others ++ followed m.behind (n.unseal m.ciphertext c) (arrived ms)

  module _ (commands : Json ControlCommand) where
    abbrev Arrives : List (Read Value) → Type 0
    Arrives ms =
        (s : Session Cipher) (store : TelemetryStore Value)
        → (serve n json commands ms s store).2 ≡ add_all (arrived ms s.recv) store

    stored-with_record :
        (o : Option (Telemetry Value)) (ms : List (Read Value)) (s : Session Cipher)
        (store : TelemetryStore Value)
        → Arrives ms
        → (stored n json commands o s store (serve n json commands ms)).2
          ≡ add_all (with_record json o (arrived ms s.recv)) store
    stored-with_record none ms s store ih = ih s store
    stored-with_record (some t) ms s store ih =
        ih (sealed n (ack commands t) s).1 (add t store)
        ∙ ap (λ c. add_all (arrived ms c) (add t store)) (sealed-recv n (ack commands t) s)

    received-in_frame :
        (d : Decoded) (ms : List (Read Value)) (s : Session Cipher) (store : TelemetryStore Value)
        → Arrives ms
        → (received n json commands d s store (serve n json commands ms)).2
          ≡ add_all (in_frame json d (arrived ms s.recv)) store
    received-in_frame out_of_range ms s store ih = refl
    received-in_frame (decoded kind payload) ms s store ih =
        elim (Bool-cases (kind == msg_telemetry)) [
          | inl e ↦ rw e (stored-with_record (json.unmarshal payload) ms s store ih)
          | inr e ↦ rw e (ih s store)
        ]

    opened-followed :
        (behind : Bytes) (p : Option Bytes × Cipher) (ms : List (Read Value)) (s : Session Cipher)
        (store : TelemetryStore Value)
        → Arrives ms
        → (opened n json commands behind
            (or_error decrypt_failed p.0, record s { recv = p.1 })
            store
            (serve n json commands ms)).2
          ≡ add_all (followed behind p (arrived ms)) store
    opened-followed behind (none, c) ms s store ih = refl
    opened-followed behind (some pt, c) ms s store ih =
        received-in_frame (decode_elements pt behind) ms (record s { recv = c }) store ih

    serve-arrived : (ms : List (Read Value)) → Arrives ms
    unfolding serve arrived decrypt
    serve-arrived [] s store = refl
    serve-arrived (m ∷ ms) s store =
        opened-followed m.behind (n.unseal m.ciphertext s.recv) ms s (add_all m.others store)
          (serve-arrived ms)
        ∙ sym (
            add_all-append m.others (followed m.behind (n.unseal m.ciphertext s.recv) (arrived ms))
              store)

    -- After a connection to a bounded store, with others that add to it meanwhile: of each device the
    -- store holds the last thousand of the records that it held and of those that arrived, from this
    -- connection and from the others, in their order, and it is bounded.
    pub serve-records :
        (ms : List (Read Value)) (s : Session Cipher) (store : TelemetryStore Value)
        → IsBounded store
        → (id : Bytes)
        → (records_of id (serve n json commands ms s store).2
            ≡ last kept (records_of id store ++ of_device id (arrived ms s.recv)))
          × (length (records_of id (serve n json commands ms s store).2) ≤ kept)
    serve-records ms s store b id =
        let ts : List (Telemetry Value) = arrived ms s.recv in
        rw (serve-arrived ms s store) (
          records_of-add_all id ts store b,
          rw (records_of-add_all id ts store b)
              (length-last kept (records_of id store ++ of_device id ts)),
        )

    -- A device whose frame claims more than there is in the array of its plaintext makes the
    -- server panic, whatever follows.
    pub serve-panics :
        (ct behind rest : Bytes) (others : List (Telemetry Value)) (kind a b c d : ℕ)
        (ms : List (Read Value)) (s s' : Session Cipher) (store : TelemetryStore Value)
        → uint32_be a b c d < 2 ^ 32
        → length rest + length behind < uint32_be a b c d
        → decrypt n ct s ≡ (ok (kind ∷ a ∷ b ∷ c ∷ d ∷ rest), s')
        → serve n json commands
            (record { ciphertext = ct; behind = behind; others = others } ∷ ms)
            s
            store
          ≡ ([], panicked, add_all others store)
    unfolding serve
    serve-panics ct behind rest others kind a b c d ms s s' store h k e =
        rw (e, decode_elements-out_of_range kind a b c d rest behind h k)
