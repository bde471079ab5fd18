-- ===== src/Apps/IotTelemetry.antt =====
-- The telemetry server (examples/iot-telemetry): the records that it keeps of each device, and the loop
-- over the messages of a connection. `json` is encoding/json at the two types; what a device measures
-- is a parameter.
pub mod Kept
pub mod Recent
use fproto.Base.{
  ℕ, zero, suc, ◌≡◌, ◌+◌, ◌-◌, refl, ap, Bool, true, false, Option, none, some, List, [], ◌∷◌, ◌++◌,
  arith, Bytes, codes, Result, ok, err, ltb, ◌==◌, if◌then◌else◌, length, drop, Map, lookup, assign,
}
use fproto.Noise
use fproto.Noise.{Noise, Session, NoiseError}
use fproto.Apps.Frames.{
  Json, Decoded, decoded, out_of_range, decode_elements, encoded, Ending, Served, closed,
  undecryptable, panicked, sends, sealed,
}

module _ (Value : Type 0) where
  pub record Telemetry : Type 0 where
    pub device_id : Bytes
    pub sensor_data : Map Value
    pub timestamp_ms : ℕ

pub record ControlCommand : Type 0 where
  pub device_id : Bytes
  pub action : Bytes
  pub params : Map Bytes

abbrev pub msg_telemetry : ℕ
msg_telemetry = 1

abbrev pub msg_control_command : ℕ
msg_control_command = 2

-- The number of records that are kept of a device.
abbrev pub kept : ℕ
kept = 1000

-- telemetryStore.
abbrev pub TelemetryStore : Type 0 → Type 0
TelemetryStore Value = Map (List (Telemetry Value))

module _ {Value : Type 0} where
  abbrev pub or_empty : Option (List (Telemetry Value)) → List (Telemetry Value)
  or_empty none = []
  or_empty (some ts) = ts

  -- s.records[deviceID].
  abbrev pub records_of : Bytes → TelemetryStore Value → List (Telemetry Value)
  records_of id s = or_empty (lookup id s)

  abbrev pub trimmed : Bytes → TelemetryStore Value → TelemetryStore Value
  trimmed id s =
      if ltb kept (length (records_of id s))
      then assign id (drop (length (records_of id s) - kept) (records_of id s)) s
      else s

  -- telemetryStore.add and count.
  unfoldable pub add : Telemetry Value → TelemetryStore Value → TelemetryStore Value
  add t s = trimmed t.device_id (assign t.device_id (records_of t.device_id s ++ (t ∷ [])) s)

  unfoldable pub count : Bytes → TelemetryStore Value → ℕ
  count id s = length (records_of id s)

  -- encodeCommand of the acknowledgement.
  abbrev pub ack : Json ControlCommand → Telemetry Value → Option Bytes
  ack json t = encoded msg_control_command (
      json.marshal (record {
        device_id = t.device_id;
        action = codes "ack";
        params = (codes "count", codes "1") ∷ [];
      }))

module _ {Value : Type 0} where
  -- What some connections add, one after the other.
  abbrev pub add_all : List (Telemetry Value) → TelemetryStore Value → TelemetryStore Value
  add_all [] s = s
  add_all (t ∷ ts) s = add_all ts (add t s)

module _ (Value : Type 0) where
  -- A message that is read, with what stands behind its plaintext in the array, and what other
  -- connections add to the store before its turn.
  pub record Read : Type 0 where
    pub ciphertext : Bytes
    pub behind : Bytes
    pub others : List (Telemetry Value)

module _ {Value Handshake Cipher : Type 0} (n : Noise Handshake Cipher)
    (json : Json (Telemetry Value)) (commands : Json ControlCommand) where
  -- The rest of the loop, from a session and a store on.
  abbrev pub Rest : Type 0
  Rest = Session Cipher → TelemetryStore Value → Served (TelemetryStore Value)

  abbrev pub stored :
      Option (Telemetry Value)
      → Session Cipher
      → TelemetryStore Value
      → Rest
      → Served (TelemetryStore Value)
  stored none s store rest = rest s store
  stored (some t) s store rest =
      let (ct, s') = sealed n (ack commands t) s in sends ct (rest s' (add t store))

  abbrev pub received :
      Decoded → Session Cipher → TelemetryStore Value → Rest → Served (TelemetryStore Value)
  received out_of_range s store rest = ([], panicked, store)
  received (decoded kind payload) s store rest =
      if kind == msg_telemetry then stored (json.unmarshal payload) s store rest else rest s store

  abbrev pub opened :
      Bytes
      → Result NoiseError Bytes × Session Cipher
      → TelemetryStore Value
      → Rest
      → Served (TelemetryStore Value)
  opened behind (err e, s) store rest = ([], undecryptable, store)
  opened behind (ok plaintext, s) store rest =
      received (decode_elements plaintext behind) s store rest

  -- The loop of handleDevice over what is read until a read fails: what is sent, how the loop ends, and
  -- the store.
  unfoldable pub serve : List (Read Value) → Rest
  serve [] s store = ([], closed, store)
  serve (m ∷ ms) s store =
      opened m.behind (Noise.decrypt n m.ciphertext s) (add_all m.others store) (serve ms)

  unfoldable pub handle_device :
      Result NoiseError (Session Cipher)
      → List (Read Value)
      → TelemetryStore Value
      → Served (TelemetryStore Value)
  handle_device (err e) ms store = ([], closed, store)
  handle_device (ok s) ms store = serve ms s store
