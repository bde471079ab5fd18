-- ===== src/Kafka/Producer.antt =====
-- server/internal/kafka/producer.go. sarama's SendMessage is a parameter: the outcome of each send.
-- The trace headers of a record are left out.
use fproto.Base.{
  suc, ℕ, Bool, true, if◌then◌else◌, Option, List, [], ◌∷◌, ◌++◌, Bytes, Result, ok, err,
}

-- A record of a topic's log. The key may be nil.
pub record Record : Type 0 where
  pub topic : Bytes
  pub key : Option Bytes
  pub value : Bytes

-- All records that the brokers hold, oldest first.
abbrev pub Log : Type 0
Log = List Record

pub data SendError : Type 0 where
  send_failed : SendError

-- `acked`: the record is stored and acknowledged. `rejected`: it is not stored. `unacked`: it is
-- stored, and the acknowledgement was lost.
pub data SendOutcome : Type 0 where
  acked rejected unacked : SendOutcome

-- Producer.Send, which is SendWithContext with an empty context.
unfoldable pub send :
    SendOutcome → Bytes → Option Bytes → Bytes → Log → Result SendError (Unit {0}) × Log
send acked topic key value log =
    (ok tt, log ++ record { topic = topic; key = key; value = value } ∷ [])
send rejected topic key value log = (err send_failed, log)
send unacked topic key value log =
    (err send_failed, log ++ record { topic = topic; key = key; value = value } ∷ [])

-- Producer.Close closes the underlying producer once: the flag, and how often it was closed.
pub record Producer : Type 0 where
  pub closed : Bool
  pub closes : ℕ

-- Producer.Close, with the error of the underlying Close or none: the flag is set before the call.
unfoldable pub close : Bool → Producer → Result SendError (Unit {0}) × Producer
close fails p =
    if p.closed
    then (ok tt, p)
    else (if fails then err send_failed else ok tt, record { closed = true; closes = suc p.closes })
