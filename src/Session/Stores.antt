-- ===== src/Session/Stores.antt =====
-- proto-core/session/model.go, redis_store.go and pg_store.go: a session, and the two stores of it.
-- Redis holds a hash for each session, whose fields may be missing, a hash of its connections, and the
-- set of each user's sessions; the keys are the hexadecimal ids, which stand for the ids. What is stored
-- as hexadecimal or JSON reads back as it was. A pipeline runs as a whole or not at all. Keys that
-- expire are not modelled.
pub mod Redis
pub mod Pg
use fproto.Base.{
  ℕ, Bool, true, false, not, ◌&&◌, Option, none, some, List, [], ◌∷◌, ◌++◌, map, Bytes, Result, ok,
  err, if◌then◌else◌, bytes_equal, filter, any, length, Map, lookup, assign, unassign,
}
use fproto.Message.{bytes_of}
use fproto.Sql.{DbError, violation, no_rows, Outcome, Answer, exec, always, query}
use fproto.Session.Machine.{Status, connecting, active, sleeping, expired, unlisted_status}

-- TransportType.
pub data ConnTransport : Type 0 where
  over_web_socket over_quic over_grpc : ConnTransport
  unlisted_transport : Bytes → ConnTransport

pub record Connection : Type 0 where
  pub connection_id : Bytes
  pub transport : ConnTransport
  pub gateway_id : Bytes
  pub remote_addr : Bytes
  pub connected_at : ℕ
  pub last_packet_seq : ℕ

pub record Session : Type 0 where
  pub session_id : Bytes
  pub user_id : Option Bytes
  pub device_id : Option Bytes
  pub status : Status
  pub crypto_state : Option Bytes
  pub created_at : ℕ
  pub last_active : ℕ
  pub expires_at : ℕ
  pub connections : List Connection

-- The hash of a session.
pub record Hash : Type 0 where
  pub user_id : Option Bytes
  pub device_id : Option Bytes
  pub status : Option Status
  pub crypto_state : Option Bytes
  pub created_at : Option ℕ
  pub last_active : Option ℕ
  pub expires_at : Option ℕ

abbrev pub no_fields : Hash
no_fields = record {
  user_id = none;
  device_id = none;
  status = none;
  crypto_state = none;
  created_at = none;
  last_active = none;
  expires_at = none;
}

pub record RedisDb : Type 0 where
  pub sessions : Map Hash
  pub connections : Map (Map Connection)
  pub user_sessions : Map (List Bytes)

-- A row of the table sessions.
pub record Row : Type 0 where
  pub session_id : Bytes
  pub user_id : Bytes
  pub device_id : Bytes
  pub crypto_state : Bytes
  pub status : Status
  pub created_at : ℕ
  pub updated_at : ℕ
  pub expires_at : ℕ

pub record PgDb : Type 0 where
  pub rows : List Row
  pub now : ℕ
