-- ===== src/Session/Stores/Redis.antt =====
-- The methods of RedisStore (proto-core/session/redis_store.go).
use fproto.Base.{
  ℕ, not, Option, none, some, List, [], ◌∷◌, ◌++◌, map, Bytes, Result, ok, err, if◌then◌else◌,
  bytes_equal, filter, any, Map, lookup, assign, unassign,
}
use fproto.Message.{bytes_of}
use fproto.Sql.{DbError, no_rows, Outcome, Answer, exec, always, query}
use fproto.Session.Machine.{Status, unlisted_status}
use fproto.Session.Stores.{Connection, Session, Hash, no_fields, RedisDb}

abbrev members_of : Bytes → RedisDb → List Bytes
members_of u d = elim (lookup u d.user_sessions) [ none ↦ [] | some ids ↦ ids ]

-- SADD.
abbrev with_member : Bytes → List Bytes → List Bytes
with_member id ids = if any (bytes_equal id) ids then ids else ids ++ id ∷ []

-- Missing fields read as the empty string, or as 0 where a number is parsed.
abbrev number : Option ℕ → ℕ
number none = 0
number (some n) = n

abbrev status_of : Option Status → Status
status_of none = unlisted_status []
status_of (some s) = s

-- HSET creates the hash if it is missing.
unfoldable pub hash_of : Bytes → RedisDb → Hash
hash_of id d = elim (lookup id d.sessions) [ none ↦ no_fields | some h ↦ h ]

abbrev pub set_field : Bytes → (Hash → Hash) → RedisDb → RedisDb
set_field id f d = record d { sessions = assign id (f (hash_of id d)) d.sessions }

unfoldable pub create : Outcome → Session → RedisDb → Answer RedisDb
create o s = exec o (
    always (λ d. record d {
      sessions =
          assign s.session_id
            (record {
              user_id = some (bytes_of s.user_id);
              device_id = some (bytes_of s.device_id);
              status = some s.status;
              crypto_state = some (bytes_of s.crypto_state);
              created_at = some s.created_at;
              last_active = some s.last_active;
              expires_at = some s.expires_at;
            })
            d.sessions;
      user_sessions =
          assign (bytes_of s.user_id) (with_member s.session_id (members_of (bytes_of s.user_id) d))
            d.user_sessions;
    }))

abbrev pub conns_of : Bytes → RedisDb → Map Connection
conns_of id d = elim (lookup id d.connections) [ none ↦ [] | some m ↦ m ]

unfoldable pub get_connections : Outcome → Bytes → RedisDb → Result DbError (List Connection)
get_connections o id d = query o (ok (map (λ e. e.1) (conns_of id d)))

-- The error of GetConnections is dropped, and the connections are nil.
abbrev or_nil : Result DbError (List Connection) → List Connection
or_nil (ok cs) = cs
or_nil (err e) = []

unfoldable pub read_session : Outcome → Bytes → RedisDb → Option Hash → Result DbError Session
read_session oc id d none = err no_rows
read_session oc id d (some h) = ok (record {
  session_id = id;
  user_id = some (bytes_of h.user_id);
  device_id = some (bytes_of h.device_id);
  status = status_of h.status;
  crypto_state = some (bytes_of h.crypto_state);
  created_at = number h.created_at;
  last_active = number h.last_active;
  expires_at = number h.expires_at;
  connections = or_nil (get_connections oc id d);
})

-- Get, with the outcomes of its two reads.
unfoldable pub get : Outcome → Outcome → Bytes → RedisDb → Result DbError Session
get o oc id d = query o (read_session oc id d (lookup id d.sessions))

unfoldable pub update_status : Outcome → Bytes → Status → RedisDb → Answer RedisDb
update_status o id s = exec o (always (set_field id (λ h. record h { status = some s })))

unfoldable pub update_crypto_state : Outcome → Bytes → Option Bytes → RedisDb → Answer RedisDb
update_crypto_state o id c =
    exec o (always (set_field id (λ h. record h { crypto_state = some (bytes_of c) })))

-- `now` is the client's clock.
unfoldable pub update_last_active : Outcome → Bytes → ℕ → RedisDb → Answer RedisDb
update_last_active o id now =
    exec o (always (set_field id (λ h. record h { last_active = some now })))

abbrev deleted : Bytes → Bytes → RedisDb → RedisDb
deleted id u d = record d {
  sessions = unassign id d.sessions;
  connections = unassign id d.connections;
  user_sessions = assign u (filter (λ x. not (bytes_equal x id)) (members_of u d)) d.user_sessions;
}

abbrev delete_read : Outcome → Bytes → Result DbError Session → RedisDb → Answer RedisDb
delete_read o id (err e) d = (err e, d)
delete_read o id (ok s) d = exec o (always (deleted id (bytes_of s.user_id))) d

-- Delete reads the session first, for its user.
unfoldable pub delete : Outcome → Outcome → Outcome → Bytes → RedisDb → Answer RedisDb
delete og oc o id d = delete_read o id (get og oc id d) d

unfoldable pub add_connection : Outcome → Bytes → Connection → RedisDb → Answer RedisDb
add_connection o id c = exec o (
    always (λ d. record d {
      connections = assign id (assign c.connection_id c (conns_of id d)) d.connections;
    }))

unfoldable pub remove_connection : Outcome → Bytes → Bytes → RedisDb → Answer RedisDb
remove_connection o id connection_id = exec o (
    always (λ d. record d {
      connections = assign id (unassign connection_id (conns_of id d)) d.connections;
    }))

unfoldable pub get_user_sessions : Outcome → Bytes → RedisDb → Result DbError (List Bytes)
get_user_sessions o u d = query o (ok (members_of u d))
