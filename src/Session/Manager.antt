-- ===== src/Session/Manager.antt =====
-- proto-core/session/manager.go: each method over the two stores, with the outcome of each call of them.
-- The random bytes and the clock are arguments.
pub mod Laws
pub mod Transitions
pub mod Registrations
use fproto.Base.{
  ℕ, suc, ◌+◌, Bool, true, false, Option, none, some, List, [], ◌∷◌, Bytes, Result, ok, err, leb,
  if◌then◌else◌, length,
}
use fproto.Sql.{DbError, Outcome, Answer}
use fproto.Session.Machine.{
  Status, Event, TransitionResult, InvalidTransition, connecting, packet_received, transition,
}
use fproto.Session.Stores.{Connection, Session, RedisDb, PgDb}
use fproto.Session.Stores.Redis
use fproto.Session.Stores.Pg

pub record Config : Type 0 where
  pub expiry_timeout : ℕ
  pub max_connections : ℕ

-- Redis, and PostgreSQL if the manager has it.
pub record World : Type 0 where
  pub redis : RedisDb
  pub pg : Option PgDb

-- How the calls of one method end.
pub record Calls : Type 0 where
  pub reads : Outcome
  pub reads_conns : Outcome
  pub reads_again : Outcome
  pub reads_conns_again : Outcome
  pub writes : Outcome
  pub touches : Outcome
  pub pg_calls : Outcome

pub data ManagerError : Type 0 where
  no_random : ManagerError
  redis_failed : DbError → ManagerError
  pg_failed : DbError → ManagerError
  not_allowed : InvalidTransition → ManagerError
  max_connections_reached : ℕ → ManagerError

abbrev Effect : Type 0
Effect = Result DbError (Unit {0}) × World

abbrev pub on_redis : (RedisDb → Answer RedisDb) → World → Effect
on_redis f w = let (r, d) = f w.redis in (r, record w { redis = d })

abbrev with_pg : (PgDb → Answer PgDb) → Option PgDb → Result DbError (Unit {0}) × Option PgDb
with_pg f none = (ok tt, none)
with_pg f (some t) = let (r, t') = f t in (r, some t')

-- A call of PostgreSQL, if the manager has it.
abbrev pub on_pg : (PgDb → Answer PgDb) → World → Effect
on_pg f w = let (r, t) = with_pg f w.pg in (r, record w { pg = t })

-- The session that CreateSession makes: it has no crypto state.
unfoldable pub new_session : Config → ℕ → Bytes → Option Bytes → Option Bytes → Session
new_session config now id user device = record {
  session_id = id;
  user_id = user;
  device_id = device;
  status = connecting;
  crypto_state = none;
  created_at = now;
  last_active = now;
  expires_at = now + config.expiry_timeout;
  connections = [];
}

abbrev pub after_pg_create : Session → Effect → Result ManagerError Session × World
after_pg_create s (ok u, w) = (ok s, w)
after_pg_create s (err e, w) = (err (pg_failed e), w)

abbrev pub after_redis_create : Calls → Session → Effect → Result ManagerError Session × World
after_redis_create calls s (ok u, w) = after_pg_create s (on_pg (Pg.create calls.pg_calls s) w)
after_redis_create calls s (err e, w) = (err (redis_failed e), w)

unfoldable pub create_session :
    Config
    → Calls
    → ℕ
    → Option Bytes
    → Option Bytes
    → Option Bytes
    → World
    → Result ManagerError Session × World
create_session config calls now none user device w = (err no_random, w)
create_session config calls now (some id) user device w =
    let s = new_session config now id user device in
    after_redis_create calls s (on_redis (Redis.create calls.writes s) w)

abbrev or_pg : Outcome → Bytes → Option PgDb → Result DbError Session → Result DbError Session
or_pg o id pg (ok s) = ok s
or_pg o id none (err e) = err e
or_pg o id (some t) (err e) = Pg.get o id t

-- GetSession falls back to PostgreSQL on any error.
unfoldable pub get_session : Calls → Bytes → World → Result DbError Session
get_session calls id w =
    or_pg calls.pg_calls id w.pg (Redis.get calls.reads calls.reads_conns id w.redis)

abbrev Transitioned : Type 0
Transitioned = Result ManagerError (Option Session) × World

-- The deletion; an error of PostgreSQL is dropped.
abbrev pub after_delete : Calls → Bytes → Effect → Transitioned
after_delete calls id (err e, w) = (err (redis_failed e), w)
after_delete calls id (ok u, w) = (ok none, (on_pg (Pg.delete calls.pg_calls id) w).1)

abbrev is_packet : Event → Bool
is_packet packet_received = true
is_packet _ = false

-- The last activity, for a packet; its error is dropped.
abbrev pub touched : Calls → ℕ → Event → Bytes → World → World
touched calls now event id w =
    if is_packet event then (on_redis (Redis.update_last_active calls.touches id now) w).1 else w

-- What follows the new status in Redis; an error of PostgreSQL is dropped.
abbrev pub after_status : Calls → ℕ → Event → Session → Status → Effect → Transitioned
after_status calls now event s next (err e, w) = (err (redis_failed e), w)
after_status calls now event s next (ok u, w) = (
  ok (some (record s { status = next })),
  (on_pg (Pg.update_status calls.pg_calls s.session_id next)
      (touched calls now event s.session_id w)).1,
)

abbrev pub after_transition :
    Calls
    → ℕ
    → Event
    → Bytes
    → Session
    → Result InvalidTransition TransitionResult
    → World
    → Transitioned
after_transition calls now event id s (err e) w = (err (not_allowed e), w)
after_transition calls now event id s (ok r) w =
    if r.destroyed
    then after_delete calls id
        (on_redis (Redis.delete calls.reads_again calls.reads_conns_again calls.writes id) w)
    else after_status calls now event s r.next
        (on_redis (Redis.update_status calls.writes id r.next) w)

abbrev pub after_get : Calls → ℕ → Event → Bytes → World → Result DbError Session → Transitioned
after_get calls now event id w (err e) = (err (redis_failed e), w)
after_get calls now event id w (ok s) =
    after_transition calls now event id s (transition s.status event) w

-- TransitionSession: the session with its new status, or none if it was destroyed.
unfoldable pub transition_session : Calls → ℕ → Bytes → Event → World → Transitioned
transition_session calls now id event w =
    after_get calls now event id w (Redis.get calls.reads calls.reads_conns id w.redis)

abbrev after_redis_crypto : Calls → Bytes → Option Bytes → Effect → Effect
after_redis_crypto calls id c (err e, w) = (err e, w)
after_redis_crypto calls id c (ok u, w) = on_pg (Pg.update_crypto_state calls.pg_calls id c) w

unfoldable pub update_crypto_state : Calls → Bytes → Option Bytes → World → Effect
update_crypto_state calls id c w =
    after_redis_crypto calls id c (on_redis (Redis.update_crypto_state calls.writes id c) w)

abbrev Registered : Type 0
Registered = ℕ × Result ManagerError (Unit {0}) × World

abbrev pub after_add : ℕ → Effect → Registered
after_add n (ok u, w) = (n + 1, ok tt, w)
after_add n (err e, w) = (0, err (redis_failed e), w)

abbrev pub after_connections :
    Config → Calls → Bytes → Connection → World → Result DbError (List Connection) → Registered
after_connections config calls id c w (err e) = (0, err (redis_failed e), w)
after_connections config calls id c w (ok cs) =
    if leb config.max_connections (length cs)
    then (length cs, err (max_connections_reached config.max_connections), w)
    else after_add (length cs) (on_redis (Redis.add_connection calls.writes id c) w)

-- RegisterConnection: the count and the error that it returns.
unfoldable pub register_connection : Config → Calls → Bytes → Connection → World → Registered
register_connection config calls id c w =
    after_connections config calls id c w (Redis.get_connections calls.reads_conns id w.redis)

unfoldable pub unregister_connection : Calls → Bytes → Bytes → World → Effect
unregister_connection calls id connection_id w =
    on_redis (Redis.remove_connection calls.writes id connection_id) w

unfoldable pub get_user_sessions : Calls → Bytes → World → Result DbError (List Bytes)
get_user_sessions calls user w = Redis.get_user_sessions calls.reads user w.redis
