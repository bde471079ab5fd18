-- ===== src/Session/Calls.antt =====
-- The manager over two small stores.
use fproto.Base.{
  suc, length, ◌≤◌, ◌≡◌, refl, none, some, [], ◌∷◌, Result, ok, err, lookup, bytes_equal,
}
use fproto.Sql.{DbError, done}
use fproto.Session.Machine.{
  active, sleeping, TransitionResult, transition, idle_timeout, transitions, active_events,
}
use fproto.Session.Stores.{Connection, Session, Hash, RedisDb, PgDb, no_fields, over_quic}
use fproto.Session.Stores.Redis
use fproto.Session.Manager.{
  Config, World, Calls, create_session, pg_failed, transition_session, register_connection,
}
use fproto.Session.Manager.Transitions.{HasStatus, transition_session-transition}
use fproto.Session.Manager.Registrations.{register_connection-limit}
use fproto.Session.Manager.Laws.{create_session-pg}

abbrev all_done : Calls
all_done = record {
  reads = done;
  reads_conns = done;
  reads_again = done;
  reads_conns_again = done;
  writes = done;
  touches = done;
  pg_calls = done;
}

abbrev small : Config
small = record { expiry_timeout = 100; max_connections = 2 }

abbrev no_redis : RedisDb
no_redis = record { sessions = []; connections = []; user_sessions = [] }

abbrev no_pg : PgDb
no_pg = record { rows = []; now = 0 }

create_session-pg_example :
    let a =
      create_session small all_done 5
        (some (1 ∷ []))
        (some (2 ∷ []))
        (some (3 ∷ []))
        (record { redis = no_redis; pg = some no_pg }) in
    ((x : DbError) × (a.0 ≡ err (pg_failed x)))
    × ((h : Hash) × (lookup (1 ∷ []) a.1.redis.sessions ≡ some h))
create_session-pg_example =
    create_session-pg small all_done 5 (1 ∷ []) (some (2 ∷ [])) (some (3 ∷ [])) no_redis no_pg refl

abbrev active_world : World
active_world = record {
  redis = record no_redis { sessions = (1 ∷ [], record no_fields { status = some active }) ∷ [] };
  pg = none;
}

abbrev sleeping_world : World
sleeping_world = record {
  redis = record no_redis { sessions = (1 ∷ [], record no_fields { status = some sleeping }) ∷ [] };
  pg = none;
}

abbrev session_of : World → Session
session_of w = or_else (Redis.get done done (1 ∷ []) w.redis)
  where
    or_else : Result DbError Session → Session
    or_else (ok s) = s
    or_else (err e) = record {
      session_id = [];
      user_id = none;
      device_id = none;
      status = active;
      crypto_state = none;
      created_at = 0;
      last_active = 0;
      expires_at = 0;
      connections = [];
    }

active_dozes :
    (transition_session all_done 9 (1 ∷ []) idle_timeout active_world).0
    ≡ ok (some (record (session_of active_world) { status = sleeping }))
unfolding transition_session Redis.get Redis.read_session Redis.get_connections Redis.update_status
    lookup bytes_equal transition transitions active_events
active_dozes = refl

transition_session-transition_example :
    (before : Session) × (r : TransitionResult) × (Redis.get done done (1 ∷ []) active_world.redis
      ≡ ok before)
    × (transition before.status idle_timeout ≡ ok r)
    × (record (session_of active_world) { status = sleeping } ≡ record before { status = r.next })
    × HasStatus
        (1 ∷ [])
        r.next
        (transition_session all_done 9 (1 ∷ []) idle_timeout active_world).1.redis
transition_session-transition_example =
    transition_session-transition all_done 9 (1 ∷ []) idle_timeout active_world
      (record (session_of active_world) { status = sleeping }) active_dozes

abbrev phone : Connection
phone = record {
  connection_id = 4 ∷ [];
  transport = over_quic;
  gateway_id = [];
  remote_addr = [];
  connected_at = 0;
  last_packet_seq = 0;
}

phone_registered : (register_connection small all_done (1 ∷ []) phone active_world).1 ≡ ok tt
unfolding register_connection Redis.get_connections Redis.add_connection lookup
phone_registered = refl

register_connection-limit_example :
    let a = register_connection small all_done (1 ∷ []) phone active_world in
    (a.0 ≡ suc (length (Redis.conns_of (1 ∷ []) active_world.redis)))
    × (a.0 ≤ 2)
    × (lookup (4 ∷ []) (Redis.conns_of (1 ∷ []) a.2.redis) ≡ some phone)
    × (length (Redis.conns_of (1 ∷ []) a.2.redis) ≤ a.0)
register_connection-limit_example =
    register_connection-limit small all_done (1 ∷ []) phone active_world phone_registered

sleeping_read : Redis.get done done (1 ∷ []) sleeping_world.redis ≡ ok (session_of sleeping_world)
unfolding Redis.get Redis.read_session lookup bytes_equal
sleeping_read = refl

sleeping_status : (session_of sleeping_world).status ≡ sleeping
unfolding Redis.get Redis.read_session lookup bytes_equal
sleeping_status = refl
