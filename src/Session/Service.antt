-- ===== src/Session/Service.antt =====
-- server/internal/sessiongrpc/server.go: the gRPC methods over the manager, and the conversions.
use fproto.Base.{
  arith, ℕ, ◌%◌, ◌^◌, ◌≡◌, refl, Option, none, some, List, map, Bytes, Result, ok, err,
}
use fproto.Sql.{DbError}
use fproto.Session.Machine.{
  Status, Event, connecting, active, sleeping, expired, unlisted_status, handshake_ok, idle_timeout,
  explicit_logout, transition, not_valid_in, transitions, sleeping_events,
}
use fproto.Session.Stores.{
  Connection, Session, ConnTransport, over_web_socket, over_quic, over_grpc, unlisted_transport,
}
use fproto.Session.Stores.Redis
use fproto.Session.Manager.{
  Config, World, Calls, ManagerError, not_allowed, create_session, get_session, transition_session,
  register_connection, unregister_connection,
}

-- The enums of the protocol.
pub data SessionStatus : Type 0 where
  status_unspecified connecting_status active_status sleeping_status expired_status : SessionStatus
  unlisted_session_status : ℕ → SessionStatus

pub data TransportKind : Type 0 where
  transport_unspecified web_socket_kind quic_kind grpc_kind : TransportKind
  unlisted_kind : ℕ → TransportKind

pub data ServiceError : Type 0 where
  create_failed : ManagerError → ServiceError
  session_not_found : DbError → ServiceError
  invalid_status : ServiceError
  failed_precondition : ManagerError → ServiceError
  session_destroyed : ServiceError
  resource_exhausted : ManagerError → ServiceError
  internal_error : DbError → ServiceError
  unimplemented : ServiceError

pub record ProtoConnection : Type 0 where
  pub connection_id : Bytes
  pub transport : TransportKind
  pub gateway_id : Bytes
  pub remote_addr : Bytes
  pub connected_at : ℕ
  pub last_packet_seq : ℕ

pub record ProtoSession : Type 0 where
  pub session_id : Bytes
  pub user_id : Option Bytes
  pub device_id : Option Bytes
  pub status : SessionStatus
  pub crypto_state : Option Bytes
  pub created_at : ℕ
  pub last_active : ℕ
  pub expires_at : ℕ
  pub connections : List ProtoConnection

unfoldable pub status_to_proto : Status → SessionStatus
status_to_proto connecting = connecting_status
status_to_proto active = active_status
status_to_proto sleeping = sleeping_status
status_to_proto expired = expired_status
status_to_proto (unlisted_status t) = status_unspecified

unfoldable pub status_to_event : SessionStatus → Option Event
status_to_event active_status = some handshake_ok
status_to_event sleeping_status = some idle_timeout
status_to_event expired_status = some explicit_logout
status_to_event _ = none

unfoldable pub transport_to_proto : ConnTransport → TransportKind
transport_to_proto over_web_socket = web_socket_kind
transport_to_proto over_quic = quic_kind
transport_to_proto over_grpc = grpc_kind
transport_to_proto (unlisted_transport t) = transport_unspecified

unfoldable pub proto_to_transport : TransportKind → ConnTransport
proto_to_transport web_socket_kind = over_web_socket
proto_to_transport quic_kind = over_quic
proto_to_transport grpc_kind = over_grpc
proto_to_transport _ = over_web_socket

unfoldable pub connection_to_proto : Connection → ProtoConnection
unfolding transport_to_proto
connection_to_proto c = record {
  connection_id = c.connection_id;
  transport = transport_to_proto c.transport;
  gateway_id = c.gateway_id;
  remote_addr = c.remote_addr;
  connected_at = c.connected_at;
  last_packet_seq = c.last_packet_seq;
}

unfoldable pub session_to_proto : Session → ProtoSession
unfolding status_to_proto connection_to_proto
session_to_proto s = record {
  session_id = s.session_id;
  user_id = s.user_id;
  device_id = s.device_id;
  status = status_to_proto s.status;
  crypto_state = s.crypto_state;
  created_at = s.created_at;
  last_active = s.last_active;
  expires_at = s.expires_at;
  connections = map connection_to_proto s.connections;
}

abbrev created :
    Result ManagerError Session × World → Result ServiceError (Bytes × ProtoSession) × World
created (err e, w) = (err (create_failed e), w)
created (ok s, w) = (ok (s.session_id, session_to_proto s), w)

-- CreateSession: the id and the session of the response.
unfoldable pub rpc_create_session :
    Config
    → Calls
    → ℕ
    → Option Bytes
    → Option Bytes
    → Option Bytes
    → World
    → Result ServiceError (Bytes × ProtoSession) × World
rpc_create_session config calls now random user device w =
    created (create_session config calls now random user device w)

abbrev found : Result DbError Session → Result ServiceError ProtoSession
found (err e) = err (session_not_found e)
found (ok s) = ok (session_to_proto s)

unfoldable pub rpc_get_session : Calls → Bytes → World → Result ServiceError ProtoSession
rpc_get_session calls id w = found (get_session calls id w)

abbrev pub moved :
    Result ManagerError (Option Session) × World → Result ServiceError ProtoSession × World
moved (err e, w) = (err (failed_precondition e), w)
moved (ok none, w) = (err session_destroyed, w)
moved (ok (some s), w) = (ok (session_to_proto s), w)

abbrev pub update_by :
    Calls → ℕ → Bytes → Option Event → World → Result ServiceError ProtoSession × World
update_by calls now id none w = (err invalid_status, w)
update_by calls now id (some event) w = moved (transition_session calls now id event w)

unfoldable pub update_session_status :
    Calls → ℕ → Bytes → SessionStatus → World → Result ServiceError ProtoSession × World
update_session_status calls now id status w = update_by calls now id (status_to_event status) w

-- The new connection, whose last packet is 0.
unfoldable pub new_connection : ℕ → Bytes → TransportKind → Bytes → Bytes → Connection
unfolding proto_to_transport
new_connection now connection_id kind gateway_id remote_addr = record {
  connection_id = connection_id;
  transport = proto_to_transport kind;
  gateway_id = gateway_id;
  remote_addr = remote_addr;
  connected_at = now;
  last_packet_seq = 0;
}

abbrev registered : ℕ × Result ManagerError (Unit {0}) × World → Result ServiceError ℕ × World
registered (n, err e, w) = (err (resource_exhausted e), w)
registered (n, ok u, w) = (ok (n % 2 ^ 32), w)

-- RegisterConnection: the count, as a uint32.
unfoldable pub rpc_register_connection :
    Config → Calls → Bytes → Connection → World → Result ServiceError ℕ × World
rpc_register_connection config calls id c w = registered (register_connection config calls id c w)

abbrev unregistered : Result DbError (Unit {0}) × World → Result ServiceError (Unit {0}) × World
unregistered (ok u, w) = (ok tt, w)
unregistered (err e, w) = (err (internal_error e), w)

unfoldable pub rpc_unregister_connection :
    Calls → Bytes → Bytes → World → Result ServiceError (Unit {0}) × World
rpc_unregister_connection calls id connection_id w =
    unregistered (unregister_connection calls id connection_id w)

unfoldable pub route_to_session : Bytes → Result ServiceError (Unit {0})
route_to_session id = err unimplemented

sleeping_refuses :
    (e : Event) (status : SessionStatus)
    → status_to_event status ≡ some e
    → transition sleeping e ≡ err (not_valid_in e sleeping)
unfolding status_to_event transition transitions sleeping_events
sleeping_refuses e status h = ground arith

-- No request for a new status moves a session that Redis holds as sleeping: of the events that the
-- statuses stand for none is allowed there, so the method returns an error and the stores stay as
-- they are.
update_session_status-sleeping :
    (calls : Calls) (now : ℕ) (id : Bytes) (status : SessionStatus) (w : World) (s : Session)
    → Redis.get calls.reads calls.reads_conns id w.redis ≡ ok s
    → s.status ≡ sleeping
    → (x : ServiceError) × (update_session_status calls now id status w ≡ (err x, w))
unfolding update_session_status transition_session
update_session_status-sleeping calls now id status w s hg hs =
    by_event (status_to_event status) refl
  where
    by_event :
        (e : Option Event)
        → status_to_event status ≡ e
        → (x : ServiceError) × (update_by calls now id e w ≡ (err x, w))
    by_event none q = (invalid_status, refl)
    by_event (some e) q = (
      failed_precondition (not_allowed (not_valid_in e sleeping)),
      rw (hg, hs, sleeping_refuses e status q) refl,
    )
