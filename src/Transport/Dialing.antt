-- ===== src/Transport/Dialing.antt =====
-- How connections come about and end: DialWS, UpgradeHTTP and Close of proto-core/transport/websocket.go,
-- and AcceptQUIC, DialQUIC and Close of quic.go. A connection of gorilla/websocket or quic-go is known by
-- a number; what these libraries answer is a parameter, and the open connections are a list.
use fproto.Base.{
  ℕ, Bool, Option, none, some, List, [], ◌∷◌, Bytes, codes, Result, ok, err, ◌==◌, if◌then◌else◌,
}

pub data DialError : Type 0 where
  websocket_upgrade websocket_dial quic_accept quic_accept_stream quic_dial quic_open_stream :
      DialError
  unknown_transport : Bytes → DialError

pub record TlsConfig : Type 0 where
  pub next_protos : List Bytes
  pub insecure_skip_verify : Bool

-- quic-go: a connection under a configuration, a stream of a connection, and the address of its end.
pub record Quic : Type 0 where
  pub connection : TlsConfig → Option ℕ
  pub stream : ℕ → Option ℕ
  pub remote_addr : ℕ → Bytes

pub record QuicConn : Type 0 where
  pub conn : ℕ
  pub stream : ℕ
  pub addr : Bytes

abbrev pub quic_alpn : Bytes
quic_alpn = codes "proto/1"

-- The library's own part: a connection is open from then on, or no longer.
abbrev pub opened : Option ℕ → List ℕ → List ℕ
opened none before = before
opened (some c) before = c ∷ before

unfoldable pub closed : ℕ → List ℕ → List ℕ
closed c [] = []
closed c (d ∷ before) = let rest = closed c before in if c == d then before else d ∷ rest

abbrev pub with_stream : Quic → DialError → ℕ → Option ℕ → Result DialError QuicConn
with_stream q e c none = err e
with_stream q e c (some s) = ok (record { conn = c; stream = s; addr = q.remote_addr c })

-- What a connection and then a stream make.
abbrev pub over_quic : Quic → DialError → DialError → Option ℕ → Result DialError QuicConn
over_quic q refused broken none = err refused
over_quic q refused broken (some c) = with_stream q broken c (q.stream c)

-- DialQUIC: the copy of the configuration has the protocol.
unfoldable pub dial_quic : Quic → TlsConfig → List ℕ → Result DialError QuicConn × List ℕ
dial_quic q tls_conf before =
    let c = q.connection (record tls_conf { next_protos = quic_alpn ∷ [] }) in
    (over_quic q quic_dial quic_open_stream c, opened c before)

-- AcceptQUIC, on a listener under a configuration.
unfoldable pub accept_quic : Quic → TlsConfig → List ℕ → Result DialError QuicConn × List ℕ
accept_quic q tls_conf before =
    let c = q.connection tls_conf in (over_quic q quic_accept quic_accept_stream c, opened c before)

-- The configuration that ListenQUIC listens under.
abbrev pub listened : TlsConfig → TlsConfig
listened tls_conf = record tls_conf { next_protos = quic_alpn ∷ [] }

-- QUICConn.Close: the stream ends with the connection.
unfoldable pub close_quic : QuicConn → List ℕ → List ℕ
close_quic q before = closed q.conn before

abbrev over_websocket : DialError → Option ℕ → Result DialError ℕ
over_websocket e none = err e
over_websocket e (some c) = ok c

unfoldable pub dial_ws : Option ℕ → List ℕ → Result DialError ℕ × List ℕ
dial_ws c before = (over_websocket websocket_dial c, opened c before)

unfoldable pub upgrade_http : Option ℕ → List ℕ → Result DialError ℕ × List ℕ
upgrade_http c before = (over_websocket websocket_upgrade c, opened c before)

unfoldable pub close_ws : ℕ → List ℕ → List ℕ
close_ws c before = closed c before
