-- ===== src/Sdk/Dialing.antt =====
-- The transports of the Go SDK (sdk/go/transport.go): dial, and Close of both.
use fproto.Base.{
  ℕ, suc, ◌≡◌, refl, arith, Bool, ◌||◌, Option, none, some, List, [], ◌∷◌, Bytes, codes, Result, ok,
  err, length, bytes_equal, if◌then◌else◌, Bool-cases, inl, inr,
}
use fproto.Sdk.Reconnect.{ReconnectConfig}
use fproto.Transport.Dialing
use fproto.Transport.Dialing.{
  DialError, websocket_dial, quic_dial, quic_open_stream, unknown_transport, TlsConfig, Quic,
  QuicConn, quic_alpn, opened, closed, over_quic, with_stream, close_quic, close_ws, dial_ws,
}

pub record Config : Type 0 where
  pub server_addr : Bytes
  pub transport_type : Bytes
  pub tls_skip_verify : Bool
  pub reconnect : ReconnectConfig

pub data Transport : Type 0 where
  ws_transport : ℕ → Transport
  quic_transport : QuicConn → Transport

-- gorilla/websocket and quic-go, at an address.
pub record Net : Type 0 where
  pub websocket : Bytes → Option ℕ
  pub quic : Bytes → Quic

abbrev pub Dialed : Type 0
Dialed = Result DialError Transport × List ℕ

abbrev as_ws : Result DialError ℕ × List ℕ → Dialed
as_ws (err e, before) = (err e, before)
as_ws (ok c, before) = (ok (ws_transport c), before)

abbrev as_quic : Result DialError QuicConn → Result DialError Transport
as_quic (err e) = err e
as_quic (ok q) = ok (quic_transport q)

-- dialQUIC.
unfoldable pub sdk_dial_quic : Quic → Bool → List ℕ → Dialed
sdk_dial_quic q insecure before =
    let c =
      q.connection (record { next_protos = quic_alpn ∷ []; insecure_skip_verify = insecure }) in
    (as_quic (over_quic q quic_dial quic_open_stream c), opened c before)

abbrev is_websocket : Bytes → Bool
is_websocket t = bytes_equal t (codes "websocket") || bytes_equal t (codes "ws") || bytes_equal t []

unfoldable pub dial : Net → Config → List ℕ → Dialed
dial net cfg before =
    if is_websocket cfg.transport_type
    then as_ws (Dialing.dial_ws (net.websocket cfg.server_addr) before)
    else if bytes_equal cfg.transport_type (codes "quic")
    then sdk_dial_quic (net.quic cfg.server_addr) cfg.tls_skip_verify before
    else (err (unknown_transport cfg.transport_type), before)

unfoldable pub close : Transport → List ℕ → List ℕ
close (ws_transport c) before = close_ws c before
close (quic_transport q) before = close_quic q before

-- How many connections an error leaves open of those before it and the one that it was made on.
abbrev pub left_open : DialError → List ℕ → ℕ
left_open quic_open_stream before = suc (length before)
left_open _ before = length before

-- A transport closes to what was open before it; an error has left as many connections as it says.
abbrev pub IsAccounted : Dialed → List ℕ → Type 0
IsAccounted (ok t, after) before = close t after ≡ before
IsAccounted (err e, after) before = length after ≡ left_open e before

closed-opened : (c : ℕ) (before : List ℕ) → closed c (c ∷ before) ≡ before
unfolding closed
closed-opened c before = ground arith

ws-IsAccounted : (c : Option ℕ) (before : List ℕ) → IsAccounted (as_ws (dial_ws c before)) before
unfolding dial_ws close close_ws
ws-IsAccounted none before = refl
ws-IsAccounted (some c) before = closed-opened c before

streamed-IsAccounted :
    (q : Quic) (c : ℕ) (s : Option ℕ) (before : List ℕ)
    → IsAccounted (as_quic (with_stream q quic_open_stream c s), c ∷ before) before
unfolding close close_quic
streamed-IsAccounted q c none before = refl
streamed-IsAccounted q c (some s) before = closed-opened c before

quic-IsAccounted :
    (q : Quic) (insecure : Bool) (before : List ℕ)
    → IsAccounted (sdk_dial_quic q insecure before) before
unfolding sdk_dial_quic close close_quic
quic-IsAccounted q insecure before =
    elim (q.connection (record { next_protos = quic_alpn ∷ []; insecure_skip_verify = insecure }))
      as (λ c.
        IsAccounted (as_quic (over_quic q quic_dial quic_open_stream c), opened c before) before) [
          | none ↦ refl
          | some c ↦ streamed-IsAccounted q c (q.stream c) before
        ]

-- A dial ends with a transport whose Close leaves the connections as they were before the dial, or with
-- an error that leaves them so, unless quic-go refused a stream: then one connection more stays open.
pub dial-IsAccounted :
    (net : Net) (cfg : Config) (before : List ℕ) → IsAccounted (dial net cfg before) before
unfolding dial
dial-IsAccounted net cfg before = elim (Bool-cases (is_websocket cfg.transport_type)) [
  | inl e ↦ rw e (ws-IsAccounted (net.websocket cfg.server_addr) before)
  | inr e ↦ elim (Bool-cases (bytes_equal cfg.transport_type (codes "quic"))) [
    | inl u ↦ rw (e, u) (quic-IsAccounted (net.quic cfg.server_addr) cfg.tls_skip_verify before)
    | inr u ↦ rw (e, u) refl
  ]
]
