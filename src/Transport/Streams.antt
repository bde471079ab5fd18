-- ===== src/Transport/Streams.antt =====
-- proto-core/transport/grpc_transport.go: GRPCStreamConn and GRPCClientConn, two channels of 16 messages
-- and a context. A call that would wait is `blocked`, and changes nothing. Where a select finds its
-- channel ready and the context ended, Go chooses: a parameter, whether it takes the channel. What any
-- sequence of calls reaches is in `Order`.
pub mod Order
mod Examples
use fproto.Base.{
  ℕ, suc, ◌+◌, ◌≤◌, ◌≡◌, refl, sym, ap, ◌∙◌, Bool, true, false, not, ◌&&◌, ◌||◌, Option, none, some,
  List, [], ◌∷◌, ◌++◌, arith, Bytes, ltb, ltb→lt, if◌then◌else◌, length, length-append, Bool-cases,
  inl, inr,
}

abbrev pub channel_size : ℕ
channel_size = 16

pub data Selected (A : Type 0) : Type 0 where
  taken : A → Selected A
  context_done : Selected A
  blocked : Selected A

-- A receive from a channel, or the end of the context.
abbrev pub select_receive : Bool → Bool → List Bytes → Selected Bytes × List Bytes
select_receive takes cancelled [] = (if cancelled then context_done else blocked, [])
select_receive takes cancelled (m ∷ ms) =
    if cancelled && not takes then (context_done, m ∷ ms) else (taken m, ms)

-- A send to a channel, or the end of the context.
abbrev pub select_send : Bool → Bool → Bytes → List Bytes → Selected (Unit {0}) × List Bytes
select_send takes cancelled m ms =
    if ltb (length ms) channel_size && (takes || not cancelled)
    then (taken tt, ms ++ m ∷ [])
    else (if cancelled then context_done else blocked, ms)

-- The channels, whether the context has ended, and how often `done` was closed.
pub record GrpcStreamConn : Type 0 where
  pub recv_ch : List Bytes
  pub send_ch : List Bytes
  pub cancelled : Bool
  pub closes : ℕ

abbrev pub new_grpc_stream_conn : GrpcStreamConn
new_grpc_stream_conn = record { recv_ch = []; send_ch = []; cancelled = false; closes = 0 }

unfoldable pub read_stream : Bool → GrpcStreamConn → Selected Bytes × GrpcStreamConn
read_stream takes g =
    let (r, ch) = select_receive takes g.cancelled g.recv_ch in (r, record g { recv_ch = ch })

unfoldable pub write_stream : Bool → Bytes → GrpcStreamConn → Selected (Unit {0}) × GrpcStreamConn
write_stream takes m g =
    let (r, ch) = select_send takes g.cancelled m g.send_ch in (r, record g { send_ch = ch })

-- Feed: the result of its select is dropped.
unfoldable pub feed : Bool → Bytes → GrpcStreamConn → Selected (Unit {0}) × GrpcStreamConn
feed takes m g =
    let (r, ch) = select_send takes g.cancelled m g.recv_ch in (r, record g { recv_ch = ch })

unfoldable pub drain : Bool → GrpcStreamConn → Selected Bytes × GrpcStreamConn
drain takes g =
    let (r, ch) = select_receive takes g.cancelled g.send_ch in (r, record g { send_ch = ch })

-- Close, whose body runs once.
unfoldable pub close_stream : Bool → GrpcStreamConn → GrpcStreamConn
close_stream first g = if first then record g { cancelled = true; closes = suc g.closes } else g

-- The client's end has the same channels, and no `done`.
pub record GrpcClientConn : Type 0 where
  pub send_ch : List Bytes
  pub recv_ch : List Bytes
  pub cancelled : Bool

abbrev pub new_grpc_client_conn : GrpcClientConn
new_grpc_client_conn = record { send_ch = []; recv_ch = []; cancelled = false }

unfoldable pub read_client : Bool → GrpcClientConn → Selected Bytes × GrpcClientConn
read_client takes g =
    let (r, ch) = select_receive takes g.cancelled g.recv_ch in (r, record g { recv_ch = ch })

unfoldable pub write_client : Bool → Bytes → GrpcClientConn → Selected (Unit {0}) × GrpcClientConn
write_client takes m g =
    let (r, ch) = select_send takes g.cancelled m g.send_ch in (r, record g { send_ch = ch })

unfoldable pub feed_client : Bool → Bytes → GrpcClientConn → Selected (Unit {0}) × GrpcClientConn
feed_client takes m g =
    let (r, ch) = select_send takes g.cancelled m g.recv_ch in (r, record g { recv_ch = ch })

unfoldable pub drain_client : Bool → GrpcClientConn → Selected Bytes × GrpcClientConn
drain_client takes g =
    let (r, ch) = select_receive takes g.cancelled g.send_ch in (r, record g { send_ch = ch })

abbrev pub close_client : GrpcClientConn → GrpcClientConn
close_client g = record g { cancelled = true }

-- The client's end is the server's without `done`: what one does, the other does.
abbrev pub client_of : GrpcStreamConn → GrpcClientConn
client_of g = record { send_ch = g.send_ch; recv_ch = g.recv_ch; cancelled = g.cancelled }

pub client_of-stream :
    (takes : Bool) (m : Bytes) (g : GrpcStreamConn)
    → (read_client takes (client_of g)
        ≡ ((read_stream takes g).0, client_of (read_stream takes g).1))
      × (write_client takes m (client_of g)
          ≡ ((write_stream takes m g).0, client_of (write_stream takes m g).1))
      × (feed_client takes m (client_of g) ≡ ((feed takes m g).0, client_of (feed takes m g).1))
      × (drain_client takes (client_of g) ≡ ((drain takes g).0, client_of (drain takes g).1))
unfolding read_client write_client feed_client drain_client read_stream write_stream feed drain
client_of-stream takes m g = (refl, refl, refl, refl)

-- A call of the connection. `end_context` is the end of the context that it was made with.
pub data Call : Type 0 where
  read drained : Bool → Call
  write fed : Bool → Bytes → Call
  close end_context : Call

-- The connection, whether Close was called, and the messages that went in and came out at each end.
pub record History : Type 0 where
  pub conn : GrpcStreamConn
  pub closed : Bool
  pub accepted : List Bytes
  pub drained_out : List Bytes
  pub fed_in : List Bytes
  pub read_out : List Bytes

abbrev pub put : {A : Type 0} → Bytes → Selected A → List Bytes → List Bytes
put m (taken a) ms = ms ++ m ∷ []
put m _ ms = ms

abbrev pub got : Selected Bytes → List Bytes → List Bytes
got (taken m) ms = ms ++ m ∷ []
got _ ms = ms

unfoldable pub step : Call → History → History
step (read takes) h =
    let (r, g) = read_stream takes h.conn in record h { conn = g; read_out = got r h.read_out }
step (drained takes) h =
    let (r, g) = drain takes h.conn in record h { conn = g; drained_out = got r h.drained_out }
step (write takes m) h =
    let (r, g) = write_stream takes m h.conn in record h { conn = g; accepted = put m r h.accepted }
step (fed takes m) h =
    let (r, g) = feed takes m h.conn in record h { conn = g; fed_in = put m r h.fed_in }
step close h = record h { conn = close_stream (not h.closed) h.conn; closed = true }
step end_context h = record h { conn = record h.conn { cancelled = true } }

unfoldable pub run : List Call → History → History
run [] h = h
run (c ∷ cs) h = run cs (step c h)
