-- ===== src/Transport/Streams/Order.antt =====
-- The order and the bounds of the channels of proto-core/transport/grpc_transport.go.
use fproto.Base.{
  ℕ, suc, ◌≤◌, ◌≡◌, refl, sym, ap, ◌∙◌, Bool, true, false, not, ◌&&◌, ◌||◌, List, [], ◌∷◌, ◌++◌,
  arith, Bytes, ltb, ltb→lt, if◌then◌else◌, length, length-append, Bool-cases, inl, inr,
}
use mathlib.Core.List.{append_assoc}
use fproto.Transport.Streams.{
  channel_size, Selected, context_done, blocked, select_receive, select_send, GrpcStreamConn,
  new_grpc_stream_conn, read_stream, write_stream, feed, drain, close_stream, Call, read, drained,
  write, fed, close, end_context, History, put, got, step, run,
}

-- What is in a channel between the messages that went in and those that came out.
abbrev Holds : List Bytes → List Bytes → List Bytes → Type 0
Holds inn out ch = (inn ≡ out ++ ch) × (length ch ≤ channel_size)

sent-Holds :
    (takes cancelled : Bool) (m : Bytes) (inn out ch : List Bytes)
    → Holds inn out ch
    → let r : Selected (Unit {0}) × List Bytes = select_send takes cancelled m ch in
      Holds (put m r.0 inn) out r.1
sent-Holds takes cancelled m inn out ch (e, l) =
    elim (Bool-cases (ltb (length ch) channel_size && (takes || not cancelled))) [
      | inl g ↦
          let room : ltb (length ch) channel_size ≡ true = ground arith in
          let fits : length (ch ++ m ∷ []) ≤ channel_size =
            omega (arith, length-append ch (m ∷ []), ltb→lt (length ch) channel_size room) in
          rw g (ap (λ z. z ++ m ∷ []) e ∙ append_assoc out ch (m ∷ []), fits)
      | inr g ↦
          rw g
            (elim cancelled
              as (λ b.
                Holds (put {A = Unit {0}} m (if b then context_done else blocked) inn) out ch) [
                  | true ↦ (e, l)
                  | false ↦ (e, l)
                ])
    ]

received-Holds :
    (takes cancelled : Bool) (inn out ch : List Bytes)
    → Holds inn out ch
    → let r : Selected Bytes × List Bytes = select_receive takes cancelled ch in
      Holds inn (got r.0 out) r.1
received-Holds takes true inn out [] h = h
received-Holds takes false inn out [] h = h
received-Holds takes cancelled inn out (m ∷ ms) (e, l) =
    elim (Bool-cases (cancelled && not takes)) [
      | inl g ↦ rw g (e, l)
      | inr g ↦ rw g (e ∙ sym (append_assoc out (m ∷ []) ms), omega (arith, l))
    ]

abbrev count : Bool → ℕ
count b = if b then 1 else 0

abbrev pub Inv : History → Type 0
Inv h =
    (h.accepted ≡ h.drained_out ++ h.conn.send_ch)
    × (h.fed_in ≡ h.read_out ++ h.conn.recv_ch)
    × (length h.conn.send_ch ≤ channel_size)
    × (length h.conn.recv_ch ≤ channel_size)
    × (h.conn.closes ≡ count h.closed)

close-count :
    (b : Bool) (g : GrpcStreamConn) → g.closes ≡ count b → (close_stream (not b) g).closes ≡ 1
unfolding close_stream
close-count true g h = h
close-count false g h = ap suc h

close-channels :
    (b : Bool) (g : GrpcStreamConn)
    → ((close_stream b g).send_ch ≡ g.send_ch) × ((close_stream b g).recv_ch ≡ g.recv_ch)
unfolding close_stream
close-channels true g = (refl, refl)
close-channels false g = (refl, refl)

step-Inv : (c : Call) (h : History) → Inv h → Inv (step c h)
unfolding step read_stream write_stream feed drain
step-Inv (read takes) h (s, r, ls, lr, k) =
    let (r', l') =
      received-Holds takes h.conn.cancelled h.fed_in h.read_out h.conn.recv_ch (r, lr) in
    (s, r', ls, l', k)
step-Inv (drained takes) h (s, r, ls, lr, k) =
    let (s', l') =
      received-Holds takes h.conn.cancelled h.accepted h.drained_out h.conn.send_ch (s, ls) in
    (s', r, l', lr, k)
step-Inv (write takes m) h (s, r, ls, lr, k) =
    let (s', l') =
      sent-Holds takes h.conn.cancelled m h.accepted h.drained_out h.conn.send_ch (s, ls) in
    (s', r, l', lr, k)
step-Inv (fed takes m) h (s, r, ls, lr, k) =
    let (r', l') = sent-Holds takes h.conn.cancelled m h.fed_in h.read_out h.conn.recv_ch (r, lr) in
    (s, r', ls, l', k)
step-Inv close h (s, r, ls, lr, k) =
    let (es, er) = close-channels (not h.closed) h.conn in
    rw (es, er) (s, r, ls, lr, close-count h.closed h.conn k)
step-Inv end_context h i = i

run-Inv : (cs : List Call) (h : History) → Inv h → Inv (run cs h)
unfolding run
run-Inv [] h i = i
run-Inv (c ∷ cs) h i = run-Inv cs (step c h) (step-Inv c h i)

abbrev pub opened : History
opened = record {
  conn = new_grpc_stream_conn;
  closed = false;
  accepted = [];
  drained_out = [];
  fed_in = [];
  read_out = [];
}

-- After any calls on a new connection, whatever the selects choose: the messages that Drain returned are
-- the first of those that WriteMessage accepted, in order, and the others wait in the channel; so are
-- the messages that ReadMessage returned among those that were fed. No channel holds more than 16, and
-- `done` was closed once if Close was called, and never otherwise.
pub run-opened-Inv : (cs : List Call) → Inv (run cs opened)
run-opened-Inv cs = run-Inv cs opened (refl, refl, omega arith, omega arith, refl)
