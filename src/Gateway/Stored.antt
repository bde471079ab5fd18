-- ===== src/Gateway/Stored.antt =====
-- The gateway (server/cmd/gateway/main.go) with the dispatcher (server/internal/dispatcher) behind it:
-- what the messages of a connection leave in the outbox.
use mathlib.Core.List.{append_assoc, append-nil}
use fproto.Base.{
  ℕ, suc, ◌≡◌, ◌≢◌, refl, sym, ap, ◌∙◌, ◌⊎◌, inl, inr, true, false, Option, none, some, List, [],
  ◌∷◌, ◌++◌, map, Bytes, Result, ok, err, ltb, if◌then◌else◌,
}
use fproto.Message.{AppMessage, len_of, bytes_of}
use fproto.Sql.{Outcome, lost}
use fproto.Outbox.Store.{Entry, Table}
use fproto.Dispatcher.Router.{CommandNames}
use fproto.Dispatcher.Dispatch.{Marshal, RpcError, rpc_dispatch, rpc_dispatch-Dispatched}
use fproto.Noise.{KeyPair, Noise, Session}
use fproto.Noise.Conversations.{connect}
use fproto.Noise.Handshakes.{client_handshake, server_handshake}
use fproto.Noise.Agreement.{IsXx, Matched, connect-handshakes}
use fproto.Gateway.{
  Frame, DispatchRequest, Gateway, dispatched, with_frame, with_message, handle_conn,
}
use fproto.Gateway.Replies.{Seals, seal_all, open_all, answers, gateway_answers}

-- The outbox, and how often the dispatcher was called.
abbrev pub State : Type 0
State = Table × ℕ

abbrev id_of : Result RpcError (Option Bytes) → Option (Option Bytes)
id_of (ok id) = some id
id_of (err e) = none

-- What becomes of a gRPC call: it reaches the dispatcher and its answer comes back, it does not reach
-- the dispatcher, or it reaches the dispatcher and the client gets an error in place of the answer.
pub data RpcOutcome : Type 0 where
  completed unreachable reply_lost : RpcOutcome

abbrev pub over_rpc :
    RpcOutcome → Result RpcError (Option Bytes) × Table → State → Option (Option Bytes) × State
over_rpc completed (r, t') (t, k) = (id_of r, (t', suc k))
over_rpc unreachable (r, t') (t, k) = (none, (t, suc k))
over_rpc reply_lost (r, t') (t, k) = (none, (t', suc k))

-- A call of the dispatcher; `rpcs` are the outcomes of the calls, and `outcomes` those of the inserts of
-- the calls, in order.
unfoldable pub call :
    CommandNames
    → Marshal
    → (ℕ → RpcOutcome)
    → (ℕ → Outcome)
    → DispatchRequest
    → State
    → Option (Option Bytes) × State
call names marshal rpcs outcomes req (t, k) =
    over_rpc (rpcs k) (rpc_dispatch names marshal (outcomes k) (some req.message) t) (t, k)

-- A gateway that has the dispatcher.
abbrev pub with_dispatcher :
    CommandNames → Marshal → (ℕ → RpcOutcome) → (ℕ → Outcome) → Gateway State → Gateway State
with_dispatcher names marshal rpcs outcomes gw = record gw {
  dispatch = some (call names marshal rpcs outcomes);
}

module _ {D : Type 0} (gw : Gateway D) where
  abbrev with_id : Option (Option Bytes) → List (Option Bytes) → List (Option Bytes)
  with_id none ids = ids
  with_id (some id) ids = id ∷ ids

  -- The ids that are acknowledged, in order.
  unfoldable pub acked : List Bytes → D → List (Option Bytes)
  acked [] d = []
  acked (t ∷ ts) d = let (id, d') = dispatched gw t d in with_id id (acked ts d')

module _ (names : CommandNames) (marshal : Marshal) (rpcs : ℕ → RpcOutcome) (outcomes : ℕ → Outcome)
    (gw : Gateway State) (arrives : (k : ℕ) → rpcs k ≢ reply_lost)
    (kept : (k : ℕ) → outcomes k ≢ lost) where
  abbrev full : Gateway State
  full = with_dispatcher names marshal rpcs outcomes gw

  -- One message: an acknowledged row, or none.
  abbrev Stored : State → Option (Option Bytes) × State → Type 0
  Stored d r =
      ((e : Entry) × (r.0 ≡ some (some e.message_id)) × (r.1.0.rows ≡ d.0.rows ++ e ∷ []))
      ⊎ ((r.0 ≡ none) × (r.1.0.rows ≡ d.0.rows))

  over_rpc-Stored :
      (r : Result RpcError (Option Bytes) × Table) (d : State) (o : RpcOutcome)
      → o ≢ reply_lost
      → Stored d (id_of r.0, (r.1, suc d.1))
      → Stored d (over_rpc o r d)
  over_rpc-Stored r d completed h s = s
  over_rpc-Stored r d unreachable h s = inr (refl, refl)
  over_rpc-Stored r d reply_lost h s = absurd (h refl)

  call-Stored :
      (req : DispatchRequest) (d : State) → Stored d (call names marshal rpcs outcomes req d)
  unfolding call
  call-Stored req (t, k) =
      over_rpc-Stored (rpc_dispatch names marshal (outcomes k) (some req.message) t) (t, k) (rpcs k)
        (arrives k)
        (elim (rpc_dispatch-Dispatched names marshal (outcomes k) req.message t (kept k)) [
          | inl (route, payload, e, answer, _, _, cells, rows) ↦
              let (id, _, _, _, _) = cells in inl (e, ap id_of answer ∙ ap some id, rows)
          | inr (x, answer, rows) ↦ inr (ap id_of answer, rows)
        ])

  dispatched-Stored : (t : Bytes) (d : State) → Stored d (dispatched full t d)
  unfolding dispatched
  dispatched-Stored t d = framed (gw.frame_of t)
    where
      decoded :
          (f : Frame) (m : Option AppMessage)
          → Stored d (with_message full (call names marshal rpcs outcomes) f m d)
      decoded f none = inr (refl, refl)
      decoded f (some m) =
          call-Stored
            (record { session_id = gw.remote_addr; sender_id = f.session_id; message = m }) d

      framed :
          (f : Option Frame) → Stored d (with_frame full (call names marshal rpcs outcomes) f d)
      framed none = inr (refl, refl)
      framed (some f) =
          elim (ltb 0 (len_of f.encrypted_payload))
            as (λ b. Stored d (
              if b
              then with_message full (call names marshal rpcs outcomes) f
                  (gw.message_of (bytes_of f.encrypted_payload)) d
              else (none, d))) [
                | true ↦ decoded f (gw.message_of (bytes_of f.encrypted_payload))
                | false ↦ inr (refl, refl)
              ]

  all_stored :
      (ts : List Bytes) (d : State)
      → (es : List Entry) × ((answers full ts d).1.0.rows ≡ d.0.rows ++ es)
        × (map (λ e. some e.message_id) es ≡ acked full ts d)
  unfolding answers acked
  all_stored [] d = ([], sym (append-nil d.0.rows), refl)
  all_stored (t ∷ ts) d =
      let (es, rows, ids) = all_stored ts (dispatched full t d).1 in
      elim (dispatched-Stored t d) [
        | inl (e, answer, added) ↦ (
          e ∷ es,
          rows ∙ ap (λ x. x ++ es) added ∙ append_assoc d.0.rows (e ∷ []) es,
          rw answer (ap (◌∷◌ (some e.message_id)) ids),
        )
        | inr (answer, same) ↦ (es, rows ∙ ap (λ x. x ++ es) same, rw answer ids)
      ]

-- The outbox behind a session that is paired with the client's.
gateway_outbox :
    {Handshake Cipher : Type 0} (n : Noise Handshake Cipher) (names : CommandNames)
    (marshal : Marshal) (rpcs : ℕ → RpcOutcome) (outcomes : ℕ → Outcome) (gw : Gateway State)
    (Paired : Cipher → Cipher → Type 0) (ts : List Bytes) (client server : Session Cipher)
    (outbox : Table)
    → ((k : ℕ) → rpcs k ≢ reply_lost)
    → ((k : ℕ) → outcomes k ≢ lost)
    → IsXx n Paired
    → Seals n
    → Matched n Paired client server
    → let full : Gateway State = with_dispatcher names marshal rpcs outcomes gw in
      let served : List Bytes × State =
        handle_conn full n
          (ok server)
          (map (λ m. (m, true)) (seal_all n ts client.send))
          (outbox, 0) in
      (es : List Entry) × (served.1.0.rows ≡ outbox.rows ++ es)
      × (map (λ e. some e.message_id) es ≡ acked full ts (outbox, 0))
      × (open_all n served.0 client.recv ≡ map some (answers full ts (outbox, 0)).0)
gateway_outbox n names marshal rpcs outcomes gw Paired ts client server outbox arrives kept x seals
      m =
    let full : Gateway State = with_dispatcher names marshal rpcs outcomes gw in
    let (replies, left) = gateway_answers n full Paired ts client server (outbox, 0) x seals m in
    let (es, rows, ids) = all_stored names marshal rpcs outcomes gw arrives kept ts (outbox, 0) in
    (es, ap (λ s. s.0.rows) left ∙ rows, ids, replies)

-- From the handshake to the outbox. Where the library follows the pattern XX, sets the two states up and
-- does not fail to encrypt, no answer of PostgreSQL or of the dispatcher is lost on its way (calls may
-- fail before they reach them) and the gateway's writes succeed: the
-- handshakes of a client and of the gateway, connected to each other, both succeed. Over the sessions
-- that they return the outbox gains exactly one row for each message that the client gets an
-- acknowledgement of, in the order of the messages and with the ids acknowledged, and the client opens
-- one reply to each of its messages.
pub connection_outbox :
    {Handshake Cipher : Type 0} (n : Noise Handshake Cipher) (names : CommandNames)
    (marshal : Marshal) (rpcs : ℕ → RpcOutcome) (outcomes : ℕ → Outcome) (gw : Gateway State)
    (Paired : Cipher → Cipher → Type 0) (ts : List Bytes) (client_key server_key : KeyPair)
    (client_random server_random : Bytes) (client server : Handshake) (outbox : Table)
    → ((k : ℕ) → rpcs k ≢ reply_lost)
    → ((k : ℕ) → outcomes k ≢ lost)
    → IsXx n Paired
    → Seals n
    → n.new_state true client_key client_random ≡ some client
    → n.new_state false server_key server_random ≡ some server
    → let full : Gateway State = with_dispatcher names marshal rpcs outcomes gw in
      (a b : Session Cipher) × (connect
          (client_handshake n client_key client_random)
          (server_handshake n server_key server_random)
        ≡ some (ok a, ok b))
      × (es : List Entry) × ((handle_conn full n
            (ok b)
            (map (λ m. (m, true)) (seal_all n ts a.send))
            (outbox, 0)).1.0.rows
          ≡ outbox.rows ++ es)
      × (map (λ e. some e.message_id) es ≡ acked full ts (outbox, 0))
      × (open_all n
            (handle_conn full n (ok b) (map (λ m. (m, true)) (seal_all n ts a.send)) (outbox, 0)).0
            a.recv
          ≡ map some (answers full ts (outbox, 0)).0)
connection_outbox n names marshal rpcs outcomes gw Paired ts client_key server_key client_random
      server_random client server outbox arrives kept x seals hc hs =
    let (a, b, e, m) =
      connect-handshakes n Paired client_key server_key client_random server_random client server hc
        hs (x.exchange client_key server_key client_random server_random client server hc hs) in
    let (es, rows, ids, replies) =
      gateway_outbox n names marshal rpcs outcomes gw Paired ts a b outbox arrives kept x seals m in
    (a, b, e, es, rows, ids, replies)
