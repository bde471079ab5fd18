-- ===== src/Dispatcher/Dispatch.antt =====
-- server/internal/dispatcher/dispatcher.go and grpc_server.go. Parameters: protobuf's Marshal and
-- the names of the command types, and the outcome of the insert.
use fproto.Base.{
  ◌≡◌, refl, ◌≢◌, ◌⊎◌, inl, inr, Option, none, some, [], ◌∷◌, ◌++◌, arith, Bytes, Result, ok, err,
  Option-cases, Bool-cases,
}
use fproto.Message.{AppMessage}
use fproto.Sql.{DbError, violation, unavailable, Outcome, done, refused, lost}
use fproto.Outbox.Store.{
  Entry, Table, NewEntry, pending, columns, row_of, has_message, add_row, insert_row, insert,
}
use fproto.Dispatcher.Router.{CommandNames, Route, RouteError, nil_message, route_message}

pub data DispatchError : Type 0 where
  route_failed : RouteError → DispatchError
  marshal_failed : DispatchError
  insert_failed : DbError → DispatchError

-- protobuf's Marshal; `none` is its error. The bytes it returns are not nil.
abbrev pub Marshal : Type 0
Marshal = AppMessage → Option Bytes

-- The entry that is inserted.
unfoldable pub entry_of : AppMessage → Route → Bytes → NewEntry
entry_of msg route payload = record {
  message_id = msg.message_id;
  topic = route.topic;
  partition_key = route.partition_key;
  payload = some payload;
}

unfoldable pub inserted :
    Result DbError (Unit {0}) × Table → Result DispatchError (Unit {0}) × Table
inserted (ok u, t) = (ok tt, t)
inserted (err e, t) = (err (insert_failed e), t)

unfoldable pub with_payload :
    Outcome → AppMessage → Route → Option Bytes → Table → Result DispatchError (Unit {0}) × Table
with_payload o msg route none t = (err marshal_failed, t)
with_payload o msg route (some payload) t = inserted (insert o (entry_of msg route payload) t)

unfoldable pub with_route :
    Marshal
    → Outcome
    → AppMessage
    → Result RouteError Route
    → Table
    → Result DispatchError (Unit {0}) × Table
with_route marshal o msg (err e) t = (err (route_failed e), t)
with_route marshal o msg (ok route) t = with_payload o msg route (marshal msg) t

-- Dispatcher.Dispatch; the message is a pointer.
unfoldable pub dispatch :
    CommandNames
    → Marshal
    → Outcome
    → Option AppMessage
    → Table
    → Result DispatchError (Unit {0}) × Table
dispatch names marshal o none t = (err (route_failed nil_message), t)
dispatch names marshal o (some msg) t = with_route marshal o msg (route_message names (some msg)) t

pub data RpcError : Type 0 where
  invalid_argument : RpcError
  internal : DispatchError → RpcError

-- The response's AckMessageId; Success is true.
unfoldable pub acknowledged :
    AppMessage → Result DispatchError (Unit {0}) × Table → Result RpcError (Option Bytes) × Table
acknowledged msg (ok u, t) = (ok msg.message_id, t)
acknowledged msg (err e, t) = (err (internal e), t)

-- GRPCServer.Dispatch.
unfoldable pub rpc_dispatch :
    CommandNames
    → Marshal
    → Outcome
    → Option AppMessage
    → Table
    → Result RpcError (Option Bytes) × Table
rpc_dispatch names marshal o none t = (err invalid_argument, t)
rpc_dispatch names marshal o (some msg) t = acknowledged msg (dispatch names marshal o (some msg) t)

columns_cells :
    (e : NewEntry) (t : Table) (m k p : Option Bytes) (r : Entry)
    → columns e t m k p ≡ some r
    → (m ≡ some r.message_id)
      × (k ≡ some r.partition_key)
      × (p ≡ some r.payload)
      × (r.topic ≡ e.topic)
      × (r.status ≡ pending)
unfolding columns
columns_cells e t m k p r h = ground arith

-- The row of a new entry has its columns and is pending.
abbrev pub IsRowOf : NewEntry → Entry → Type 0
IsRowOf e r =
    (e.message_id ≡ some r.message_id)
    × (e.partition_key ≡ some r.partition_key)
    × (e.payload ≡ some r.payload)
    × (r.topic ≡ e.topic)
    × (r.status ≡ pending)

row_of-IsRowOf : (e : NewEntry) (t : Table) (r : Entry) → row_of e t ≡ some r → IsRowOf e r
unfolding row_of
row_of-IsRowOf e t r h = columns_cells e t e.message_id e.partition_key e.payload r h

-- What an insert did: it added the row, or answered with an error and added none.
abbrev Inserted : NewEntry → Table → Result DbError (Unit {0}) × Table → Type 0
Inserted e t a =
    ((a.0 ≡ ok tt) × ((r : Entry) × IsRowOf e r × (a.1.rows ≡ t.rows ++ r ∷ [])))
    ⊎ ((x : DbError) × (a.0 ≡ err x) × (a.1.rows ≡ t.rows))

insert_row-Inserted : (e : NewEntry) (t : Table) → Inserted e t (insert_row e t)
unfolding insert_row add_row
insert_row-Inserted e t = elim (Option-cases (row_of e t)) [
  | inl q ↦ rw (q, insert_row) (inr (violation, refl, refl))
  | inr (r, q) ↦
      rw (q, insert_row)
        (elim (Bool-cases (has_message r.message_id t.rows)) [
          | inl h ↦ rw (h, add_row) (inr (violation, refl, refl))
          | inr h ↦ rw (h, add_row) (inl (refl, (r, row_of-IsRowOf e t r q, refl)))
        ])
]

insert-Inserted : (o : Outcome) (e : NewEntry) (t : Table) → o ≢ lost → Inserted e t (insert o e t)
insert-Inserted done e t h = insert_row-Inserted e t
insert-Inserted refused e t h = inr (unavailable, refl, refl)
insert-Inserted lost e t h = absurd (h refl)

-- The row that a message has at its route.
abbrev pub IsMessageRow : AppMessage → Route → Bytes → Entry → Type 0
IsMessageRow msg route payload r =
    (msg.message_id ≡ some r.message_id)
    × (route.partition_key ≡ some r.partition_key)
    × (some payload ≡ some r.payload)
    × (r.topic ≡ route.topic)
    × (r.status ≡ pending)

-- What a call of Dispatch may do: one row for the message at its route, or an error and no row.
abbrev pub Dispatched :
    CommandNames → Marshal → AppMessage → Table → Result RpcError (Option Bytes) × Table → Type 0
Dispatched names marshal msg t a =
    ((route : Route) × (payload : Bytes) × (r : Entry) × (a.0 ≡ ok msg.message_id)
      × (route_message names (some msg) ≡ ok route)
      × (marshal msg ≡ some payload)
      × IsMessageRow msg route payload r
      × (a.1.rows ≡ t.rows ++ r ∷ []))
    ⊎ ((x : DispatchError) × (a.0 ≡ err (internal x)) × (a.1.rows ≡ t.rows))

rpc_dispatch_from :
    (names : CommandNames) (marshal : Marshal) (msg : AppMessage) (t : Table) (route : Route)
    (payload : Bytes)
    → route_message names (some msg) ≡ ok route
    → marshal msg ≡ some payload
    → (a : Result DbError (Unit {0}) × Table) → Inserted (entry_of msg route payload) t a
    → Dispatched names marshal msg t (acknowledged msg (inserted a))
unfolding acknowledged inserted entry_of
rpc_dispatch_from names marshal msg t route payload hr hp (ok u, t') (inl (_, (r, cells, rows))) =
    inl (route, payload, r, refl, hr, hp, cells, rows)
rpc_dispatch_from names marshal msg t route payload hr hp (err e, t') (inl (bad, _)) = cc
rpc_dispatch_from names marshal msg t route payload hr hp (ok u, t') (inr (x, bad, _)) = cc
rpc_dispatch_from names marshal msg t route payload hr hp (err e, t') (inr (x, _, rows)) =
    inr (insert_failed e, refl, rows)

-- Where no answer of PostgreSQL is lost, the gRPC method is all or nothing: either it acknowledges the
-- message's id and the outbox has one more row, pending, with the message's id, bytes, topic and
-- partition key, or it returns an error and the outbox has the rows that it had.
pub rpc_dispatch-Dispatched :
    (names : CommandNames) (marshal : Marshal) (o : Outcome) (msg : AppMessage) (t : Table)
    → o ≢ lost
    → Dispatched names marshal msg t (rpc_dispatch names marshal o (some msg) t)
unfolding rpc_dispatch dispatch
rpc_dispatch-Dispatched names marshal o msg t h = by_route (route_message names (some msg)) refl
  where
    by_payload :
        (route : Route)
        → route_message names (some msg) ≡ ok route
        → (p : Option Bytes) → marshal msg ≡ p
        → Dispatched names marshal msg t (acknowledged msg (with_payload o msg route p t))
    by_payload route hr none hp =
        unfold acknowledged with_payload in inr (marshal_failed, refl, refl)
    by_payload route hr (some payload) hp =
        unfold with_payload in
        rpc_dispatch_from names marshal msg t route payload hr hp
          (insert o (entry_of msg route payload) t)
          (insert-Inserted o (entry_of msg route payload) t h)

    by_route :
        (q : Result RouteError Route)
        → route_message names (some msg) ≡ q
        → Dispatched names marshal msg t (acknowledged msg (with_route marshal o msg q t))
    by_route (err e) hq = unfold acknowledged with_route in inr (route_failed e, refl, refl)
    by_route (ok route) hq = unfold with_route in by_payload route hq (marshal msg) refl
