-- ===== src/Outbox/Delivery/Histories.antt =====
-- Histories of inserts, polls and time on an empty outbox.
use fproto.Base.{
  ℕ, suc, ◌+◌, ◌<◌, ◌≡◌, sym, subst, true, false, Option, some, List, [], ◌∷◌, ◌++◌, arith, Bytes,
  ok, err, if◌then◌else◌, All, All-append, All-mono, Option-cases, inl, inr,
}
use fproto.Sql.{Outcome, done, refused, lost, violation, Answer}
use fproto.Outbox.Store.{
  pending, Entry, Table, NewEntry, insert_row, insert, columns, row_of, drawn, has_message, add_row,
}
use fproto.Outbox.Relay.{World, Tries, poll}
use fproto.Outbox.Delivery.Rows.{Increasing}
use fproto.Outbox.Delivery.{Backed, Promised}
use fproto.Outbox.Delivery.Polls.{Inv, poll-Inv}

Increasing-append :
    (rows : List Entry) (r : Entry)
    → Increasing rows
    → All (λ x. x.id < r.id) rows
    → Increasing (rows ++ r ∷ [])
Increasing-append [] r h k = (tt, tt)
Increasing-append (x ∷ rows) r h k =
    (All-append _ rows (r ∷ []) h.0 (k.0, tt), Increasing-append rows r h.1 k.1)

columns-fresh :
    (e : NewEntry) (t : Table) (m k p : Option Bytes) (r : Entry)
    → columns e t m k p ≡ some r
    → (r.id ≡ t.next_id) × (r.status ≡ pending)
unfolding columns
columns-fresh e t m k p r h = ground arith

row_of-fresh :
    (e : NewEntry) (t : Table) (r : Entry)
    → row_of e t ≡ some r
    → (r.id ≡ t.next_id) × (r.status ≡ pending)
unfolding row_of
row_of-fresh e t r h = columns-fresh e t e.message_id e.partition_key e.payload r h

below_suc : (n : ℕ) (rows : List Entry) → All (λ x. x.id < n) rows → All (λ x. x.id < suc n) rows
below_suc n rows = All-mono _ _ (λ x k. omega arith) rows

drawn-Inv : (w : World) → Inv w → Inv (record w { table = drawn w.table })
drawn-Inv w v = record {
  ordered = (v.ordered.0, below_suc w.table.next_id w.table.rows v.ordered.1);
  backed = v.backed;
}

appended-Inv :
    (w : World) (r : Entry)
    → Inv w
    → (r.id ≡ w.table.next_id) × (r.status ≡ pending)
    → Inv (record w {
      table = record (w.table) { rows = w.table.rows ++ r ∷ []; next_id = suc w.table.next_id };
    })
appended-Inv w r v fresh = record {
  ordered = (
    Increasing-append w.table.rows r v.ordered.0
        (subst (λ n. All (λ x. x.id < n) w.table.rows) (sym fresh.0) v.ordered.1),
    All-append _ w.table.rows (r ∷ []) (below_suc w.table.next_id w.table.rows v.ordered.1)
        (omega (arith, fresh.0), tt),
  );
  backed =
      All-append (Backed w.log) w.table.rows (r ∷ []) v.backed
        (subst (λ s. Promised s w.log r) (sym fresh.1) tt, tt);
}

add_row-Inv :
    (w : World) (r : Entry)
    → Inv w
    → (r.id ≡ w.table.next_id) × (r.status ≡ pending)
    → Inv (record w { table = (add_row r w.table).1 })
unfolding add_row
add_row-Inv w r v fresh =
    elim (has_message r.message_id w.table.rows)
      as (λ b. Inv (record w {
        table =
            (if◌then◌else◌ {A = Answer Table} b (err violation, drawn w.table)
              (
                ok tt,
                record (w.table) { rows = w.table.rows ++ r ∷ []; next_id = suc w.table.next_id },
              )).1;
      })) [ true ↦ drawn-Inv w v | false ↦ appended-Inv w r v fresh ]

insert_row-Inv :
    (e : NewEntry) (w : World) → Inv w → Inv (record w { table = (insert_row e w.table).1 })
unfolding insert_row
insert_row-Inv e w v = elim (Option-cases (row_of e w.table)) [
  | inl q ↦ rw (q, insert_row) (drawn-Inv w v)
  | inr (r, q) ↦ rw (q, insert_row) (add_row-Inv w r v (row_of-fresh e w.table r q))
]

-- What happens to the outbox: an insert by the dispatcher, a poll of the relay, or time.
pub data Event : Type 0 where
  inserts : Outcome → NewEntry → Event
  polls : Outcome → (ℕ → Tries) → ℕ → ℕ → Event
  waits : ℕ → Event

unfoldable pub step : World → Event → World
step w (inserts o e) = record w { table = (insert o e w.table).1 }
step w (polls fetch tries batch now) = poll fetch tries batch now w
step w (waits d) = record w { table = record (w.table) { now = w.table.now + d } }

unfoldable pub run : World → List Event → World
run w [] = w
run w (e ∷ es) = run (step w e) es

step-Inv : (w : World) (e : Event) → Inv w → Inv (step w e)
unfolding step
step-Inv w (inserts done e) v = insert_row-Inv e w v
step-Inv w (inserts refused e) v = v
step-Inv w (inserts lost e) v = insert_row-Inv e w v
step-Inv w (polls fetch tries batch now) v = poll-Inv fetch tries batch now w v
step-Inv w (waits d) v = record { ordered = v.ordered; backed = v.backed }

run-Inv : (es : List Event) (w : World) → Inv w → Inv (run w es)
unfolding run
run-Inv [] w v = v
run-Inv (e ∷ es) w v = run-Inv es (step w e) (step-Inv w e v)

abbrev pub empty_world : ℕ → World
empty_world now = record { table = record { rows = []; next_id = 1; now = now }; log = [] }

-- After any inserts, polls and waits on an empty outbox, however the calls of PostgreSQL and Kafka
-- end, the ids of the rows increase and are below the sequence, the record of every row marked
-- published is in Kafka's log, and the dead-letter record of every row marked failed.
pub run-empty-Inv : (now : ℕ) (es : List Event) → Inv (run (empty_world now) es)
run-empty-Inv now es = run-Inv es (empty_world now) (record { ordered = (tt, tt); backed = tt })
