-- ===== src/Outbox/Examples.antt =====
-- Two messages through the outbox and the relay.
use fproto.Base.{◌≤◌, ◌*◌, map, ℕ, ◌+◌, ◌≡◌, none, some, List, [], ◌∷◌, map, arith}
use fproto.Sql.{done, refused, lost}
use fproto.Kafka.Producer.{acked, unacked}
use fproto.Outbox.Store.{insert_row, add_row, row_of, has_message, Entry, NewEntry, pending}
use fproto.Outbox.Relay.{World}
use fproto.Outbox.Delivery.{ends}
use fproto.Outbox.Delivery.Polls.{Inv}
use fproto.Outbox.Delivery.Histories.{
  Event, step, inserts, polls, waits, run, empty_world, run-empty-Inv,
}
use fproto.Outbox.Drain.{all_ok}
use fproto.Outbox.Running.{relay_run}
use fproto.Outbox.Running.Drained.{waiting, good_tick, relay_run-drained}

abbrev entry_at : ℕ → ℕ → Entry
entry_at id retries = record {
  id = id;
  message_id = id ∷ [];
  topic = b'u' ∷ [];
  partition_key = 1 ∷ [];
  payload = 2 ∷ id ∷ [];
  status = pending;
  retry_count = retries;
  created_at = 10 + id;
  published_at = none;
}

abbrev two_pending : World
two_pending = record {
  table = record { rows = entry_at 1 0 ∷ entry_at 2 4 ∷ []; next_id = 3; now = 20 };
  log = [];
}

abbrev new_entry : NewEntry
new_entry = record {
  message_id = some (7 ∷ []);
  topic = b'u' ∷ [];
  partition_key = some (1 ∷ []);
  payload = some [];
}

abbrev with_trouble : List Event
with_trouble =
    inserts done new_entry
    ∷ waits 1
    ∷ inserts lost new_entry
    ∷ polls done (λ id. ends acked refused lost unacked done) 100 5
    ∷ polls done all_ok 100 6
    ∷ []

run-empty-Inv_example : Inv (run (empty_world 0) with_trouble)
run-empty-Inv_example = run-empty-Inv 0 with_trouble

-- An outbox with one row that is pending.
abbrev one_inserted : World
one_inserted = run (empty_world 0) (inserts done new_entry ∷ [])

one_waits : waiting one_inserted.table.rows ≤ 100 * 1
unfolding run step insert_row add_row row_of has_message
one_waits = omega arith

relay_run-drained_example :
    waiting (relay_run (map good_tick (30 ∷ [])) one_inserted).table.rows ≡ 0
relay_run-drained_example =
    relay_run-drained (30 ∷ []) one_inserted (run-empty-Inv 0 (inserts done new_entry ∷ []))
      one_waits
