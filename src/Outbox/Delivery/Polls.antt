-- ===== src/Outbox/Delivery/Polls.antt =====
-- What a whole poll keeps.
use fproto.Base.{
  ℕ, ◌+◌, ◌<◌, true, false, List, [], ◌∷◌, Result, ok, err, leb, if◌then◌else◌, All, All-mono,
  All-zip,
}
use fproto.Sql.{Outcome, done, refused, lost, exec, always}
use fproto.Kafka.Producer.{SendOutcome, acked, rejected, unacked}
use fproto.Outbox.Store.{Entry, Table, update_where, increment_retry}
use fproto.Outbox.Relay.{
  World, Tries, PublishError, publish, after_publish, send_to_dead_letter, relay_entry, relay_all,
  poll, max_retries,
}
use fproto.Outbox.Delivery.Rows.{
  Agrees, Increasing, Agrees-self, All-select_pending, Keeps, Agrees-update_row,
  Increasing-update_row, Above-update_row,
}
use fproto.Outbox.Delivery.{
  Backed, Row, ends, relay_entry-Good, publishing-Keeps, failing-Keeps, retrying-Keeps,
}

-- A property of the table that no update of one row breaks.
abbrev Lasting : (Table → Type 0) → Type 0
Lasting T = (f : Entry → Entry) → Keeps f → (id : ℕ) (t : Table) → T t → T (update_where id f t)

module _ (T : Table → Type 0) (lasting : Lasting T) (e : Entry) where
  exec_lasting :
      (o : Outcome) (f : Entry → Entry) (t : Table)
      → Keeps f
      → T t
      → T (exec o (always (update_where e.id f)) t).1
  exec_lasting done f t keeps h = lasting f keeps e.id t h
  exec_lasting refused f t keeps h = h
  exec_lasting lost f t keeps h = lasting f keeps e.id t h

  publish_lasting :
      (now : ℕ) (w : World) (i : Outcome) (d : SendOutcome) (x : Outcome)
      → T w.table
      → (s : SendOutcome) (m : Outcome) → T (publish (ends s m i d x) now e w).1.table
  unfolding publish
  publish_lasting now w i d x h rejected m = h
  publish_lasting now w i d x h unacked m = h
  publish_lasting now w i d x h acked done = exec_lasting done _ w.table (publishing-Keeps now) h
  publish_lasting now w i d x h acked refused = h
  publish_lasting now w i d x h acked lost = exec_lasting lost _ w.table (publishing-Keeps now) h

  dead_lasting :
      (w : World) (s : SendOutcome) (m i : Outcome)
      → T w.table
      → (d : SendOutcome) (x : Outcome) → T (send_to_dead_letter (ends s m i d x) e w).table
  unfolding send_to_dead_letter
  dead_lasting w s m i h rejected x = h
  dead_lasting w s m i h unacked x = h
  dead_lasting w s m i h acked x = exec_lasting x _ w.table failing-Keeps h

  after_publish_lasting :
      (tries : Tries) (r : Result PublishError (Unit {0})) (w : World)
      → T w.table
      → T (after_publish tries e (r, w)).table
  unfolding after_publish
  after_publish_lasting tries (ok u) w h = h
  after_publish_lasting tries (err x) w h =
      let w' : World = record w { table = (increment_retry tries.increments e.id w.table).1 } in
      let k : T w'.table = exec_lasting tries.increments _ w.table retrying-Keeps h in
      elim (leb max_retries (e.retry_count + 1))
        as (λ b. T (if b then send_to_dead_letter tries e w' else w').table) [
          | true ↦
              dead_lasting w' tries.sends tries.marks tries.increments k tries.dead_sends
                tries.fails
          | false ↦ k
        ]

  relay_entry_lasting :
      (tries : Tries) (now : ℕ) (w : World) → T w.table → T (relay_entry tries now e w).table
  unfolding relay_entry
  relay_entry_lasting tries now w h =
      after_publish_lasting tries (publish tries now e w).0 (publish tries now e w).1 (
        publish_lasting now w tries.increments tries.dead_sends tries.fails h tries.sends
          tries.marks)

-- The ids increase, and the sequence is past them.
abbrev pub Ordered : Table → Type 0
Ordered t = Increasing t.rows × All (λ r. r.id < t.next_id) t.rows

Ordered-Lasting : Lasting Ordered
Ordered-Lasting f keeps id t h =
    (Increasing-update_row f keeps id t.rows h.0, Above-update_row f keeps id t.next_id t.rows h.1)

Agrees-Lasting : (e : Entry) → Lasting (λ t. Agrees t.rows e)
Agrees-Lasting e f keeps id t h = Agrees-update_row f keeps id t.rows e h

-- What holds of the outbox between two polls.
pub record Inv (w : World) : Type 0 where
  pub ordered : Ordered w.table
  pub backed : All (Backed w.log) w.table.rows

relay_entry-Inv :
    (tries : Tries) (now : ℕ) (e : Entry) (w : World)
    → Inv w
    → Agrees w.table.rows e
    → Inv (relay_entry tries now e w)
relay_entry-Inv tries now e w v a = record {
  ordered = relay_entry_lasting Ordered Ordered-Lasting e tries now w v.ordered;
  backed =
      All-mono (Row e (relay_entry tries now e w).log) _ (λ r k. k.1) _
        (relay_entry-Good tries now e w (All-zip _ _ _ (λ r k b. (k, b)) w.table.rows a v.backed));
}

relay_all-Inv :
    (tries : ℕ → Tries) (now : ℕ) (es : List Entry) (w : World)
    → Inv w
    → All (Agrees w.table.rows) es
    → Inv (relay_all tries now es w)
unfolding relay_all
relay_all-Inv tries now [] w v a = v
relay_all-Inv tries now (e ∷ es) w v a =
    relay_all-Inv tries now es (relay_entry (tries e.id) now e w)
      (relay_entry-Inv (tries e.id) now e w v a.0)
      (All-mono (Agrees w.table.rows) _
        (λ x k.
          relay_entry_lasting (λ t. Agrees t.rows x) (Agrees-Lasting x) e (tries e.id) now w k)
        es a.1)

pub poll-Inv :
    (fetch : Outcome) (tries : ℕ → Tries) (batch now : ℕ) (w : World)
    → Inv w
    → Inv (poll fetch tries batch now w)
unfolding poll
poll-Inv done tries batch now w v =
    relay_all-Inv tries now _ w v (
      All-select_pending (Agrees w.table.rows) batch w.table (Agrees-self w.table.rows v.ordered.0))
poll-Inv refused tries batch now w v = v
poll-Inv lost tries batch now w v = v
