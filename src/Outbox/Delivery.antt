-- ===== src/Outbox/Delivery.antt =====
-- What the relay delivers: every row that is published or failed stands for records in Kafka's log.
pub mod Rows
pub mod Polls
pub mod Histories
use mathlib.Core.List.{Memᴰ}
use fproto.Base.{
  ℕ, suc, ◌+◌, ◌<◌, ◌≤◌, ◌≡◌, refl, sym, ap, ◌∙◌, subst, Bool, true, false, Option, none, some,
  List, [], ◌∷◌, ◌++◌, arith, Bytes, Result, ok, err, leb, ◌==◌, if◌then◌else◌, All, All-append,
  All-mono, All-zip, All-take, All-filter,
}
use fproto.Sql.{Outcome, DbError, done, refused, lost, exec, always}
use fproto.Kafka.Producer.{Log, Record, SendOutcome, SendError, send, acked, rejected, unacked}
use fproto.Outbox.Store.{
  Status, pending, published, failed, Entry, Table, NewEntry, insert_row, update_row, update_where,
  insert, fetch_pending, mark_published, mark_failed, increment_retry, select_pending,
}
use fproto.Outbox.Relay.{
  World, Tries, PublishError, publish, after_publish, send_to_dead_letter, relay_entry, relay_all,
  poll, max_retries,
}
use Rows.{
  record_of, dead_record_of, SameContent, Agrees, Increasing, Agrees-self, All-select_pending,
  All-update_row, Keeps, Agrees-update_row, Increasing-update_row, Above-update_row,
}

-- What the status of a row promises of the log.
abbrev pub Promised : Status → Log → Entry → Type 0
Promised pending log r = Unit
Promised published log r = Memᴰ (record_of r) log
Promised failed log r = Memᴰ (dead_record_of r) log

abbrev pub Backed : Log → Entry → Type 0
Backed log r = Promised r.status log r

Memᴰ-append {ℓ} : {A : Type ℓ} {a : A} {xs : List A} (ys : List A) → Memᴰ a xs → Memᴰ a (xs ++ ys)
Memᴰ-append ys (Memᴰ.head e) = Memᴰ.head e
Memᴰ-append ys (Memᴰ.tail m) = Memᴰ.tail (Memᴰ-append ys m)

Memᴰ-last {ℓ} : {A : Type ℓ} (xs : List A) (a : A) → Memᴰ a (xs ++ a ∷ [])
Memᴰ-last [] a = Memᴰ.head refl
Memᴰ-last (x ∷ xs) a = Memᴰ.tail (Memᴰ-last xs a)

Promised-append :
    (s : Status) (log l : Log) (r : Entry) → Promised s log r → Promised s (log ++ l) r
Promised-append pending log l r h = tt
Promised-append published log l r h = Memᴰ-append l h
Promised-append failed log l r h = Memᴰ-append l h

-- While entry `e` is relayed: its row still has its content, and every row is backed.
abbrev pub Row : Entry → Log → Entry → Type 0
Row e log r = ((r.id == e.id) ≡ true → SameContent e r) × Backed log r

abbrev pub Good : Entry → World → Type 0
Good e w = All (Row e w.log) w.table.rows

Good-append : (e : Entry) (w : World) (l : Log) → Good e w → Good e (record w { log = w.log ++ l })
Good-append e w l h =
    All-mono _ _ (λ r k. (k.0, Promised-append r.status w.log l r k.1)) w.table.rows h

module _ (f : Entry → Entry) (keeps : Keeps f) (e : Entry) (w : World) where
  Good-update :
      ((r : Entry) → SameContent e r → Backed w.log r → Backed w.log (f r))
      → Good e w
      → Good e (record w { table = update_where e.id f w.table })
  Good-update backs h =
      All-update_row (Row e w.log) (Row e w.log) e.id f w.table.rows
        (λ r same k. (
          λ _. (
            (keeps r).1.0 ∙ (k.0 same).0,
            (keeps r).1.1 ∙ (k.0 same).1,
            (keeps r).1.2 ∙ (k.0 same).2,
          ),
          backs r (k.0 same) k.1,
        ))
        (λ r k. k) h

record_of_same : (e r : Entry) → SameContent e r → record_of e ≡ record_of r
record_of_same e r k = cc (k.0, k.1, k.2)

dead_record_of_same : (e r : Entry) → SameContent e r → dead_record_of e ≡ dead_record_of r
dead_record_of_same e r k = cc (k.0, k.2)

-- The three updates.
abbrev pub publishing : ℕ → Entry → Entry
publishing now r = record r { status = published; published_at = some now }

abbrev pub failing : Entry → Entry
failing r = record r { status = failed }

abbrev pub retrying : Entry → Entry
retrying r = record r { retry_count = r.retry_count + 1 }

pub publishing-Keeps : (now : ℕ) → Keeps (publishing now)
publishing-Keeps now r = (refl, (refl, refl, refl))

pub failing-Keeps : Keeps failing
failing-Keeps r = (refl, (refl, refl, refl))

pub retrying-Keeps : Keeps retrying
retrying-Keeps r = (refl, (refl, refl, refl))

Promised-retrying :
    (s : Status) (log : Log) (r : Entry) → Promised s log r → Promised s log (retrying r)
Promised-retrying pending log r h = h
Promised-retrying published log r h = h
Promised-retrying failed log r h = h

module _ (e : Entry) (w : World) (h : Good e w) where
  mark_published-Good :
      (o : Outcome) (now : ℕ)
      → Memᴰ (record_of e) w.log
      → Good e (record w { table = (mark_published o now e.id w.table).1 })
  mark_published-Good done now m =
      Good-update (publishing now) (publishing-Keeps now) e w
        (λ r k _. subst (λ x. Memᴰ x w.log) (record_of_same e r k) m) h
  mark_published-Good lost now m =
      Good-update (publishing now) (publishing-Keeps now) e w
        (λ r k _. subst (λ x. Memᴰ x w.log) (record_of_same e r k) m) h
  mark_published-Good refused now m = h

  mark_failed-Good :
      (o : Outcome)
      → Memᴰ (dead_record_of e) w.log
      → Good e (record w { table = (mark_failed o e.id w.table).1 })
  mark_failed-Good done m =
      Good-update failing failing-Keeps e w
        (λ r k _. subst (λ x. Memᴰ x w.log) (dead_record_of_same e r k) m) h
  mark_failed-Good lost m =
      Good-update failing failing-Keeps e w
        (λ r k _. subst (λ x. Memᴰ x w.log) (dead_record_of_same e r k) m) h
  mark_failed-Good refused m = h

  backs : (r : Entry) → SameContent e r → Backed w.log r → Backed w.log (retrying r)
  backs r k b = Promised-retrying r.status w.log r b

  increment_retry-Good :
      (o : Outcome) → Good e (record w { table = (increment_retry o e.id w.table).1 })
  increment_retry-Good done = Good-update retrying retrying-Keeps e w backs h
  increment_retry-Good lost = Good-update retrying retrying-Keeps e w backs h
  increment_retry-Good refused = h

abbrev sent : World → Record → World
sent w r = record w { log = w.log ++ r ∷ [] }

abbrev pub ends : SendOutcome → Outcome → Outcome → SendOutcome → Outcome → Tries
ends s m i d x = record { sends = s; marks = m; increments = i; dead_sends = d; fails = x }

-- publish keeps the rows backed, however its calls end: a row is marked only after its record was
-- stored. So does the dead-letter branch.
module _ (e : Entry) (w : World) (h : Good e w) (s : SendOutcome) (m i : Outcome) where
  dead_stage : (d : SendOutcome) (x : Outcome) → Good e (send_to_dead_letter (ends s m i d x) e w)
  unfolding send_to_dead_letter
  dead_stage rejected x = h
  dead_stage unacked x = Good-append e w _ h
  dead_stage acked x =
      mark_failed-Good e (sent w (dead_record_of e)) (Good-append e w (dead_record_of e ∷ []) h) x
        (Memᴰ-last w.log _)

publish_stage :
    (e : Entry) (w : World) (now : ℕ) (i : Outcome) (d : SendOutcome) (x : Outcome)
    → Good e w
    → (s : SendOutcome) (m : Outcome) → Good e (publish (ends s m i d x) now e w).1
unfolding publish
publish_stage e w now i d x h rejected m = h
publish_stage e w now i d x h unacked m = Good-append e w _ h
publish_stage e w now i d x h acked refused = Good-append e w (record_of e ∷ []) h
publish_stage e w now i d x h acked done =
    mark_published-Good e (sent w (record_of e)) (Good-append e w (record_of e ∷ []) h) done now
      (Memᴰ-last w.log _)
publish_stage e w now i d x h acked lost =
    mark_published-Good e (sent w (record_of e)) (Good-append e w (record_of e ∷ []) h) lost now
      (Memᴰ-last w.log _)

after_publish-Good :
    (tries : Tries) (e : Entry) (r : Result PublishError (Unit {0})) (w : World)
    → Good e w
    → Good e (after_publish tries e (r, w))
unfolding after_publish
after_publish-Good tries e (ok u) w h = h
after_publish-Good tries e (err x) w h =
    let w' : World = record w { table = (increment_retry tries.increments e.id w.table).1 } in
    let k : Good e w' = increment_retry-Good e w h tries.increments in
    elim (leb max_retries (e.retry_count + 1))
      as (λ b. Good e (if b then send_to_dead_letter tries e w' else w')) [
        | true ↦
            dead_stage e w' k tries.sends tries.marks tries.increments tries.dead_sends tries.fails
        | false ↦ k
      ]

pub relay_entry-Good :
    (tries : Tries) (now : ℕ) (e : Entry) (w : World)
    → Good e w
    → Good e (relay_entry tries now e w)
unfolding relay_entry
relay_entry-Good tries now e w h =
    after_publish-Good tries e (publish tries now e w).0 (publish tries now e w).1 (
      publish_stage e w now tries.increments tries.dead_sends tries.fails h tries.sends tries.marks)
