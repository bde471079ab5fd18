-- ===== src/Outbox/Running/Drained.antt =====
-- The pending rows of the outbox while the relay runs and all calls succeed.
use Prim.Native.Nat.{min}
use fproto.Base.{
  ℕ, zero, suc, ◌+◌, ◌*◌, ◌≤◌, ◌≡◌, refl, ap, subst, ◌∙◌, Bool, true, false, ◌&&◌, List, [], ◌∷◌,
  map, arith, ltb, ◌==◌, if◌then◌else◌, All, All-mono, All-zip, All-filter, All-take, ◌<◌, filter,
  any, length, length-take, take,
}
use fproto.Sql
use fproto.Outbox.Store.{
  Entry, update_row, is_pending, select_pending, order_by_time, insert_by_time,
}
use fproto.Outbox.Relay.{World, relay_all, poll, default_batch_size}
use fproto.Outbox.Delivery.Rows.{record_of, Increasing, All-insert_by_time, All-order_by_time}
use fproto.Outbox.Delivery.{publishing}
use fproto.Outbox.Delivery.Polls.{Inv, poll-Inv}
use fproto.Outbox.Progress.{moved}
use fproto.Outbox.Drain.{all_ok, relay_all-cons}
use fproto.Outbox.Running.{Signal, tick, relay_run}

-- How many rows are pending.
abbrev pub waiting : List Entry → ℕ
waiting [] = 0
waiting (r ∷ rows) = let rest = waiting rows in if is_pending r.status then suc rest else rest

abbrev is_waiting : Entry → Entry → Bool
is_waiting e r = (r.id == e.id) && is_pending r.status

-- A row with the id of the entry is pending.
abbrev Waits : List Entry → Entry → Type 0
Waits rows e = any (is_waiting e) rows ≡ true

abbrev Differs : Entry → Entry → Type 0
Differs e x = (x.id == e.id) ≡ false

abbrev AllDiffer : List Entry → Type 0
AllDiffer [] = Unit
AllDiffer (e ∷ es) = All (Differs e) es × AllDiffer es

waiting-update_row-le :
    (id now : ℕ) (rows : List Entry) → waiting (update_row id (publishing now) rows) ≤ waiting rows
unfolding update_row
waiting-update_row-le id now [] = omega arith
waiting-update_row-le id now (r ∷ rows) = ground (arith, waiting-update_row-le id now rows)

waiting-update_row :
    (e : Entry) (now : ℕ) (rows : List Entry)
    → Waits rows e
    → suc (waiting (update_row e.id (publishing now) rows)) ≤ waiting rows
unfolding update_row
waiting-update_row e now [] h = cc
waiting-update_row e now (r ∷ rows) h =
    ground (arith, waiting-update_row e now rows, waiting-update_row-le e.id now rows)

Waits-update_row :
    (e x : Entry) (now : ℕ) (rows : List Entry)
    → Differs e x
    → Waits rows x
    → Waits (update_row e.id (publishing now) rows) x
unfolding update_row
Waits-update_row e x now [] d h = h
Waits-update_row e x now (r ∷ rows) d h = ground (arith, Waits-update_row e x now rows d)

relay_all-waiting :
    (now : ℕ) (es : List Entry) (w : World)
    → AllDiffer es
    → All (Waits w.table.rows) es
    → waiting (relay_all all_ok now es w).table.rows + length es ≤ waiting w.table.rows
relay_all-waiting now [] w d h = unfold relay_all in omega arith
relay_all-waiting now (e ∷ es) w d h =
    let w' : World = moved w (record_of e ∷ []) e.id (publishing now) in
    let rest = relay_all-waiting now es w' d.1 (
      All-zip (Differs e) (Waits w.table.rows) _
        (λ x k q. Waits-update_row e x now w.table.rows k q) es d.0 h.1) in
    let first = waiting-update_row e now w.table.rows h.0 in
    rw (relay_all-cons now e es w) (omega arith)

Differs-sym : (r x : Entry) → Differs r x → Differs x r
Differs-sym r x h = ground arith

-- The selected rows.
AllDiffer-insert_by_time :
    (r : Entry) (xs : List Entry)
    → All (Differs r) xs
    → AllDiffer xs
    → AllDiffer (insert_by_time r xs)
unfolding insert_by_time
AllDiffer-insert_by_time r [] h d = (tt, tt)
AllDiffer-insert_by_time r (x ∷ xs) h d =
    elim (ltb x.created_at r.created_at)
      as (λ b. AllDiffer (if b then x ∷ insert_by_time r xs else r ∷ x ∷ xs)) [
        | true ↦ (
          All-insert_by_time (Differs x) r xs (Differs-sym r x h.0) d.0,
          AllDiffer-insert_by_time r xs h.1 d.1,
        )
        | false ↦ (h, d)
      ]

AllDiffer-order_by_time : (xs : List Entry) → AllDiffer xs → AllDiffer (order_by_time xs)
unfolding order_by_time
AllDiffer-order_by_time [] d = tt
AllDiffer-order_by_time (x ∷ xs) d =
    AllDiffer-insert_by_time x (order_by_time xs) (All-order_by_time (Differs x) xs d.0)
      (AllDiffer-order_by_time xs d.1)

AllDiffer-take : (n : ℕ) (xs : List Entry) → AllDiffer xs → AllDiffer (take n xs)
AllDiffer-take zero xs d = tt
AllDiffer-take (suc n) [] d = tt
AllDiffer-take (suc n) (x ∷ xs) d = (All-take (Differs x) n xs d.0, AllDiffer-take n xs d.1)

AllDiffer-filter : (p : Entry → Bool) (xs : List Entry) → AllDiffer xs → AllDiffer (filter p xs)
AllDiffer-filter p [] d = tt
AllDiffer-filter p (x ∷ xs) d =
    elim (p x) as (λ b. AllDiffer (if b then x ∷ filter p xs else filter p xs)) [
      | true ↦ (All-filter (Differs x) p xs d.0, AllDiffer-filter p xs d.1)
      | false ↦ AllDiffer-filter p xs d.1
    ]

Increasing-AllDiffer : (rows : List Entry) → Increasing rows → AllDiffer rows
Increasing-AllDiffer [] h = tt
Increasing-AllDiffer (r ∷ rows) h = (
  All-mono (λ x. r.id < x.id) (Differs r) (λ x lt. ground arith) rows h.0,
  Increasing-AllDiffer rows h.1,
)

abbrev pendings : List Entry → List Entry
pendings rows = filter (λ r. is_pending r.status) rows

length-insert_by_time :
    (r : Entry) (xs : List Entry) → length (insert_by_time r xs) ≡ suc (length xs)
unfolding insert_by_time
length-insert_by_time r [] = refl
length-insert_by_time r (x ∷ xs) = ground (arith, length-insert_by_time r xs)

length-order_by_time : (xs : List Entry) → length (order_by_time xs) ≡ length xs
unfolding order_by_time
length-order_by_time [] = refl
length-order_by_time (x ∷ xs) =
    length-insert_by_time x (order_by_time xs) ∙ ap suc (length-order_by_time xs)

length-pendings : (rows : List Entry) → length (pendings rows) ≡ waiting rows
length-pendings [] = refl
length-pendings (r ∷ rows) = ground (arith, length-pendings rows)

Waits-cons : (r : Entry) (rows : List Entry) (x : Entry) → Waits rows x → Waits (r ∷ rows) x
Waits-cons r rows x h = ground (arith, h)

pendings-Waits : (rows : List Entry) → All (Waits rows) (pendings rows)
pendings-Waits [] = tt
pendings-Waits (r ∷ rows) =
    let rest =
      All-mono (Waits rows) (Waits (r ∷ rows)) (Waits-cons r rows) (pendings rows)
        (pendings-Waits rows) in
    (elim (is_pending r.status)
        as (λ b.
          is_pending r.status ≡ b
          → All (Waits (r ∷ rows)) (if b then r ∷ pendings rows else pendings rows)) [
            | true ↦ λ q. (ground (arith, q), rest)
            | false ↦ λ q. rest
          ])
      refl

poll-waiting :
    (batch now : ℕ) (w : World)
    → Inv w
    → waiting (poll Sql.done all_ok batch now w).table.rows + min batch (waiting w.table.rows)
      ≤ waiting w.table.rows
unfolding poll select_pending
poll-waiting batch now w v =
    let rows = w.table.rows in
    let sorted = order_by_time (pendings rows) in
    let less =
      relay_all-waiting now (take batch sorted) w
        (AllDiffer-take batch sorted (
          AllDiffer-order_by_time (pendings rows)
            (AllDiffer-filter _ rows (Increasing-AllDiffer rows v.ordered.0))))
        (All-take (Waits rows) batch sorted
          (All-order_by_time (Waits rows) (pendings rows) (pendings-Waits rows))) in
    let size : length (take batch sorted) ≡ min batch (waiting rows) =
      length-take batch sorted
      ∙ ap (min batch) (length-order_by_time (pendings rows) ∙ length-pendings rows) in
    subst (λ k. waiting (poll Sql.done all_ok batch now w).table.rows + k ≤ waiting rows) size less

-- A tick on which all calls succeed, at a time.
abbrev pub good_tick : ℕ → Signal
good_tick now = tick Sql.done all_ok now

-- Where the invariant of the outbox holds, and all calls succeed, no row is pending after the relay has
-- run for at least one tick for each hundred rows that were pending.
pub relay_run-drained :
    (times : List ℕ) (w : World)
    → Inv w
    → waiting w.table.rows ≤ default_batch_size * length times
    → waiting (relay_run (map good_tick times) w).table.rows ≡ 0
unfolding relay_run
relay_run-drained [] w v h = omega arith
relay_run-drained (now ∷ times) w v h =
    let less = poll-waiting default_batch_size now w v in
    relay_run-drained times (poll Sql.done all_ok default_batch_size now w)
      (poll-Inv Sql.done all_ok default_batch_size now w v) (omega arith)
