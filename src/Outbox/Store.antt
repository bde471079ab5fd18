-- ===== src/Outbox/Store.antt =====
-- server/internal/outbox/model.go and store.go: the table outbox, and each statement on it.
use fproto.Base.{
  ℕ, suc, ◌+◌, Bool, true, false, Option, none, some, List, [], ◌∷◌, ◌++◌, Bytes, Result, ok, err,
  ltb, ◌==◌, if◌then◌else◌, bytes_equal, filter, any, take,
}
use fproto.Sql.{DbError, violation, no_rows, Outcome, Answer, exec, always, query}

pub data Status : Type 0 where
  pending published failed : Status

abbrev pub is_pending : Status → Bool
is_pending pending = true
is_pending _ = false

pub record Entry : Type 0 where
  pub id : ℕ
  pub message_id : Bytes
  pub topic : Bytes
  pub partition_key : Bytes
  pub payload : Bytes
  pub status : Status
  pub retry_count : ℕ
  pub created_at : ℕ
  pub published_at : Option ℕ

-- The rows in the order of their ids, the value of the sequence, and the server's clock.
pub record Table : Type 0 where
  pub rows : List Entry
  pub next_id : ℕ
  pub now : ℕ

-- The entry that Insert is given; the byte slices may be nil, which is NULL.
pub record NewEntry : Type 0 where
  pub message_id : Option Bytes
  pub topic : Bytes
  pub partition_key : Option Bytes
  pub payload : Option Bytes

unfoldable pub has_message : Bytes → List Entry → Bool
has_message m = any λ r. bytes_equal r.message_id m

-- The row that the INSERT makes, or none where a NOT NULL column would be NULL.
unfoldable pub columns :
    NewEntry → Table → Option Bytes → Option Bytes → Option Bytes → Option Entry
columns e t (some m) (some k) (some p) = some (record {
  id = t.next_id;
  message_id = m;
  topic = e.topic;
  partition_key = k;
  payload = p;
  status = pending;
  retry_count = 0;
  created_at = t.now;
  published_at = none;
})
columns e t _ _ _ = none

unfoldable pub row_of : NewEntry → Table → Option Entry
unfolding columns
row_of e t = columns e t e.message_id e.partition_key e.payload

-- BIGSERIAL: the sequence has moved on, also where a constraint refuses the row.
abbrev pub drawn : Table → Table
drawn t = record t { next_id = suc t.next_id }

-- The row is added, unless the UNIQUE column message_id holds its value.
unfoldable pub add_row : Entry → Table → Answer Table
add_row r t =
    if has_message r.message_id t.rows
    then (err violation, drawn t)
    else (ok tt, record t { rows = t.rows ++ r ∷ []; next_id = suc t.next_id })

unfoldable pub insert_row : NewEntry → Table → Answer Table
insert_row e t = elim (row_of e t) [ none ↦ (err violation, drawn t) | some r ↦ add_row r t ]

-- UPDATE outbox SET ... WHERE id = $1.
unfoldable pub update_row : ℕ → (Entry → Entry) → List Entry → List Entry
update_row id f [] = []
update_row id f (r ∷ rs) = (if r.id == id then f r else r) ∷ update_row id f rs

abbrev pub update_where : ℕ → (Entry → Entry) → Table → Table
update_where id f t = record t { rows = update_row id f t.rows }

-- ORDER BY created_at, by insertion; rows of one time stay in the order of their ids.
unfoldable pub insert_by_time : Entry → List Entry → List Entry
insert_by_time r [] = r ∷ []
insert_by_time r (x ∷ xs) =
    if ltb x.created_at r.created_at then x ∷ insert_by_time r xs else r ∷ x ∷ xs

unfoldable pub order_by_time : List Entry → List Entry
order_by_time [] = []
order_by_time (r ∷ rs) = insert_by_time r (order_by_time rs)

unfoldable pub select_pending : ℕ → Table → List Entry
unfolding order_by_time insert_by_time
select_pending limit t = take limit (order_by_time (filter (λ r. is_pending r.status) t.rows))

unfoldable pub find_message : Bytes → List Entry → Result DbError Entry
find_message m [] = err no_rows
find_message m (r ∷ rs) = if bytes_equal r.message_id m then ok r else find_message m rs

-- The Store's methods.
abbrev pub insert : Outcome → NewEntry → Table → Answer Table
insert o e = exec o (insert_row e)

abbrev pub fetch_pending : Outcome → ℕ → Table → Result DbError (List Entry)
fetch_pending o limit t = query o (ok (select_pending limit t))

-- `now` is the client's clock.
abbrev pub mark_published : Outcome → ℕ → ℕ → Table → Answer Table
mark_published o now id =
    exec o
      (always (update_where id (λ r. record r { status = published; published_at = some now })))

abbrev pub mark_failed : Outcome → ℕ → Table → Answer Table
mark_failed o id = exec o (always (update_where id (λ r. record r { status = failed })))

abbrev pub increment_retry : Outcome → ℕ → Table → Answer Table
increment_retry o id =
    exec o (always (update_where id (λ r. record r { retry_count = r.retry_count + 1 })))

abbrev pub get_by_message_id : Outcome → Bytes → Table → Result DbError Entry
get_by_message_id o m t = query o (find_message m t.rows)
