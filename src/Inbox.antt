-- ===== src/Inbox.antt =====
-- server/internal/inbox (model.go and store.go): the table inbox, and each statement on it. Its laws
-- are in `Laws`.
pub mod Laws
use fproto.Base.{
  ℕ, suc, ◌+◌, ◌≡◌, refl, Bool, true, false, not, ◌&&◌, Option, none, some, List, [], ◌∷◌, ◌++◌,
  map, arith, Bytes, Result, ok, err, ltb, leb, ◌==◌, if◌then◌else◌, bytes_equal, filter, any, take,
  length,
}
use fproto.Sql.{DbError, violation, unavailable, Outcome, Answer, exec, always, query}

pub record Entry : Type 0 where
  pub id : ℕ
  pub user_id : Bytes
  pub message_id : Bytes
  pub conversation_id : Option Bytes
  pub sender_id : Bytes
  pub payload : Bytes
  pub delivered : Bool
  pub read : Bool
  pub created_at : ℕ

pub record Table : Type 0 where
  pub rows : List Entry
  pub next_id : ℕ
  pub now : ℕ

-- The entry that Insert is given; a nil slice is NULL.
pub record NewEntry : Type 0 where
  pub user_id : Option Bytes
  pub message_id : Option Bytes
  pub conversation_id : Option Bytes
  pub sender_id : Option Bytes
  pub payload : Option Bytes

-- The row that the INSERT makes, or none where a NOT NULL column would be NULL.
unfoldable pub columns :
    NewEntry → Table → Option Bytes → Option Bytes → Option Bytes → Option Bytes → Option Entry
columns e t (some u) (some m) (some s) (some p) = some (record {
  id = t.next_id;
  user_id = u;
  message_id = m;
  conversation_id = e.conversation_id;
  sender_id = s;
  payload = p;
  delivered = false;
  read = false;
  created_at = t.now;
})
columns e t _ _ _ _ = none

unfoldable pub row_of : NewEntry → Table → Option Entry
unfolding columns
row_of e t = columns e t e.user_id e.message_id e.sender_id e.payload

-- The row of a user and a message, as the UNIQUE constraint compares them.
unfoldable pub is_row_of : Bytes → Bytes → Entry → Bool
is_row_of u m r = bytes_equal r.user_id u && bytes_equal r.message_id m

unfoldable pub holds : Bytes → Bytes → Table → Bool
unfolding is_row_of
holds u m t = any (is_row_of u m) t.rows

-- BIGSERIAL draws a number also where the row is not added.
abbrev pub drawn : Table → Table
drawn t = record t { next_id = suc t.next_id }

-- ON CONFLICT (user_id, message_id) DO NOTHING.
unfoldable pub add_row : Entry → Table → Answer Table
add_row r t =
    if holds r.user_id r.message_id t
    then (ok tt, drawn t)
    else (ok tt, record t { rows = t.rows ++ r ∷ []; next_id = suc t.next_id })

unfoldable pub insert_row : NewEntry → Table → Answer Table
insert_row e t = elim (row_of e t) [ none ↦ (err violation, drawn t) | some r ↦ add_row r t ]

unfoldable pub insert_by_time : Entry → List Entry → List Entry
insert_by_time r [] = r ∷ []
insert_by_time r (x ∷ xs) =
    if ltb x.created_at r.created_at then x ∷ insert_by_time r xs else r ∷ x ∷ xs

-- ORDER BY created_at; rows of one time stay in the order of their ids.
unfoldable pub order_by_time : List Entry → List Entry
order_by_time [] = []
order_by_time (r ∷ rs) = insert_by_time r (order_by_time rs)

unfoldable pub insert_latest : Entry → List Entry → List Entry
insert_latest r [] = r ∷ []
insert_latest r (x ∷ xs) =
    if ltb r.created_at x.created_at then x ∷ insert_latest r xs else r ∷ x ∷ xs

-- ORDER BY created_at DESC.
unfoldable pub order_by_latest : List Entry → List Entry
order_by_latest [] = []
order_by_latest (r ∷ rs) = insert_latest r (order_by_latest rs)

abbrev pub of_user : Bytes → Entry → Bool
of_user u r = bytes_equal r.user_id u

unfoldable pub select_undelivered : Bytes → ℕ → Table → List Entry
select_undelivered u limit t =
    take limit (order_by_time (filter (λ r. of_user u r && not r.delivered) t.rows))

-- A comparison with NULL is not true.
abbrev equals_column : Option Bytes → Bytes → Bool
equals_column none b = false
equals_column (some a) b = bytes_equal a b

unfoldable pub select_history : Bytes → Bytes → ℕ → ℕ → Table → List Entry
select_history u c after limit t = take limit (
    order_by_latest
      (filter (λ r. (of_user u r && equals_column r.conversation_id c) && ltb after r.id) t.rows))

-- The subquery: the time of the user's row of the message, or NULL.
unfoldable pub time_of : Bytes → Bytes → List Entry → Option ℕ
time_of u m [] = none
time_of u m (r ∷ rs) = if is_row_of u m r then some r.created_at else time_of u m rs

-- created_at > NULL is not true.
abbrev pub later_than : Option ℕ → Entry → Bool
later_than none r = false
later_than (some c) r = ltb c r.created_at

unfoldable pub select_after : Bytes → Bytes → ℕ → Table → List Entry
select_after u last limit t =
    take limit
      (order_by_time (filter (λ r. of_user u r && later_than (time_of u last t.rows) r) t.rows))

unfoldable pub update_row : ℕ → (Entry → Entry) → List Entry → List Entry
update_row id f [] = []
update_row id f (r ∷ rs) = (if r.id == id then f r else r) ∷ update_row id f rs

abbrev pub update_where : ℕ → (Entry → Entry) → Table → Table
update_where id f t = record t { rows = update_row id f t.rows }

-- The Store's methods.
abbrev pub insert : Outcome → NewEntry → Table → Answer Table
insert o e = exec o (insert_row e)

abbrev pub get_undelivered : Outcome → Bytes → ℕ → Table → Result DbError (List Entry)
get_undelivered o u limit t = query o (ok (select_undelivered u limit t))

abbrev pub get_history : Outcome → Bytes → Bytes → ℕ → ℕ → Table → Result DbError (List Entry)
get_history o u c after limit t = query o (ok (select_history u c after limit t))

abbrev pub get_after_message_id : Outcome → Bytes → Bytes → ℕ → Table → Result DbError (List Entry)
get_after_message_id o u last limit t = query o (ok (select_after u last limit t))

abbrev pub mark_delivered : Outcome → ℕ → Table → Answer Table
mark_delivered o id = exec o (always (update_where id (λ r. record r { delivered = true })))

abbrev pub mark_read : Outcome → ℕ → Table → Answer Table
mark_read o id = exec o (always (update_where id (λ r. record r { read = true })))

abbrev pub count : Outcome → Bytes → Table → Result DbError ℕ
count o u t = query o (ok (length (filter (of_user u) t.rows)))
