-- ===== src/Session/Stores/Pg.antt =====
-- The methods of PGStore (proto-core/session/pg_store.go); those on connections do nothing.
use fproto.Base.{
  Bool, true, false, not, ◌&&◌, Option, none, some, List, [], ◌∷◌, ◌++◌, map, Bytes, Result, ok,
  err, if◌then◌else◌, bytes_equal, filter, any,
}
use fproto.Sql.{DbError, violation, no_rows, Outcome, Answer, exec, always, query}
use fproto.Session.Machine.{Status, expired, unlisted_status}
use fproto.Session.Stores.{Session, Row, PgDb}

-- CHECK (status IN (...)).
abbrev listed : Status → Bool
listed (unlisted_status t) = false
listed _ = true

abbrev has_id : Bytes → Row → Bool
has_id id r = bytes_equal r.session_id id

-- The NOT NULL columns, then the primary key.
unfoldable pub insert_row :
    Session → Option Bytes → Option Bytes → Option Bytes → PgDb → Answer PgDb
insert_row s (some u) (some dv) (some c) t =
    if any (has_id s.session_id) t.rows
    then (err violation, t)
    else if listed s.status
    then (
      ok tt,
      record t {
        rows =
            t.rows
            ++ record {
              session_id = s.session_id;
              user_id = u;
              device_id = dv;
              crypto_state = c;
              status = s.status;
              created_at = s.created_at;
              updated_at = s.created_at;
              expires_at = s.expires_at;
            }
              ∷ [];
      },
    )
    else (err violation, t)
insert_row s _ _ _ t = (err violation, t)

unfoldable pub create : Outcome → Session → PgDb → Answer PgDb
create o s = exec o (insert_row s s.user_id s.device_id s.crypto_state)

unfoldable pub find : Bytes → List Row → Result DbError Session
find id [] = err no_rows
find id (r ∷ rs) =
    if has_id id r
    then ok (record {
      session_id = r.session_id;
      user_id = some r.user_id;
      device_id = some r.device_id;
      status = r.status;
      crypto_state = some r.crypto_state;
      created_at = r.created_at;
      last_active = r.updated_at;
      expires_at = r.expires_at;
      connections = [];
    })
    else find id rs

unfoldable pub get : Outcome → Bytes → PgDb → Result DbError Session
get o id t = query o (find id t.rows)

unfoldable pub update_rows : Bytes → (Row → Row) → List Row → List Row
update_rows id f [] = []
update_rows id f (r ∷ rs) = (if has_id id r then f r else r) ∷ update_rows id f rs

-- A status outside the list is refused if there is a row to update.
unfoldable pub set_status : Bytes → Status → PgDb → Answer PgDb
set_status id s t = if any (has_id id) t.rows && not (listed s) then (err violation, t) else (
  ok tt,
  record t { rows = update_rows id (λ r. record r { status = s; updated_at = t.now }) t.rows },
)

unfoldable pub update_status : Outcome → Bytes → Status → PgDb → Answer PgDb
update_status o id s = exec o (set_status id s)

unfoldable pub set_crypto_state : Bytes → Option Bytes → PgDb → Answer PgDb
set_crypto_state id none t = if any (has_id id) t.rows then (err violation, t) else (ok tt, t)
set_crypto_state id (some c) t = (
  ok tt,
  record t {
    rows = update_rows id (λ r. record r { crypto_state = c; updated_at = t.now }) t.rows;
  },
)

unfoldable pub update_crypto_state : Outcome → Bytes → Option Bytes → PgDb → Answer PgDb
update_crypto_state o id c = exec o (set_crypto_state id c)

unfoldable pub update_last_active : Outcome → Bytes → PgDb → Answer PgDb
update_last_active o id =
    exec o (
      always
        (λ t. record t { rows = update_rows id (λ r. record r { updated_at = t.now }) t.rows }))

unfoldable pub delete : Outcome → Bytes → PgDb → Answer PgDb
delete o id = exec o (always (λ t. record t { rows = filter (λ r. not (has_id id r)) t.rows }))

abbrev is_expired : Status → Bool
is_expired expired = true
is_expired _ = false

unfoldable pub get_user_sessions : Outcome → Bytes → PgDb → Result DbError (List Bytes)
get_user_sessions o u t = query o (
    ok (
      map (λ r. r.session_id)
        (filter (λ r. bytes_equal r.user_id u && not (is_expired r.status)) t.rows)))
