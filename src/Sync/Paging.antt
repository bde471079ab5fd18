-- ===== src/Sync/Paging.antt =====
-- GetMissedMessagesPaginated (server/internal/sync/offline.go). The callback is whether it takes a page;
-- the table stays as it is while the loop runs. `Newer` is about the rows behind a cursor, `Termination`
-- about the end of the loop.
pub mod Newer
pub mod Termination
use mathlib.Core.List.{Memᴰ}
use fproto.Base.{
  ℕ, zero, suc, ◌+◌, ◌≤◌, ◌<◌, ◌≡◌, ◌≢◌, refl, sym, ap, ◌∙◌, subst, Bool, true, false, not, ◌&&◌,
  ◌==◌, ==_iff, Option, none, some, List, [], ◌∷◌, arith, Bytes, Result, ok, err, if◌then◌else◌,
  ltb, ltb→lt, lt→ltb, length, take, filter, All, All-filter, All-take, All-mono, All-zip,
  Bool-cases, bytes_equal, bytes_equal_iff, bytes_equal_refl, inl, inr,
}
use fproto.Message.{len_of, bytes_of}
use fproto.Sql.{DbError, unavailable, Outcome, done, refused, lost}
use fproto.Inbox.{
  Entry, Table, order_by_time, insert_by_time, of_user, is_row_of, later_than, time_of,
}
use fproto.Inbox.Laws.{IsUnique, rows_of}
use fproto.Sync.Offline.{
  SyncResult, get_missed_messages, get_undelivered, get_missed_messages-first_page, first_page,
  missed,
}

pub data PageError : Type 0 where
  page_failed : DbError → PageError
  callback_failed : PageError

-- The answer of the loop, and the pages that the callback was given, in order.
abbrev pub Run : Type 0
Run = Result PageError (Unit {0}) × List (List Entry)

abbrev pub last_id : Entry → List Entry → Bytes
last_id e [] = e.message_id
last_id e (f ∷ fs) = last_id f fs

abbrev pub with_page : List Entry → Option Run → Option Run
with_page p none = none
with_page p (some (r, ps)) = some (r, p ∷ ps)

-- One turn, from the page on; `rest` is the loop from a cursor on.
abbrev pub turn :
    (List Entry → Bool) → Result DbError (List Entry × Bool) → (Bytes → Option Run) → Option Run
turn takes (err e) rest = some (err (page_failed e), [])
turn takes (ok ([], more)) rest = some (ok tt, [])
turn takes (ok (e ∷ es, more)) rest =
    let later = rest (last_id e es) in
    if takes (e ∷ es)
    then (if more then with_page (e ∷ es) later else some (ok tt, (e ∷ es) ∷ []))
    else some (err callback_failed, (e ∷ es) ∷ [])

abbrev pub parts : Result DbError SyncResult → Result DbError (List Entry × Bool)
parts (ok r) = ok (r.messages, r.has_more)
parts (err e) = err e

-- The loop on fuel: `none` where it runs out. `outcomes` are those of the queries, in order.
unfoldable pub paginate :
    (ℕ → Outcome) → (List Entry → Bool) → ℕ → Bytes → Table → ℕ → ℕ → Option Bytes → Option Run
paginate outcomes takes size user t zero k cursor = none
paginate outcomes takes size user t (suc fuel) k cursor =
    turn takes (parts (get_missed_messages (outcomes k) size user cursor t))
      (λ id. paginate outcomes takes size user t fuel (k + 1) (some id))

unfoldable pub get_missed_messages_paginated :
    (ℕ → Outcome) → (List Entry → Bool) → ℕ → Bytes → Option Bytes → Table → ℕ → Option Run
get_missed_messages_paginated outcomes takes size user last t fuel =
    paginate outcomes takes size user t fuel 0 last
