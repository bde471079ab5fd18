-- ===== src/Sync/Offline.antt =====
-- server/internal/sync/offline.go: one page of missed messages.
use fproto.Base.{
  ℕ, zero, suc, ◌+◌, ◌≤◌, ◌≡◌, refl, ap, subst, Bool, true, not, ◌&&◌, ◌==◌, Option, List, [], ◌∷◌,
  arith, Bytes, Result, ok, err, if◌then◌else◌, ltb, length, take, filter, length-take, take_all,
  Bool-cases, inl, inr,
}
use fproto.Message.{len_of, bytes_of}
use fproto.Sql.{DbError, Outcome, done}
use fproto.Inbox
use fproto.Inbox.{
  Entry, Table, order_by_time, of_user, select_after, select_undelivered, later_than, time_of,
}

abbrev pub default_page_size : ℕ
default_page_size = 100

pub record SyncResult : Type 0 where
  pub messages : List Entry
  pub has_more : Bool

-- One more entry than the page was asked for: whether it came, and the page without it.
unfoldable pub page : ℕ → List Entry → SyncResult
page size entries = record {
  messages = if ltb size (length entries) then take size entries else entries;
  has_more = ltb size (length entries);
}

abbrev paged : ℕ → Result DbError (List Entry) → Result DbError SyncResult
paged size (ok entries) = ok (page size entries)
paged size (err e) = err e

unfoldable pub get_undelivered : Outcome → ℕ → Bytes → Table → Result DbError SyncResult
get_undelivered o size user t = paged size (Inbox.get_undelivered o user (size + 1) t)

-- GetMissedMessages.
unfoldable pub get_missed_messages :
    Outcome → ℕ → Bytes → Option Bytes → Table → Result DbError SyncResult
get_missed_messages o size user last t =
    if len_of last == 0
    then get_undelivered o size user t
    else paged size (Inbox.get_after_message_id o user (bytes_of last) (size + 1) t)

take-take : (n : ℕ) (xs : List Entry) → take n (take (suc n) xs) ≡ take n xs
take-take zero xs = refl
take-take (suc n) [] = refl
take-take (suc n) (x ∷ xs) = ap (◌∷◌ x) (take-take n xs)

-- A page of all the entries that there are.
abbrev pub first_page : ℕ → List Entry → SyncResult
first_page size all = record { messages = take size all; has_more = ltb size (length all) }

page-first_page :
    (size : ℕ) (all : List Entry) → page size (take (suc size) all) ≡ first_page size all
unfolding page
page-first_page size all = elim (Bool-cases (ltb size (length all))) [
  | inl more ↦
      let cut : ltb size (length (take (suc size) all)) ≡ true =
        ground (arith, length-take (suc size) all) in
      rw (cut, more, take-take size all) refl
  | inr last ↦
      let short : length all ≤ size = ground arith in
      rw (take_all (suc size) all (omega arith), last, take_all size all short) refl
]

page_of_one_more :
    (size : ℕ) (all : List Entry) → page size (take (size + 1) all) ≡ first_page size all
page_of_one_more size all =
    subst (λ n. page size (take n all) ≡ first_page size all) {x = suc size} (omega arith)
      (page-first_page size all)

-- All the entries that the user has missed, oldest first: with no last message the undelivered ones, and
-- otherwise those created after the last message.
unfoldable pub missed : Bytes → Option Bytes → Table → List Entry
missed user last t =
    if len_of last == 0
    then order_by_time (filter (λ r. of_user user r && not r.delivered) t.rows)
    else order_by_time
        (filter (λ r. of_user user r && later_than (time_of user (bytes_of last) t.rows) r) t.rows)

-- When PostgreSQL answers, the messages returned are the oldest of all that the user has missed, as
-- many as a page holds, and more are announced exactly when there are more.
pub get_missed_messages-first_page :
    (size : ℕ) (user : Bytes) (last : Option Bytes) (t : Table)
    → get_missed_messages done size user last t ≡ ok (first_page size (missed user last t))
unfolding get_missed_messages get_undelivered select_undelivered select_after missed
get_missed_messages-first_page size user last t = elim (Bool-cases (len_of last == 0)) [
  | inl none_seen ↦ rw none_seen (ap ok (page_of_one_more size _))
  | inr seen ↦ rw seen (ap ok (page_of_one_more size _))
]
