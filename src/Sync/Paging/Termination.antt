-- ===== src/Sync/Paging/Termination.antt =====
-- The loop of GetMissedMessagesPaginated (server/internal/sync/offline.go) ends.
use mathlib.Core.List.{Memᴰ}
use fproto.Base.{
  ℕ, zero, suc, ◌+◌, ◌≤◌, ◌≡◌, ◌≢◌, refl, sym, ap, ◌∙◌, subst, Bool, true, false, ◌==◌, Option,
  some, List, [], ◌∷◌, arith, Bytes, Result, ok, err, if◌then◌else◌, length, take, All, All-take,
  Bool-cases, inl, inr,
}
use fproto.Message.{len_of}
use fproto.Sql.{DbError, unavailable, Outcome, done, refused, lost}
use fproto.Inbox.{Entry, Table, order_by_time, time_of}
use fproto.Inbox.Laws.{IsUnique}
use fproto.Sync.Offline.{
  SyncResult, get_missed_messages, get_undelivered, get_missed_messages-first_page, first_page,
  missed,
}
use fproto.Sync.Paging.{
  callback_failed, Run, last_id, with_page, turn, parts, paginate, get_missed_messages_paginated,
}
use fproto.Sync.Paging.Newer.{
  last_of, filter_le, missed-Mem, All-at, page-Reaches, newer, Reaches, Named,
}

abbrev pub Ends : Option Run → Type 0
Ends o = (r : Run) × (o ≡ some r)

with_page-Ends : (p : List Entry) (o : Option Run) → Ends o → Ends (with_page p o)
with_page-Ends p o ((r, ps), h) = ((r, p ∷ ps), rw h refl)

turn-Ends :
    (takes : List Entry → Bool) (page : Result DbError (List Entry × Bool))
    (rest : Bytes → Option Run)
    → ((e : Entry) (es : List Entry) (more : Bool)
        → page ≡ ok (e ∷ es, more)
        → Ends (rest (last_id e es)))
    → Ends (turn takes page rest)
turn-Ends takes (err e) rest h = (_, refl)
turn-Ends takes (ok ([], more)) rest h = (_, refl)
turn-Ends takes (ok (e ∷ es, more)) rest h =
    elim (takes (e ∷ es))
      as (λ b. Ends (
        if b
        then (if more
            then with_page (e ∷ es) (rest (last_id e es))
            else some (ok tt, (e ∷ es) ∷ []))
        else some (err callback_failed, (e ∷ es) ∷ []))) [
          | false ↦ (_, refl)
          | true ↦
              elim more
                as (λ m. Ends (
                  if m
                  then with_page (e ∷ es) (rest (last_id e es))
                  else some (ok tt, (e ∷ es) ∷ []))) [
                    | true ↦ with_page-Ends (e ∷ es) (rest (last_id e es)) (h e es more refl)
                    | false ↦ (_, refl)
                  ]
        ]

query_unanswered :
    (o : Outcome) (size : ℕ) (user : Bytes) (cursor : Option Bytes) (t : Table)
    → o ≢ done
    → get_missed_messages o size user cursor t ≡ err unavailable
unfolding get_missed_messages get_undelivered
query_unanswered done size user cursor t h = absurd (h refl)
query_unanswered refused size user cursor t h = elim (Bool-cases (len_of cursor == 0)) [
  | inl g ↦ rw g refl
  | inr g ↦ rw g refl
]
query_unanswered lost size user cursor t h = elim (Bool-cases (len_of cursor == 0)) [
  | inl g ↦ rw g refl
  | inr g ↦ rw g refl
]

arrived :
    (r : SyncResult) (ms : List Entry) (more : Bool)
    → parts (ok r) ≡ ok (ms, more)
    → ms ≡ r.messages
arrived r ms more h = cc

not_arrived : (ms : List Entry) (more : Bool) → parts (err unavailable) ≢ ok (ms, more)
not_arrived ms more h = cc

-- A page that arrives holds the oldest of what was missed.
page_of_missed :
    (o : Outcome) (size : ℕ) (user : Bytes) (cursor : Option Bytes) (t : Table) (ms : List Entry)
    (more : Bool)
    → parts (get_missed_messages o size user cursor t) ≡ ok (ms, more)
    → ms ≡ take size (missed user cursor t)
page_of_missed done size user cursor t ms more h =
    let r : SyncResult = first_page size (missed user cursor t) in
    arrived r ms more (sym (ap parts (get_missed_messages-first_page size user cursor t)) ∙ h)
page_of_missed refused size user cursor t ms more h = absurd (
    not_arrived ms more
      (sym (ap parts (query_unanswered refused size user cursor t (λ q. cc))) ∙ h))
page_of_missed lost size user cursor t ms more h =
    absurd (
      not_arrived ms more (sym (ap parts (query_unanswered lost size user cursor t (λ q. cc))) ∙ h))

module _ (user : Bytes) (t : Table) (unique : IsUnique t) where
  module _ (outcomes : ℕ → Outcome) (takes : List Entry → Bool) (size : ℕ)
      (named : All Named t.rows) where
    missed_after :
        (id : Bytes)
        → (length id == 0) ≡ false
        → missed user (some id) t ≡ order_by_time (newer user (time_of user id t.rows) t)
    unfolding missed
    missed_after id h = rw h refl

    -- A turn from a cursor, with what follows from the last row of its page.
    turn_from :
        (k : ℕ) (id : Bytes) (rest : Bytes → Option Run)
        → (length id == 0) ≡ false
        → ((last : Bytes) → Reaches user t unique (time_of user id t.rows) last → Ends (rest last))
        → Ends (turn takes (parts (get_missed_messages (outcomes k) size user (some id) t)) rest)
    turn_from k id rest h f =
        turn-Ends takes (parts (get_missed_messages (outcomes k) size user (some id) t)) rest
          (λ e es more p. f (last_id e es) (
            page-Reaches user t unique (time_of user id t.rows) size e es (
              page_of_missed (outcomes k) size user (some id) t (e ∷ es) more p
              ∙ ap (take size) (missed_after id h))))

    from_cursor :
        (fuel k : ℕ) (id : Bytes)
        → (length id == 0) ≡ false
        → length (newer user (time_of user id t.rows) t) ≤ fuel
        → Ends (paginate outcomes takes size user t (suc fuel) k (some id))
    unfolding paginate Reaches
    from_cursor zero k id h l = turn_from k id _ h (λ last (x, q, m, n). absurd (omega arith))
    from_cursor (suc fuel) k id h l = turn_from k id _ h (λ last (x, q, m, n).
        subst (λ i. Ends (paginate outcomes takes size user t (suc fuel) (k + 1) (some i))) (sym q)
          (from_cursor fuel (k + 1) x.message_id (All-at Named x t.rows named m) (omega arith)))

first_turn :
    (outcomes : ℕ → Outcome) (takes : List Entry → Bool) (size : ℕ) (user : Bytes)
    (last : Option Bytes) (t : Table)
    → IsUnique t
    → All Named t.rows
    → Ends (paginate outcomes takes size user t (suc (suc (length t.rows))) 0 last)
unfolding paginate
first_turn outcomes takes size user last t unique named =
    turn-Ends takes (parts (get_missed_messages (outcomes 0) size user last t)) _ (λ e es more p.
      let (x, q, m) =
        last_of (λ z. Memᴰ z t.rows) e es
          (subst (All (λ z. Memᴰ z t.rows))
            (sym (page_of_missed (outcomes 0) size user last t (e ∷ es) more p))
            (All-take (λ z. Memᴰ z t.rows) size (missed user last t) (missed-Mem user last t))) in
      subst (λ i. Ends (paginate outcomes takes size user t (suc (length t.rows)) (0 + 1) (some i)))
        (sym q)
        (from_cursor user t unique outcomes takes size named (length t.rows) (0 + 1) x.message_id
          (All-at Named x t.rows named m) (filter_le _ t.rows)))

-- On a table with one row at most for a user and a message, whose messages have ids that are not
-- empty, GetMissedMessagesPaginated ends from any last message, for any page size, outcomes of its
-- queries and callback: after two turns more than the table has rows at the latest.
pub paginated_ends :
    (outcomes : ℕ → Outcome) (takes : List Entry → Bool) (size : ℕ) (user : Bytes)
    (last : Option Bytes) (t : Table)
    → IsUnique t
    → All Named t.rows
    → (r : Run) × (get_missed_messages_paginated outcomes takes size user last t (length t.rows + 2)
        ≡ some r)
unfolding get_missed_messages_paginated
paginated_ends outcomes takes size user last t unique named =
    subst (λ f. Ends (paginate outcomes takes size user t f 0 last)) {x = suc (suc (length t.rows))}
      (omega arith) (first_turn outcomes takes size user last t unique named)
