-- ===== src/Inbox/Laws.antt =====
-- The inbox holds one row for each user and message, and an insert that succeeds leaves its row.
use fproto.Base.{
  ◌≤◌, ◌≡◌, refl, sym, ap, ◌∙◌, subst, inl, inr, Bool, true, false, Option, none, some, List, [],
  ◌∷◌, ◌++◌, arith, Bytes, ok, err, if◌then◌else◌, bytes_equal_iff, bytes_equal_refl, filter, any,
  length, Option-cases, Bool-cases,
}
use mathlib.Core.Option.{some-injective}
use mathlib.Core.List.{append-nil}
use fproto.Sql.{violation, Outcome, done, refused, lost}
use fproto.Inbox.{
  Entry, Table, NewEntry, columns, row_of, is_row_of, holds, drawn, add_row, insert_row, insert,
}

any-append_last :
    (p : Entry → Bool) (xs : List Entry) (r : Entry) → p r ≡ true → any p (xs ++ r ∷ []) ≡ true
any-append_last p [] r h = rw h
any-append_last p (x ∷ xs) r h = ground (arith, any-append_last p xs r h)

any-append_mono :
    (p : Entry → Bool) (xs : List Entry) (r : Entry) → any p xs ≡ true → any p (xs ++ r ∷ []) ≡ true
any-append_mono p [] r h = cc
any-append_mono p (x ∷ xs) r h = ground (arith, any-append_mono p xs r)

is_row_of_self : (r : Entry) → is_row_of r.user_id r.message_id r ≡ true
unfolding is_row_of
is_row_of_self r = rw (bytes_equal_refl r.user_id, bytes_equal_refl r.message_id)

-- After add_row the table holds the row's user and message, and all that it held.
add_row-holds : (r : Entry) (t : Table) → holds r.user_id r.message_id (add_row r t).1 ≡ true
add_row-holds r t = elim (Bool-cases (holds r.user_id r.message_id t)) [
  | inl h ↦ unfold add_row in rw (h, add_row) (unfold holds in h)
  | inr h ↦
      unfold add_row in
      rw (h, add_row) (unfold holds in any-append_last _ t.rows r (is_row_of_self r))
]

columns-same :
    (e : NewEntry) (t : Table) (u m s p : Option Bytes) {r : Entry}
    → columns e t u m s p ≡ some r
    → (u ≡ some r.user_id) × (m ≡ some r.message_id)
unfolding columns
columns-same e t u m s p h = ground arith

row_of-same :
    (e : NewEntry) (t : Table) (r : Entry)
    → row_of e t ≡ some r
    → (e.user_id ≡ some r.user_id) × (e.message_id ≡ some r.message_id)
unfolding row_of
row_of-same e t r h = columns-same e t e.user_id e.message_id e.sender_id e.payload h

pub insert_row_of_null :
    (e : NewEntry) (t : Table) → row_of e t ≡ none → insert_row e t ≡ (err violation, drawn t)
unfolding insert_row
insert_row_of_null e t q = rw (q, insert_row)

insert_row_at_some :
    (e : NewEntry) (t : Table) (r : Entry) → row_of e t ≡ some r → insert_row e t ≡ add_row r t
unfolding insert_row
insert_row_at_some e t r q = rw (q, insert_row)

insert_row-holds :
    (e : NewEntry) (t : Table) (u m : Bytes)
    → e.user_id ≡ some u
    → e.message_id ≡ some m
    → (insert_row e t).0 ≡ ok tt
    → holds u m (insert_row e t).1 ≡ true
insert_row-holds e t u m hu hm h = elim (Option-cases (row_of e t)) [
  | inl q ↦ cc (ap (λ a. a.0) (insert_row_of_null e t q), h)
  | inr (r, q) ↦
      let (su, sm) = row_of-same e t r q in
      let eu : r.user_id ≡ u = some-injective _ _ (sym su ∙ hu) in
      let em : r.message_id ≡ m = some-injective _ _ (sym sm ∙ hm) in
      subst (λ a. holds u m a.1 ≡ true) (sym (insert_row_at_some e t r q))
        (subst (λ z. holds z m (add_row r t).1 ≡ true) eu
          (subst (λ z. holds r.user_id z (add_row r t).1 ≡ true) em (add_row-holds r t)))
]

-- An insert that reports success leaves a row of its user and message in the inbox.
pub insert-holds :
    (o : Outcome) (e : NewEntry) (t : Table) (u m : Bytes)
    → e.user_id ≡ some u
    → e.message_id ≡ some m
    → (insert o e t).0 ≡ ok tt
    → holds u m (insert o e t).1 ≡ true
insert-holds done e t u m hu hm h = insert_row-holds e t u m hu hm h
insert-holds refused e t u m hu hm h = cc
insert-holds lost e t u m hu hm h = cc

-- The rows of a user and a message.
unfoldable pub rows_of : Bytes → Bytes → Table → List Entry
rows_of u m t = filter (is_row_of u m) t.rows

abbrev pub IsUnique : Table → Type 0
IsUnique t = (u m : Bytes) → length (rows_of u m t) ≤ 1

none_of_any : (p : Entry → Bool) (xs : List Entry) → any p xs ≡ false → filter p xs ≡ []
none_of_any p [] h = refl
none_of_any p (x ∷ xs) h = ground (arith, none_of_any p xs)

filter-append_last :
    (p : Entry → Bool) (xs : List Entry) (r : Entry)
    → filter p (xs ++ r ∷ []) ≡ filter p xs ++ (if p r then r ∷ [] else [])
filter-append_last p [] r = refl
filter-append_last p (x ∷ xs) r = ground (arith, filter-append_last p xs r)

is_row_of_same :
    (u m : Bytes) (r : Entry) → is_row_of u m r ≡ true → (r.user_id ≡ u) × (r.message_id ≡ m)
unfolding is_row_of
is_row_of_same u m r h = ground (arith, bytes_equal_iff r.user_id u, bytes_equal_iff r.message_id m)

-- A row whose user and message the table lacks is the only one of them.
only_one :
    (u m : Bytes) (t : Table) (r : Entry)
    → holds r.user_id r.message_id t ≡ false
    → is_row_of u m r ≡ true
    → filter (is_row_of u m) t.rows ≡ []
unfolding holds
only_one u m t r h same =
    let (eu, em) = is_row_of_same u m r same in
    none_of_any (is_row_of u m) t.rows (
      subst (λ z. any (is_row_of z m) t.rows ≡ false) eu
        (subst (λ z. any (is_row_of r.user_id z) t.rows ≡ false) em h))

one_more :
    (u m : Bytes) (t : Table) (r : Entry)
    → holds r.user_id r.message_id t ≡ false
    → length (rows_of u m t) ≤ 1
    → length (filter (is_row_of u m) (t.rows ++ r ∷ [])) ≤ 1
unfolding rows_of
one_more u m t r h k = elim (Bool-cases (is_row_of u m r)) [
  | inl same ↦
      rw (filter-append_last (is_row_of u m) t.rows r, only_one u m t r h same, same) (omega arith)
  | inr differs ↦
      rw
        (
          filter-append_last (is_row_of u m) t.rows r,
          differs,
          append-nil (filter (is_row_of u m) t.rows),
        )
        k
]

add_row-IsUnique : (r : Entry) (t : Table) → IsUnique t → IsUnique (add_row r t).1
add_row-IsUnique r t v u m = elim (Bool-cases (holds r.user_id r.message_id t)) [
  | inl h ↦ unfold add_row in rw (h, add_row) (unfold rows_of in v u m)
  | inr h ↦ unfold add_row in rw (h, add_row) (unfold rows_of in one_more u m t r h (v u m))
]

insert_row-IsUnique : (e : NewEntry) (t : Table) → IsUnique t → IsUnique (insert_row e t).1
insert_row-IsUnique e t v u m = elim (Option-cases (row_of e t)) [
  | inl q ↦
      subst (λ a. length (rows_of u m a.1) ≤ 1) (sym (insert_row_of_null e t q))
        (unfold rows_of in v u m)
  | inr (r, q) ↦
      subst (λ a. length (rows_of u m a.1) ≤ 1) (sym (insert_row_at_some e t r q))
        (add_row-IsUnique r t v u m)
]

pub insert-IsUnique :
    (o : Outcome) (e : NewEntry) (t : Table) → IsUnique t → IsUnique (insert o e t).1
insert-IsUnique done e t v = insert_row-IsUnique e t v
insert-IsUnique refused e t v = v
insert-IsUnique lost e t v = insert_row-IsUnique e t v
