-- ===== src/Outbox/Delivery/Rows.antt =====
-- The rows of the outbox as records to be sent, and what the updates keep of them.
use fproto.Base.{
  ℕ, ◌<◌, ◌≡◌, refl, sym, ◌∙◌, subst, true, false, some, List, [], ◌∷◌, arith, ltb, ◌==◌,
  if◌then◌else◌, All, All-mono, All-zip, All-take, All-filter,
}
use fproto.Kafka.Producer.{Record}
use fproto.Kafka.Topics.{topic_dead_letter}
use fproto.Outbox.Store.{
  Entry, Table, update_row, insert_by_time, order_by_time, select_pending, is_pending,
}

-- The record that publish sends for a row, and the one for the dead-letter topic.
abbrev pub record_of : Entry → Record
record_of e = record { topic = e.topic; key = some e.partition_key; value = e.payload }

abbrev pub dead_record_of : Entry → Record
dead_record_of e = record { topic = topic_dead_letter; key = some e.topic; value = e.payload }

-- The columns that no statement changes agree between a row read earlier and one of the same id.
abbrev pub SameContent : Entry → Entry → Type 0
SameContent e r =
    (r.topic ≡ e.topic) × (r.partition_key ≡ e.partition_key) × (r.payload ≡ e.payload)

abbrev pub Agrees : List Entry → Entry → Type 0
Agrees rows e = All (λ r. (r.id == e.id) ≡ true → SameContent e r) rows

-- The ids increase, below the next one.
abbrev pub Increasing : List Entry → Type 0
Increasing [] = Unit
Increasing (r ∷ rs) = All (λ x. r.id < x.id) rs × Increasing rs

lt-other : (r x : Entry) → r.id < x.id → (x.id == r.id) ≡ true → SameContent r x
lt-other r x lt same = absurd (ground arith)

gt-other : (r x : Entry) → r.id < x.id → (r.id == x.id) ≡ true → SameContent x r
gt-other r x lt same = absurd (ground arith)

pub Agrees-self : (rows : List Entry) → Increasing rows → All (Agrees rows) rows
Agrees-self [] h = tt
Agrees-self (r ∷ rs) h = (
  ((λ _. (refl, refl, refl)), All-mono _ _ (lt-other r) rs h.0),
  All-zip _ _ _ (λ e lt agrees. (gt-other r e lt, agrees)) rs h.0 (Agrees-self rs h.1),
)

module _ (P : Entry → Type 0) where
  pub All-insert_by_time :
      (r : Entry) (xs : List Entry) → P r → All P xs → All P (insert_by_time r xs)
  unfolding insert_by_time
  All-insert_by_time r [] p h = (p, tt)
  All-insert_by_time r (x ∷ xs) p h =
      elim (ltb x.created_at r.created_at)
        as (λ b. All P (if b then x ∷ insert_by_time r xs else r ∷ x ∷ xs)) [
          | true ↦ (h.0, All-insert_by_time r xs p h.1)
          | false ↦ (p, h)
        ]

  pub All-order_by_time : (xs : List Entry) → All P xs → All P (order_by_time xs)
  unfolding order_by_time
  All-order_by_time [] h = tt
  All-order_by_time (x ∷ xs) h =
      All-insert_by_time x (order_by_time xs) h.0 (All-order_by_time xs h.1)

  -- What holds of every row holds of the selected ones.
  pub All-select_pending : (limit : ℕ) (t : Table) → All P t.rows → All P (select_pending limit t)
  unfolding select_pending
  All-select_pending limit t h =
      All-take P limit _ (All-order_by_time _ (All-filter P (λ r. is_pending r.status) t.rows h))

-- An update that keeps what `P` says of a row with the id keeps it of all rows.
pub All-update_row {κ} :
    (P : Entry → Type κ) (Q : Entry → Type κ) (id : ℕ) (f : Entry → Entry) (rows : List Entry)
    → ((r : Entry) → (r.id == id) ≡ true → P r → Q (f r))
    → ((r : Entry) → P r → Q r)
    → All P rows
    → All Q (update_row id f rows)
unfolding update_row
All-update_row P Q id f [] hit miss h = tt
All-update_row P Q id f (r ∷ rs) hit miss h = (
  (elim (r.id == id) as (λ b. (r.id == id) ≡ b → Q (if b then f r else r)) [
    | true ↦ λ e. hit r e h.0
    | false ↦ λ e. miss r h.0
  ])
      refl,
  All-update_row P Q id f rs hit miss h.1,
)

-- The updates change neither ids nor the content.
abbrev pub Keeps : (Entry → Entry) → Type 0
Keeps f = (r : Entry) → ((f r).id ≡ r.id) × SameContent r (f r)

module _ (f : Entry → Entry) (keeps : Keeps f) (id : ℕ) where
  pub Agrees-update_row :
      (rows : List Entry) (e : Entry) → Agrees rows e → Agrees (update_row id f rows) e
  Agrees-update_row rows e h =
      All-update_row Same Same id f rows (λ r _ k same. through r (k (was r same))) (λ r k. k) h
    where
      Same : Entry → Type 0
      Same r = (r.id == e.id) ≡ true → SameContent e r

      was : (r : Entry) → ((f r).id == e.id) ≡ true → (r.id == e.id) ≡ true
      was r same = ground (arith, keeps r)

      through : (r : Entry) → SameContent e r → SameContent e (f r)
      through r k = ((keeps r).1.0 ∙ k.0, (keeps r).1.1 ∙ k.1, (keeps r).1.2 ∙ k.2)

  Below-update_row :
      (n : ℕ) (rows : List Entry)
      → All (λ x. n < x.id) rows
      → All (λ x. n < x.id) (update_row id f rows)
  Below-update_row n rows h =
      All-update_row _ _ id f rows (λ r _ k. subst (λ m. n < m) (sym (keeps r).0) k) (λ r k. k) h

  pub Increasing-update_row :
      (rows : List Entry) → Increasing rows → Increasing (update_row id f rows)
  unfolding update_row
  Increasing-update_row [] h = tt
  Increasing-update_row (r ∷ rs) h =
      elim (r.id == id) as (λ b. Increasing ((if b then f r else r) ∷ update_row id f rs)) [
        | true ↦ (
          subst (λ m. All (λ x. m < x.id) (update_row id f rs)) (sym (keeps r).0)
              (Below-update_row r.id rs h.0),
          Increasing-update_row rs h.1,
        )
        | false ↦ (Below-update_row r.id rs h.0, Increasing-update_row rs h.1)
      ]

  pub Above-update_row :
      (n : ℕ) (rows : List Entry)
      → All (λ x. x.id < n) rows
      → All (λ x. x.id < n) (update_row id f rows)
  Above-update_row n rows h =
      All-update_row _ _ id f rows (λ r _ k. subst (λ m. m < n) (sym (keeps r).0) k) (λ r k. k) h
