-- ===== src/Sync/Paging/Newer.antt =====
-- The rows of a user that are newer than a cursor (server/internal/sync/offline.go): each page ends at
-- a row than which fewer rows are newer.
use mathlib.Core.List.{Memᴰ}
use fproto.Base.{
  ℕ, ◌≤◌, ◌<◌, ◌≡◌, refl, sym, ap, subst, Bool, true, false, ◌&&◌, ◌==◌, Option, none, some, List,
  [], ◌∷◌, arith, Bytes, if◌then◌else◌, ltb, length, take, filter, All, All-filter, All-take,
  All-mono, All-zip, Bool-cases, bytes_equal_refl, inl, inr,
}
use fproto.Message.{len_of}
use fproto.Inbox.{
  Entry, Table, order_by_time, insert_by_time, of_user, is_row_of, later_than, time_of,
}
use fproto.Inbox.Laws.{IsUnique, rows_of}
use fproto.Sync.Offline.{missed}
use fproto.Sync.Paging.{last_id}

-- How many pass the weaker and the stronger of two tests.
count_le :
    (p q : Entry → Bool) (xs : List Entry)
    → ((x : Entry) → p x ≡ true → q x ≡ true)
    → length (filter p xs) ≤ length (filter q xs)
count_le p q [] h = omega arith
count_le p q (x ∷ xs) h = ground (arith, count_le p q xs h, h x)

count_smaller :
    (p q : Entry → Bool) (e : Entry) (xs : List Entry)
    → ((x : Entry) → p x ≡ true → q x ≡ true)
    → Memᴰ e xs
    → q e ≡ true
    → p e ≡ false
    → length (filter p xs) < length (filter q xs)
count_smaller p q e [] h m hq hp = elim m [ ]
count_smaller p q e (x ∷ xs) h (Memᴰ.head s) hq hp =
    let qx : q x ≡ true = subst (λ z. q z ≡ true) s hq in
    let px : p x ≡ false = subst (λ z. p z ≡ false) s hp in ground (arith, count_le p q xs h)
count_smaller p q e (x ∷ xs) h (Memᴰ.tail m) hq hp =
    ground (arith, count_smaller p q e xs h m hq hp, h x)

-- Members stay members in a longer list.
pub All-Mem : (xs : List Entry) → All (λ e. Memᴰ e xs) xs
All-Mem [] = tt
All-Mem (x ∷ xs) = (
  Memᴰ.head refl,
  All-mono (λ e. Memᴰ e xs) (λ e. Memᴰ e (x ∷ xs)) (λ e m. Memᴰ.tail m) xs (All-Mem xs),
)

passed : (p : Entry → Bool) (xs : List Entry) → All (λ e. p e ≡ true) (filter p xs)
passed p [] = tt
passed p (x ∷ xs) = elim (Bool-cases (p x)) [
  | inl h ↦ rw h (h, passed p xs)
  | inr h ↦ rw h (passed p xs)
]

module _ {ℓ} (P : Entry → Type ℓ) where
  insert_by_time-All : (r : Entry) (xs : List Entry) → P r → All P xs → All P (insert_by_time r xs)
  unfolding insert_by_time
  insert_by_time-All r [] p h = (p, tt)
  insert_by_time-All r (x ∷ xs) p h =
      elim (ltb x.created_at r.created_at)
        as (λ b. All P (if b then x ∷ insert_by_time r xs else r ∷ x ∷ xs)) [
          | true ↦ (h.0, insert_by_time-All r xs p h.1)
          | false ↦ (p, h)
        ]

  order_by_time-All : (xs : List Entry) → All P xs → All P (order_by_time xs)
  unfolding order_by_time
  order_by_time-All [] h = tt
  order_by_time-All (x ∷ xs) h =
      insert_by_time-All x (order_by_time xs) h.0 (order_by_time-All xs h.1)

  pub last_of :
      (e : Entry) (es : List Entry)
      → All P (e ∷ es)
      → (x : Entry) × (last_id e es ≡ x.message_id) × P x
  last_of e [] h = (e, refl, h.0)
  last_of e (f ∷ fs) h = last_of f fs h.1

-- A user's row that is in the table is the one whose time the subquery gives.
time_of-Mem :
    (u m : Bytes) (e : Entry) (rows : List Entry)
    → length (filter (is_row_of u m) rows) ≤ 1
    → Memᴰ e rows
    → is_row_of u m e ≡ true
    → time_of u m rows ≡ some e.created_at
unfolding time_of
time_of-Mem u m e [] h i same = elim i [ ]
time_of-Mem u m e (x ∷ xs) h (Memᴰ.head s) same =
    rw (subst (λ z. is_row_of u m z ≡ true) s same) (ap (λ z. some z.created_at) (sym s))
time_of-Mem u m e (x ∷ xs) h (Memᴰ.tail i) same = elim (Bool-cases (is_row_of u m x)) [
  | inr g ↦ rw g (time_of-Mem u m e xs (ground arith) i same)
  | inl g ↦
      let two : 0 < length (filter (is_row_of u m) xs) =
        omega (arith, count_smaller (λ x. false) (is_row_of u m) e xs (λ x q. cc) i same refl) in
      absurd (ground arith)
]

pub All-at {ℓ} : (P : Entry → Type ℓ) (e : Entry) (xs : List Entry) → All P xs → Memᴰ e xs → P e
All-at P e [] h m = elim m [ ]
All-at P e (x ∷ xs) h (Memᴰ.head q) = subst P (sym q) h.0
All-at P e (x ∷ xs) h (Memᴰ.tail m) = All-at P e xs h.1 m

abbrev pub Named : Entry → Type 0
Named e = (length e.message_id == 0) ≡ false

-- The user's rows that the next page is of.
abbrev pub newer : Bytes → Option ℕ → Table → List Entry
newer user c t = filter (λ r. of_user user r && later_than c r) t.rows

module _ (user : Bytes) (t : Table) (unique : IsUnique t) where
  abbrev pub Listed : Option ℕ → Entry → Type 0
  Listed c e = Memᴰ e t.rows × (of_user user e ≡ true) × (later_than c e ≡ true)

  newer-Listed : (c : Option ℕ) → All (Listed c) (newer user c t)
  newer-Listed c =
      All-zip (λ e. Memᴰ e t.rows) (λ e. (of_user user e && later_than c e) ≡ true) (Listed c) both
        (newer user c t)
        (All-filter (λ e. Memᴰ e t.rows) (λ r. of_user user r && later_than c r) t.rows
          (All-Mem t.rows))
        (passed (λ r. of_user user r && later_than c r) t.rows)
    where
      both : (e : Entry) → Memᴰ e t.rows → (of_user user e && later_than c e) ≡ true → Listed c e
      both e m h = (m, ground arith, ground arith)

  -- Fewer rows are newer than a row that is itself newer.
  newer_fewer :
      (c : Option ℕ) (e : Entry)
      → Listed c e
      → length (newer user (time_of user e.message_id t.rows) t) < length (newer user c t)
  unfolding is_row_of
  newer_fewer c e (m, u, l) =
      let same : time_of user e.message_id t.rows ≡ some e.created_at =
        time_of-Mem user e.message_id e t.rows (unfold rows_of in unique user e.message_id) m
          (ground (arith, bytes_equal_refl e.message_id)) in
      rw same (
        count_smaller (λ r. of_user user r && later_than (some e.created_at) r)
          (λ r. of_user user r && later_than c r) e t.rows (later c l) m (rw (u, l) refl)
          (ground arith))
    where
      later :
          (c : Option ℕ)
          → later_than c e ≡ true
          → (x : Entry) → (of_user user x && later_than (some e.created_at) x) ≡ true
          → (of_user user x && later_than c x) ≡ true
      later none k x h = absurd cc
      later (some n) k x h = ground arith

  -- The last row of a page, and that fewer rows are newer than it.
  unfoldable pub Reaches : Option ℕ → Bytes → Type 0
  Reaches c id =
      (x : Entry) × (id ≡ x.message_id)
      × Memᴰ x t.rows
      × (length (newer user (time_of user x.message_id t.rows) t) < length (newer user c t))

  pub page-Reaches :
      (c : Option ℕ) (size : ℕ) (e : Entry) (es : List Entry)
      → e ∷ es ≡ take size (order_by_time (newer user c t))
      → Reaches c (last_id e es)
  unfolding Reaches
  page-Reaches c size e es h =
      let (x, q, l) = last_of (Listed c) e es (
        subst (All (Listed c)) (sym h) (
          All-take (Listed c) size (order_by_time (newer user c t))
            (order_by_time-All (Listed c) (newer user c t) (newer-Listed c)))) in
      (x, q, l.0, newer_fewer c x l)

pub filter_le : (p : Entry → Bool) (xs : List Entry) → length (filter p xs) ≤ length xs
filter_le p [] = omega arith
filter_le p (x ∷ xs) = ground (arith, filter_le p xs)

pub missed-Mem :
    (user : Bytes) (last : Option Bytes) (t : Table) → All (λ e. Memᴰ e t.rows) (missed user last t)
unfolding missed
missed-Mem user last t = elim (Bool-cases (len_of last == 0)) [
  | inl g ↦ rw g (order_by_time-All P _ (All-filter P _ t.rows (All-Mem t.rows)))
  | inr g ↦ rw g (order_by_time-All P _ (All-filter P _ t.rows (All-Mem t.rows)))
]
  where
    P : Entry → Type 0
    P e = Memᴰ e t.rows
