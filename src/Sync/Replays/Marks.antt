-- ===== src/Sync/Replays/Marks.antt =====
-- The marks that the sync handler (server/internal/sync) leaves in Redis, and what it does to a record
-- whose mark is set.
use mathlib.Core.Bool.{true≢false}
use fproto.Base.{
  ◌<◌, arith, ℕ, ◌≡◌, ◌≢◌, refl, sym, ap, ◌∙◌, subst, inl, inr, Bool, true, false, Option, none,
  some, Bytes, Result, ok, err, if◌then◌else◌, bytes_equal, bytes_equal_refl, Bool-cases,
}
use fproto.Message.{AppMessage}
use fproto.Sql.{DbError, Outcome}
use fproto.Inbox
use fproto.Inbox.{Table}
use fproto.Sync.Dedup.{
  RedisError, Sets, sets, keeps, fails, dedup_ttl, has, mark, mark-SetsOnce, SetsOnce, fresh,
  present, failing, dedup_key, is_duplicate, negated,
}
use fproto.Sync.Handler.{
  ConsumerMessage, Env, World, pushed, after_insert, entry_of, after_dedup, with_recipient,
  with_message, handle, extract_recipient_id,
}

module _ (env : Env) where
  open env use {redis, unmarshal, scan_hex, push_client}

  -- The record needs no more work: it does not decode, is for no user, or its mark is set.
  abbrev pub IsMarked : redis.Db → AppMessage → Option Bytes → Type 0
  IsMarked d m none = Unit
  IsMarked d m (some u) = has redis d (dedup_key u m.message_id) ≡ true

  abbrev pub IsSettled : redis.Db → ConsumerMessage → Option AppMessage → Type 0
  IsSettled d msg none = Unit
  IsSettled d msg (some m) = IsMarked d m (extract_recipient_id scan_hex m.body msg.topic)

  abbrev pub Settled : redis.Db → ConsumerMessage → Type 0
  Settled d msg = IsSettled d msg (unmarshal msg.value)

  abbrev pub Keeps : redis.Db → redis.Db → Type 0
  Keeps d d' = (j : Bytes) → has redis d j ≡ true → has redis d' j ≡ true

  -- SET NX removes no key.
  set_nx-Keeps :
      (d : redis.Db) (k : Bytes) {a : Result RedisError Bool × redis.Db}
      → SetsOnce (has redis) d k a
      → Keeps d a.1
  set_nx-Keeps d k (fresh d' absent same) j h =
      same j ∙ elim (bytes_equal k j) as (λ b. (if b then true else has redis d j) ≡ true) [
        | true ↦ refl
        | false ↦ h
      ]
  set_nx-Keeps d k (present d' there same) j h = same j ∙ h
  set_nx-Keeps d k (failing d' e same) j h = same j h

  -- Every mark has more time left than some.
  abbrev pub Lasts : ℕ → redis.Db → Type 0
  Lasts b d = (j : Bytes) → has redis d j ≡ true → b < redis.left d j

  set_nx-Lasts :
      (b : ℕ) (d : redis.Db) (k : Bytes) {a : Result RedisError Bool × redis.Db}
      → b < dedup_ttl
      → Sets redis.left dedup_ttl d k a
      → Lasts b d
      → Lasts b a.1
  set_nx-Lasts b d k h (sets d' new same) l j g =
      let e = same j in let f = l j in ground (arith, e, f, g, h)
  set_nx-Lasts b d k h (keeps d' there same) l j g =
      let e = same j in let f = l j in ground (arith, e, f, g, h)
  set_nx-Lasts b d k h (fails d' x set same) l j g =
      let e = same j in let f = l j in ground (arith, e, f, g, h)

  after_insert-db :
      (u : Bytes) (m : AppMessage) (w : World redis.Db) (r : Result DbError (Unit {0}) × Table)
      → (after_insert env u m w r).1.db ≡ w.db
  unfolding after_insert pushed
  after_insert-db u m w (err e, t) = refl
  after_insert-db u m w (ok x, t) = elim (Bool-cases push_client) [
    | inl g ↦ rw g refl
    | inr g ↦ rw g refl
  ]

  after_dedup-db :
      (o : Outcome) (msg : ConsumerMessage) (u : Bytes) (m : AppMessage) (w : World redis.Db)
      (r : Result RedisError Bool) (d : redis.Db)
      → (after_dedup env o msg u m w (r, d)).1.db ≡ d
  unfolding after_dedup
  after_dedup-db o msg u m w (err e) d = refl
  after_dedup-db o msg u m w (ok true) d = refl
  after_dedup-db o msg u m w (ok false) d =
      after_insert-db u m (record w { db = d }) (Inbox.insert o (entry_of env msg u m) w.inbox)

  -- The parts of the world that a user can see.
  abbrev pub Same : World redis.Db → World redis.Db → Type 0
  Same w w' = (w'.inbox ≡ w.inbox) × (w'.pushes ≡ w.pushes)

  module _
      (answers : (d : redis.Db) (k : Bytes) (e : RedisError) → (mark redis d k).0 ≢ err e) where
    -- What SET NX leaves where Redis answers: the key is there.
    set_nx-has :
        (d : redis.Db) (k : Bytes) (a : Result RedisError Bool × redis.Db)
        → mark redis d k ≡ a
        → SetsOnce (has redis) d k a
        → has redis a.1 k ≡ true
    set_nx-has d k (_, _) q (fresh d' absent same) = same k ∙ rw (bytes_equal_refl k) refl
    set_nx-has d k (_, _) q (present d' there same) = same k ∙ there
    set_nx-has d k (_, _) q (failing d' e same) = absurd (answers d k e (ap (λ a. a.0) q))

    -- What SET NX answers for a key that is there.
    set_nx-present :
        (d : redis.Db) (k : Bytes) (a : Result RedisError Bool × redis.Db)
        → mark redis d k ≡ a
        → SetsOnce (has redis) d k a
        → has redis d k ≡ true
        → a.0 ≡ ok false
    set_nx-present d k (_, _) q (fresh d' absent same) h = absurd (true≢false (sym h ∙ absent))
    set_nx-present d k (_, _) q (present d' there same) h = refl
    set_nx-present d k (_, _) q (failing d' e same) h = absurd (answers d k e (ap (λ a. a.0) q))

    -- Handling a record: it is settled afterwards, the keys stay, and if it was settled before, a user
    -- sees no difference.
    abbrev pub Handled : ConsumerMessage → World redis.Db → World redis.Db → Type 0
    Handled msg w w' =
        Settled w'.db msg
        × Keeps w.db w'.db
        × (Settled w.db msg → Same w w')
        × ((b : ℕ) → b < dedup_ttl → Lasts b w.db → Lasts b w'.db)

    with_recipient-Handled :
        (o : Outcome) (msg : ConsumerMessage) (m : AppMessage) (u : Option Bytes)
        (w : World redis.Db)
        → let w' : World redis.Db = (with_recipient env o msg m u w).1 in
          IsMarked w'.db m u
          × Keeps w.db w'.db
          × (IsMarked w.db m u → Same w w')
          × ((b : ℕ) → b < dedup_ttl → Lasts b w.db → Lasts b w'.db)
    unfolding with_recipient is_duplicate after_dedup
    with_recipient-Handled o msg m none w = (tt, (λ j h. h), (λ h. (refl, refl)), (λ b q l. l))
    with_recipient-Handled o msg m (some u) w =
        let k : Bytes = dedup_key u m.message_id in
        let d : redis.Db = (mark redis w.db k).1 in
        let e : (with_recipient env o msg m (some u) w).1.db ≡ d =
          after_dedup-db o msg u m w (negated (mark redis w.db k).0) d in
        (
          subst (λ x. has redis x k ≡ true) (sym e)
              (set_nx-has w.db k (mark redis w.db k) refl (mark-SetsOnce redis w.db k)),
          subst (Keeps w.db) (sym e) (set_nx-Keeps w.db k (mark-SetsOnce redis w.db k)),
          (λ h.
              rw (set_nx-present w.db k (mark redis w.db k) refl (mark-SetsOnce redis w.db k) h)
                (refl, refl)),
          (λ b q l.
              subst (Lasts b) (sym e)
                (set_nx-Lasts b w.db k q (redis.set_nx-Sets w.db k dedup_ttl) l)),
        )

    with_message-Handled :
        (o : Outcome) (msg : ConsumerMessage) (m : Option AppMessage) (w : World redis.Db)
        → let w' : World redis.Db = (with_message env o msg m w).1 in
          IsSettled w'.db msg m
          × Keeps w.db w'.db
          × (IsSettled w.db msg m → Same w w')
          × ((b : ℕ) → b < dedup_ttl → Lasts b w.db → Lasts b w'.db)
    unfolding with_message
    with_message-Handled o msg none w = (tt, (λ j h. h), (λ h. (refl, refl)), (λ b q l. l))
    with_message-Handled o msg (some m) w =
        with_recipient-Handled o msg m (extract_recipient_id scan_hex m.body msg.topic) w

    pub handle-Handled :
        (o : Outcome) (msg : ConsumerMessage) (w : World redis.Db)
        → Handled msg w (handle env o msg w).1
    unfolding handle
    handle-Handled o msg w = with_message-Handled o msg (unmarshal msg.value) w

    pub Settled-Keeps :
        (d d' : redis.Db) (msg : ConsumerMessage) → Keeps d d' → Settled d msg → Settled d' msg
    Settled-Keeps d d' msg k = kept (unmarshal msg.value)
      where
        known : (m : AppMessage) (u : Option Bytes) → IsMarked d m u → IsMarked d' m u
        known m none h = tt
        known m (some u) h = k (dedup_key u m.message_id) h

        kept : (m : Option AppMessage) → IsSettled d msg m → IsSettled d' msg m
        kept none h = tt
        kept (some m) h = known m (extract_recipient_id scan_hex m.body msg.topic) h
