-- ===== src/Sync/Handler/Loss.antt =====
-- What a failed insert costs, when the record is delivered again, and what a successful one leaves.
use mathlib.Core.Bool.{true≢false}
use fproto.Base.{
  ℕ, ◌+◌, ◌-◌, ◌<◌, arith, lt→ltb, ◌≡◌, refl, sym, ap, ◌∙◌, subst, inl, inr, Bool, true, false,
  some, List, [], ◌∷◌, Bytes, Result, ok, err, bytes_equal_refl, Bool-cases,
}
use fproto.Message.{AppMessage}
use fproto.Sql.{DbError, unavailable, Outcome, refused}
use fproto.Inbox.{Table, holds}
use fproto.Inbox.Laws.{insert-holds}
use fproto.Sync.Dedup.{
  RedisError, Sets, sets, keeps, fails, dedup_ttl, has, mark-SetsOnce, SetsOnce, fresh, present,
  failing, dedup_key, is_duplicate, negated,
}
use fproto.Sync.Handler.{
  ConsumerMessage, Env, insert_failed, World, waited, pushed, after_insert, entry_of, after_dedup,
  with_recipient, with_message, handle, extract_recipient_id,
}

-- The time that passes before the last of some deliveries.
abbrev pub waits : List (ℕ × Outcome) → ℕ
waits [] = 0
waits ((t, o) ∷ os) = t + waits os

module _ (env : Env) where
  open env use {redis, unmarshal, scan_hex, push_client}

  -- The handler of a record that decodes to a message for a user.
  handled :
      (o : Outcome) (msg : ConsumerMessage) (w : World redis.Db) (m : AppMessage) (u : Bytes)
      → unmarshal msg.value ≡ some m
      → extract_recipient_id scan_hex m.body msg.topic ≡ some u
      → handle env o msg w ≡ after_dedup env o msg u m w (is_duplicate redis w.db u m.message_id)
  unfolding handle with_message with_recipient
  handled o msg w m u hm hu = rw (hm, with_message, hu, with_recipient)

  -- A key that is present keeps its time, and the inbox stays as it is.
  seen_after :
      (o : Outcome) (msg : ConsumerMessage) (w : World redis.Db) (m : AppMessage) (u k : Bytes)
      → {a : Result RedisError Bool × redis.Db} → Sets redis.left dedup_ttl w.db k a
      → has redis w.db k ≡ true
      → let w' = (after_dedup env o msg u m w (negated a.0, a.1)).1 in
        (redis.left w'.db k ≡ redis.left w.db k) × (w'.inbox ≡ w.inbox)
  unfolding after_dedup
  seen_after o msg w m u k (sets d' absent _) h = absurd (true≢false (sym h ∙ absent))
  seen_after o msg w m u k (keeps d' _ same) h = (same k, refl)
  seen_after o msg w m u k (fails d' e set same) h = (let q = same k in ground arith, refl)

  -- After an insert that did not run, the key is there for its whole time, and the inbox is as before.
  refused_after :
      (msg : ConsumerMessage) (w : World redis.Db) (m : AppMessage) (u k : Bytes)
      → {a : Result RedisError Bool × redis.Db} → Sets redis.left dedup_ttl w.db k a
      → (after_dedup env refused msg u m w (negated a.0, a.1)).0 ≡ err (insert_failed unavailable)
      → let w' = (after_dedup env refused msg u m w (negated a.0, a.1)).1 in
        (redis.left w'.db k ≡ dedup_ttl) × (w'.inbox ≡ w.inbox)
  unfolding after_dedup after_insert
  refused_after msg w m u k (sets d' absent same) h = (same k ∙ rw (bytes_equal_refl k) refl, refl)
  refused_after msg w m u k (keeps d' _ same) h = cc
  refused_after msg w m u k (fails d' e set same) h = cc

  -- The same record, handled again after each of some waits, with how its insert ends.
  unfoldable pub redelivered :
      List (ℕ × Outcome) → ConsumerMessage → World redis.Db → World redis.Db
  redelivered [] msg w = w
  redelivered ((t, o) ∷ os) msg w = redelivered os msg (handle env o msg (waited env t w)).1

  redelivered_seen :
      (os : List (ℕ × Outcome)) (msg : ConsumerMessage) (w : World redis.Db) (m : AppMessage)
      (u : Bytes)
      → unmarshal msg.value ≡ some m
      → extract_recipient_id scan_hex m.body msg.topic ≡ some u
      → waits os < redis.left w.db (dedup_key u m.message_id)
      → (redelivered os msg w).inbox ≡ w.inbox
  unfolding redelivered
  redelivered_seen [] msg w m u hm hu h = refl
  redelivered_seen ((t, o) ∷ os) msg w m u hm hu h =
      let (kept, same) = seen_here in
      redelivered_seen os msg (handle env o msg v).1 m u hm hu (omega (arith, kept, left_here, h))
      ∙ same
    where
      key : Bytes
      key = dedup_key u m.message_id

      v : World redis.Db
      v = waited env t w

      left_here : redis.left v.db key ≡ redis.left w.db key - t
      left_here = redis.left-wait t w.db key

      seen_here :
          (redis.left (handle env o msg v).1.db key ≡ redis.left v.db key)
          × ((handle env o msg v).1.inbox ≡ v.inbox)
      seen_here =
          subst (λ a. (redis.left a.1.db key ≡ redis.left v.db key) × (a.1.inbox ≡ v.inbox))
            (sym (handled o msg v m u hm hu))
            (unfold is_duplicate in
              seen_after o msg v m u key (redis.set_nx-Sets v.db key dedup_ttl)
                (lt→ltb 0 (redis.left v.db key) (omega (arith, left_here, h))))

  -- A message for a user whose first insert does not run is lost for the 48 hours of its mark in
  -- Redis: however often the record is delivered again within them, and even if PostgreSQL then
  -- works, the inbox stays as it was.
  pub redelivered_lost :
      (os : List (ℕ × Outcome)) (msg : ConsumerMessage) (w : World redis.Db) (m : AppMessage)
      (u : Bytes)
      → unmarshal msg.value ≡ some m
      → extract_recipient_id scan_hex m.body msg.topic ≡ some u
      → (handle env refused msg w).0 ≡ err (insert_failed unavailable)
      → waits os < dedup_ttl
      → (redelivered os msg (handle env refused msg w).1).inbox ≡ w.inbox
  redelivered_lost os msg w m u hm hu h short =
      let (marked, same) = seen_here in
      redelivered_seen os msg (handle env refused msg w).1 m u hm hu (omega (arith, marked, short))
      ∙ same
    where
      key : Bytes
      key = dedup_key u m.message_id

      seen_here :
          (redis.left (handle env refused msg w).1.db key ≡ dedup_ttl)
          × ((handle env refused msg w).1.inbox ≡ w.inbox)
      seen_here =
          subst (λ a. (redis.left a.1.db key ≡ dedup_ttl) × (a.1.inbox ≡ w.inbox))
            (sym (handled refused msg w m u hm hu))
            (unfold is_duplicate in
              refused_after msg w m u key (redis.set_nx-Sets w.db key dedup_ttl)
                (unfold is_duplicate in ap (λ a. a.0) (sym (handled refused msg w m u hm hu)) ∙ h))

  after_insert_ok :
      (u : Bytes) (m : AppMessage) (w : World redis.Db) (r : Result DbError (Unit {0}) × Table)
      → (after_insert env u m w r).0 ≡ ok tt
      → (r.0 ≡ ok tt) × ((after_insert env u m w r).1.inbox ≡ r.1)
  unfolding after_insert pushed
  after_insert_ok u m w (ok _, t) h =
      (refl, elim (Bool-cases push_client) [ inl p ↦ rw p refl | inr p ↦ rw p refl ])
  after_insert_ok u m w (err e, t) h = cc

  stored_after :
      (o : Outcome) (msg : ConsumerMessage) (w : World redis.Db) (m : AppMessage) (u i k : Bytes)
      → {a : Result RedisError Bool × redis.Db} → SetsOnce (has redis) w.db k a
      → has redis w.db k ≡ false
      → m.message_id ≡ some i
      → (after_dedup env o msg u m w (negated a.0, a.1)).0 ≡ ok tt
      → holds u i (after_dedup env o msg u m w (negated a.0, a.1)).1.inbox ≡ true
  unfolding after_dedup entry_of
  stored_after o msg w m u i k (fresh d' absent same) new hi h =
      let (went, kept) = after_insert_ok u m (record w { db = d' }) _ h in
      subst (λ t. holds u i t ≡ true) (sym kept)
        (insert-holds o (entry_of env msg u m) w.inbox u i refl hi went)
  stored_after o msg w m u i k (present d' there same) new hi h =
      absurd (true≢false (sym there ∙ new))
  stored_after o msg w m u i k (failing d' e same) new hi h = cc

  -- A message with an id whose mark was not set, and that is handled without an error, is in the inbox
  -- of its user.
  pub handle-holds :
      (o : Outcome) (msg : ConsumerMessage) (w : World redis.Db) (m : AppMessage) (u i : Bytes)
      → unmarshal msg.value ≡ some m
      → extract_recipient_id scan_hex m.body msg.topic ≡ some u
      → m.message_id ≡ some i
      → has redis w.db (dedup_key u m.message_id) ≡ false
      → (handle env o msg w).0 ≡ ok tt
      → holds u i (handle env o msg w).1.inbox ≡ true
  handle-holds o msg w m u i hm hu hi new h =
      let e = handled o msg w m u hm hu in
      subst (λ a. holds u i a.1.inbox ≡ true) (sym e)
        (unfold is_duplicate in
          stored_after o msg w m u i (dedup_key u m.message_id)
            (mark-SetsOnce redis w.db (dedup_key u m.message_id)) new hi
            (ap (λ a. a.0) (sym e) ∙ h))
