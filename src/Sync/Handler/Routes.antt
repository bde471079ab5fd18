-- ===== src/Sync/Handler/Routes.antt =====
-- What the handler does with the topics that the dispatcher publishes to.
use fproto.Base.{
  ◌≡◌, refl, sym, ap, ◌∙◌, subst, inl, inr, Bool, true, false, Option, none, some, [], ◌++◌, ◌∷◌,
  arith, Bytes, codes, Result, ok, err, bytes_equal, ltb, length, Bool-cases, encode_to_string,
  IsByte, IsBytes, ◌==◌, ℕ, lt→ltb, ◌<◌, ◌/◌, ◌%◌, hex_digit, length-encode_to_string,
}
use fproto.Message.{len_of, SignalingMessage, ChatMessage, AppMessage, chat, signaling}
use fproto.Sql.{DbError, Outcome, done, refused, lost}
use fproto.Inbox.{Table, NewEntry, row_of, columns, insert}
use fproto.Inbox.Laws.{insert_row_of_null}
use fproto.Kafka.Topics.{user_topic, group_topic}
use fproto.Dispatcher.Router.{
  CommandNames, Route, route_message, route_body, route_chat, route_signaling,
}
use fproto.Sync.Dedup.{RedisError, is_duplicate}
use fproto.Sync.Handler.{
  ConsumerMessage, Env, World, pushed, after_insert, entry_of, after_dedup, with_recipient,
  with_message, handle, extract_recipient_id, extract_sender_id, recipient_of_topic, hex_decode,
}

-- The row needs a sender.
columns_no_sender :
    (e : NewEntry) (t : Table) (u m p : Option Bytes) → columns e t u m none p ≡ none
unfolding columns
columns_no_sender e t none m p = refl
columns_no_sender e t (some u) none p = refl
columns_no_sender e t (some u) (some m) p = refl

row_of_no_sender : (e : NewEntry) (t : Table) → e.sender_id ≡ none → row_of e t ≡ none
unfolding row_of
row_of_no_sender e t h =
    subst (λ s. columns e t e.user_id e.message_id s e.payload ≡ none) (sym h)
      (columns_no_sender e t e.user_id e.message_id e.payload)

insert_no_sender :
    (o : Outcome) (e : NewEntry) (t : Table) → e.sender_id ≡ none → (insert o e t).1.rows ≡ t.rows
insert_no_sender done e t h = ap (λ a. a.1.rows) (insert_row_of_null e t (row_of_no_sender e t h))
insert_no_sender refused e t h = refl
insert_no_sender lost e t h = ap (λ a. a.1.rows) (insert_row_of_null e t (row_of_no_sender e t h))

group_topic_no_user :
    (scan : Bytes → Option ℕ) (g : Bytes) → recipient_of_topic scan (group_topic g) ≡ none
unfolding recipient_of_topic group_topic bytes_equal
group_topic_no_user scan g =
    rw (lt→ltb 5 (length (codes "group-" ++ encode_to_string g)) (omega arith)) refl

-- What the code relies on of Sscanf with %02x: it reads the two digits that EncodeToString writes.
abbrev pub ReadsHex : (Bytes → Option ℕ) → Type 0
ReadsHex scan = (b : ℕ) → IsByte b → scan (encode_to_string (b ∷ [])) ≡ some b

pub hex_decode-encode_to_string :
    (scan : Bytes → Option ℕ)
    → ReadsHex scan
    → (bs : Bytes) → IsBytes bs
    → hex_decode scan (encode_to_string bs) ≡ some bs
unfolding hex_decode encode_to_string
hex_decode-encode_to_string scan reads [] h = refl
hex_decode-encode_to_string scan reads (b ∷ bs) (hb, hs) =
    let e : scan (hex_digit (b / 16) ∷ hex_digit (b % 16) ∷ []) ≡ some b = reads b hb in
    rw (e, hex_decode-encode_to_string scan reads bs hs) refl

-- The topic that the dispatcher makes of a user gives the user back, where the id is not empty and
-- Sscanf reads what EncodeToString writes.
pub recipient_of_topic-user_topic :
    (scan : Bytes → Option ℕ) (u : Bytes)
    → ReadsHex scan
    → IsBytes u
    → 0 < length u
    → recipient_of_topic scan (user_topic u) ≡ some u
unfolding recipient_of_topic user_topic bytes_equal hex_decode
recipient_of_topic-user_topic scan u reads h nonempty =
    let long : ltb 5 (length (codes "user-" ++ encode_to_string u)) ≡ true =
      lt→ltb 5 _ (omega (arith, length-encode_to_string u)) in
    rw long (hex_decode-encode_to_string scan reads u h)

module _ (env : Env) where
  open env use {redis, unmarshal, scan_hex, push_client}

  after_insert-inbox :
      (u : Bytes) (m : AppMessage) (w : World redis.Db) (r : Result DbError (Unit {0}) × Table)
      → (after_insert env u m w r).1.inbox ≡ r.1
  unfolding after_insert pushed
  after_insert-inbox u m w (ok _, t) = elim (Bool-cases push_client) [
    | inl p ↦ rw p refl
    | inr p ↦ rw p refl
  ]
  after_insert-inbox u m w (err e, t) = refl

  after_dedup_rows :
      (o : Outcome) (msg : ConsumerMessage) (u : Bytes) (m : AppMessage) (w : World redis.Db)
      (a : Result RedisError Bool × redis.Db)
      → extract_sender_id m.body ≡ none
      → (after_dedup env o msg u m w a).1.inbox.rows ≡ w.inbox.rows
  unfolding after_dedup entry_of
  after_dedup_rows o msg u m w (err e, d) h = refl
  after_dedup_rows o msg u m w (ok true, d) h = refl
  after_dedup_rows o msg u m w (ok false, d) h =
      ap (λ t. t.rows) (after_insert-inbox u m (record w { db = d }) _)
      ∙ insert_no_sender o (entry_of env msg u m) w.inbox h

  -- A message without a sender, and so every one that is not a chat message, leaves no row in the inbox:
  -- the handler passes NULL for a column that must not be NULL.
  handle_no_sender :
      (o : Outcome) (msg : ConsumerMessage) (w : World redis.Db) (m : AppMessage)
      → unmarshal msg.value ≡ some m
      → extract_sender_id m.body ≡ none
      → (handle env o msg w).1.inbox.rows ≡ w.inbox.rows
  unfolding handle with_message with_recipient
  handle_no_sender o msg w m hm h =
      subst (λ a. (with_message env o msg a w).1.inbox.rows ≡ w.inbox.rows) (sym hm)
        (by_recipient (extract_recipient_id scan_hex m.body msg.topic))
    where
      by_recipient :
          (r : Option Bytes) → (with_recipient env o msg m r w).1.inbox.rows ≡ w.inbox.rows
      by_recipient none = refl
      by_recipient (some u) =
          after_dedup_rows o msg u m w (is_duplicate redis w.db u m.message_id) h

  -- A chat message without a recipient is skipped on a group's topic.
  handle_group_chat :
      (o : Outcome) (msg : ConsumerMessage) (w : World redis.Db) (m : AppMessage) (c : ChatMessage)
      (g : Bytes)
      → msg.topic ≡ group_topic g
      → unmarshal msg.value ≡ some m
      → m.body ≡ chat (some c)
      → len_of c.recipient_id ≡ 0
      → handle env o msg w ≡ (ok tt, w)
  unfolding handle with_message with_recipient
  handle_group_chat o msg w m c g ht hm hb hr =
      let skipped : extract_recipient_id scan_hex m.body msg.topic ≡ none =
        subst (λ b. extract_recipient_id scan_hex b msg.topic ≡ none) (sym hb)
          (unfold extract_recipient_id in rw (hr, ht) (group_topic_no_user scan_hex g)) in
      rw (hm, with_message, skipped)

  -- A chat message to a group, with no recipient, is routed to the group's topic, and the handler skips it
  -- there without an error: nothing is stored in an inbox and no push is sent.
  pub routed_group_chat :
      (names : CommandNames) (o : Outcome) (value : Option Bytes) (w : World redis.Db)
      (m : AppMessage) (c : ChatMessage) (g : Bytes)
      → unmarshal value ≡ some m
      → m.body ≡ chat (some c)
      → c.group_id ≡ some g
      → 0 < length g
      → len_of c.recipient_id ≡ 0
      → (route_message names (some m)
          ≡ ok (record { topic = group_topic g; partition_key = some g }))
        × (handle env o (record { topic = group_topic g; value = value }) w ≡ (ok tt, w))
  unfolding route_message route_body route_chat group_topic
  routed_group_chat names o value w m c g hm hb hg nonempty hr = (
    rw (hb, hg, lt→ltb 0 (length g) nonempty) refl,
    handle_group_chat o (record { topic = group_topic g; value = value }) w m c g refl hm hb hr,
  )

-- A signaling message to a user with an id that is not empty, and a chat message to that user and
-- no group, is routed to a topic from which the handler finds the recipient again, where Sscanf
-- reads what EncodeToString writes.
pub routed_recipient :
    (names : CommandNames) (scan : Bytes → Option ℕ) (m : Option Bytes) (c : ChatMessage)
    (s : SignalingMessage) (u : Bytes)
    → ReadsHex scan
    → IsBytes u
    → 0 < length u
    → len_of c.group_id ≡ 0
    → c.recipient_id ≡ some u
    → s.recipient_id ≡ some u
    → let route : Route = record { topic = user_topic u; partition_key = some u } in
      (route_message names (some (record { message_id = m; body = chat (some c) })) ≡ ok route)
      × (route_message names (some (record { message_id = m; body = signaling (some s) }))
          ≡ ok route)
      × (extract_recipient_id scan (chat (some c)) route.topic ≡ some u)
      × (extract_recipient_id scan (signaling (some s)) route.topic ≡ some u)
unfolding route_message route_body route_chat route_signaling user_topic extract_recipient_id
routed_recipient names scan m c s u reads hu nonempty hg hc hs =
    let long : ltb 0 (length u) ≡ true = lt→ltb 0 (length u) nonempty in
    let filled : (length u == 0) ≡ false = ground arith in
    (
      rw (hg, hc, long) refl,
      rw (hs, filled) refl,
      rw (hc, long) refl,
      unfold user_topic in recipient_of_topic-user_topic scan u reads hu nonempty,
    )
