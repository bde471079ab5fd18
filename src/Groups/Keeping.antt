-- ===== src/Groups/Keeping.antt =====
-- No command (server/internal/commands/handler.go) removes a group.
use fproto.Base.{
  ℕ, ◌≡◌, refl, ap, ◌∙◌, Bool, true, ◌||◌, Option, none, some, List, [], ◌∷◌, ◌++◌, arith, Bytes,
  ok, err, ◌==◌, any, bytes_equal, Bool-cases, inl, inr,
}
use fproto.Message.{AppMessage, Command, CommandType, Body, command, len_of, bytes_of}
use fproto.Message
use fproto.Sql.{Outcome, done, refused, lost, Answer, exec}
use fproto.Kafka.Consumer.{consume_claim}
use fproto.Groups.Store
use fproto.Groups.Store.{
  admin, committed, then_second, TxOutcome, json_or_null, update_rows, Db, GroupMember, has_group,
  Group, NewGroup, MemberRole, IsJson, has_member, is_member_row, member, add_row, insert_group,
  insert_member, insert_member_once, set_settings,
}
use fproto.Groups.Commands.{
  Env, stored, handle, with_message, process_command, by_type, handle_add_member, handle_ban_member,
  handle_create_group, handle_remove_member, handle_update_settings, created, new_group, group_name,
}
use fproto.Groups.Service.{Record, handler}
use fproto.Kafka.Claims.{claimed-world}

any-append_left {ℓ} :
    {A : Type ℓ} (p : A → Bool) (xs ys : List A) → any p xs ≡ true → any p (xs ++ ys) ≡ true
any-append_left p [] ys h = cc
any-append_left p (x ∷ xs) ys h = ground (arith, any-append_left p xs ys)

module _ (g : Bytes) where
  abbrev Keeps : {R : Type 0} → R × Db → Type 0
  Keeps a = has_group g a.1 ≡ true

  stored-Keeps : (a : Answer Db) → Keeps a → Keeps (stored a)
  stored-Keeps (ok u, db) h = h
  stored-Keeps (err e, db) h = h

  exec-Keeps :
      (o : Outcome) (f : Db → Answer Db) (db : Db)
      → has_group g db ≡ true
      → Keeps (f db)
      → Keeps (exec o f db)
  exec-Keeps done f db h k = k
  exec-Keeps refused f db h k = h
  exec-Keeps lost f db h k = k

  insert_group-Keeps :
      (is_json : IsJson) (new : NewGroup) (id creator : Option Bytes) (db : Db)
      → has_group g db ≡ true
      → Keeps (insert_group is_json new id creator db)
  unfolding insert_group has_group
  insert_group-Keeps is_json new none creator db h = h
  insert_group-Keeps is_json new (some i) none db h = h
  insert_group-Keeps is_json new (some i) (some c) db h = elim (Bool-cases (has_group i db)) [
    | inl a ↦ rw a h
    | inr a ↦ rw a (elim (Bool-cases (json_or_null is_json new.settings)) [
      | inl b ↦ rw b (any-append_left (λ x. bytes_equal x.id g) db.groups _ h)
      | inr b ↦ rw b h
    ])
  ]

  insert_member-Keeps :
      (group user : Option Bytes) (role : MemberRole) (db : Db)
      → has_group g db ≡ true
      → Keeps (insert_member group user role db)
  unfolding insert_member has_group
  insert_member-Keeps none user role db h = h
  insert_member-Keeps (some i) none role db h = h
  insert_member-Keeps (some i) (some u) role db h = ground arith

  insert_member_once-Keeps :
      (group user : Bytes) (role : MemberRole) (db : Db)
      → has_group g db ≡ true
      → Keeps (insert_member_once group user role db)
  unfolding insert_member_once has_group
  insert_member_once-Keeps i u role db h = ground arith

  has_group-set_settings :
      (id : Bytes) (s : Option Bytes) (now : ℕ) (gs : List Group)
      → any (λ x. bytes_equal x.id g) (set_settings id s now gs) ≡ any (λ x. bytes_equal x.id g) gs
  unfolding set_settings
  has_group-set_settings id s now [] = refl
  has_group-set_settings id s now (x ∷ gs) = elim (Bool-cases (bytes_equal x.id id)) [
    | inl e ↦ rw (e, has_group-set_settings id s now gs) refl
    | inr e ↦ rw (e, has_group-set_settings id s now gs) refl
  ]

  committed-Keeps :
      (o : Outcome) (db : Db) (a : Answer Db)
      → has_group g db ≡ true
      → Keeps a
      → Keeps (committed o db a)
  committed-Keeps o db (err e, after) h k = h
  committed-Keeps o db (ok u, after) h k = exec-Keeps o (λ t. (ok tt, after)) db h k

  then_second-Keeps :
      (o : TxOutcome) (new : NewGroup) (db : Db) (a : Answer Db)
      → has_group g db ≡ true
      → Keeps a
      → Keeps (then_second o new db a)
  then_second-Keeps o new db (err e, after) h k = h
  then_second-Keeps o new db (ok u, after) h k = elim (Bool-cases o.second) [
    | inl e ↦ rw e (
        committed-Keeps o.commits db (insert_member new.id new.creator_id admin after) h
          (insert_member-Keeps new.id new.creator_id admin after k))
    | inr e ↦ rw e h
  ]

  create_group-Keeps :
      (is_json : IsJson) (o : TxOutcome) (new : NewGroup) (db : Db)
      → has_group g db ≡ true
      → Keeps (Store.create_group is_json o new db)
  unfolding Store.create_group
  create_group-Keeps is_json o new db h = elim (Bool-cases o.begins) [
    | inl b ↦ rw b (elim (Bool-cases o.first) [
      | inl f ↦ rw f (
          then_second-Keeps o new db _ h
            (insert_group-Keeps is_json new new.id new.creator_id db h))
      | inr f ↦ rw f h
    ])
    | inr b ↦ rw b h
  ]

  created-Keeps :
      (env : Env) (cmd : Command) (o : Option Bytes) (db : Db)
      → has_group g db ≡ true
      → Keeps (created env cmd o db)
  created-Keeps env cmd none db h = h
  created-Keeps env cmd (some name) db h =
      stored-Keeps _ (create_group-Keeps env.is_json env.transaction (new_group cmd name) db h)

  removed-Keeps :
      (env : Env) (cmd : Command) (db : Db)
      → has_group g db ≡ true
      → Keeps (handle_remove_member env cmd db)
  unfolding handle_remove_member has_group
  removed-Keeps env cmd db h =
      elim (Bool-cases ((len_of cmd.target_id == 0) || (len_of cmd.payload == 0))) [
        | inl e ↦ rw e h
        | inr e ↦ rw e (stored-Keeps _ (exec-Keeps env.statement _ db h h))
      ]

  updated-Keeps :
      (is_json : IsJson) (id : Bytes) (s : Option Bytes) (db : Db)
      → has_group g db ≡ true
      → Keeps (update_rows is_json id s db)
  unfolding update_rows has_group
  updated-Keeps is_json id s db h = elim (Bool-cases (json_or_null is_json s)) [
    | inl e ↦ rw e (has_group-set_settings id s db.now db.groups ∙ h)
    | inr e ↦ rw e h
  ]

  by_type-Keeps :
      (env : Env) (t : CommandType) (cmd : Command) (db : Db)
      → has_group g db ≡ true
      → Keeps (by_type env t cmd db)
  unfolding by_type handle_create_group handle_add_member handle_remove_member handle_ban_member
      handle_update_settings
  by_type-Keeps env Message.create_group cmd db h = elim (Bool-cases (len_of cmd.target_id == 0)) [
    | inl e ↦ rw e h
    | inr e ↦ rw e (created-Keeps env cmd (group_name env cmd.payload) db h)
  ]
  by_type-Keeps env Message.add_member cmd db h =
      elim (Bool-cases ((len_of cmd.target_id == 0) || (len_of cmd.payload == 0))) [
        | inl e ↦ rw e h
        | inr e ↦ rw e (
            stored-Keeps _
              (exec-Keeps env.statement _ db h (insert_member_once-Keeps _ _ member db h)))
      ]
  by_type-Keeps env Message.remove_member cmd db h = removed-Keeps env cmd db h
  by_type-Keeps env Message.ban_member cmd db h = removed-Keeps env cmd db h
  by_type-Keeps env Message.update_group_settings cmd db h =
      elim (Bool-cases (len_of cmd.target_id == 0)) [
        | inl e ↦ rw e h
        | inr e ↦ rw e (
            stored-Keeps _ (
              exec-Keeps env.statement _ db h
                (updated-Keeps env.is_json (bytes_of cmd.target_id) cmd.payload db h)))
      ]
  by_type-Keeps env t cmd db h = h

  body-Keeps :
      (env : Env) (id : Option Bytes) (b : Body) (db : Db)
      → has_group g db ≡ true
      → Keeps (with_message env (some (record { message_id = id; body = b })) db)
  unfolding with_message process_command
  body-Keeps env id (Message.chat m) db h = h
  body-Keeps env id (command none) db h = h
  body-Keeps env id (command (some cmd)) db h = by_type-Keeps env cmd.type cmd db h
  body-Keeps env id (Message.media m) db h = h
  body-Keeps env id (Message.sender_key m) db h = h
  body-Keeps env id (Message.signaling m) db h = h
  body-Keeps env id Message.other db h = h

  with_message-Keeps :
      (env : Env) (o : Option AppMessage) (db : Db)
      → has_group g db ≡ true
      → Keeps (with_message env o db)
  unfolding with_message
  with_message-Keeps env none db h = h
  with_message-Keeps env (some msg) db h = body-Keeps env msg.message_id msg.body db h

  -- No record removes a group.
  handler-Keeps : (m : Env × Option Bytes) (db : Db) → has_group g db ≡ true → Keeps (handler m db)
  unfolding handle
  handler-Keeps (env, value) db h = with_message-Keeps env (env.unmarshal value) db h

  pub claim-Keeps :
      (records : List Record) (db : Db)
      → has_group g db ≡ true
      → has_group g (consume_claim handler records db).0 ≡ true
  unfolding consume_claim
  claim-Keeps [] db h = h
  claim-Keeps ((o, m) ∷ rs) db h =
      ap (has_group g) (claimed-world handler o (handler m db) _)
      ∙ claim-Keeps rs (handler m db).1 (handler-Keeps m db h)
