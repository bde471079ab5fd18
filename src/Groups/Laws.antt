-- ===== src/Groups/Laws.antt =====
-- What CreateGroup leaves, and who administers a group that a command creates.
use fproto.Base.{
  ◌≡◌, ◌≢◌, refl, sym, ◌∙◌, subst, ◌⊎◌, inl, inr, Bool, true, false, ◌==◌, Option, none, some, List,
  [], ◌∷◌, ◌++◌, arith, Bytes, Result, ok, err, if◌then◌else◌, bytes_equal_refl, any, Bool-cases,
}
use fproto.Message.{Command, len_of}
use fproto.Sql.{DbError, violation, unavailable, Outcome, done, refused, lost, Answer}
use fproto.Groups.Store.{
  Db, NewGroup, IsJson, TxOutcome, MemberRole, admin, has_group, has_member, insert_group,
  insert_member, create_group, then_second, committed, add_row, is_member_row,
}
use fproto.Groups.Commands.{
  Env, CommandError, new_group, handle_create_group, empty_prefix, group_name, stored, created,
  store_failed, parse_failed, target_required,
}

any-append_last {ℓ} :
    {A : Type ℓ} (p : A → Bool) (xs : List A) (r : A) → p r ≡ true → any p (xs ++ r ∷ []) ≡ true
any-append_last p [] r h = rw h
any-append_last p (x ∷ xs) r h = ground (arith, any-append_last p xs r h)

-- The rows of a new group and of its first member.
abbrev pub Created : NewGroup → Db → Type 0
Created g db =
    (id : Bytes) × (creator : Bytes) × (g.id ≡ some id)
    × (g.creator_id ≡ some creator)
    × (has_group id db ≡ true)
    × (has_member id creator db ≡ true)

-- What a transaction did: both rows, or an error and no change.
abbrev pub AllOrNothing : NewGroup → Db → Answer Db → Type 0
AllOrNothing g db a = ((a.0 ≡ ok tt) × Created g a.1) ⊎ ((x : DbError) × (a.0 ≡ err x) × (a.1 ≡ db))

committed-AllOrNothing :
    (o : Outcome) (g : NewGroup) (before : Db) (a : Answer Db)
    → o ≢ lost
    → (a.0 ≡ ok tt → Created g a.1)
    → AllOrNothing g before (committed o before a)
committed-AllOrNothing o g before (err e, after) h f = inr (e, refl, refl)
committed-AllOrNothing done g before (ok u, after) h f = inl (refl, f refl)
committed-AllOrNothing refused g before (ok u, after) h f = inr (unavailable, refl, refl)
committed-AllOrNothing lost g before (ok u, after) h f = absurd (h refl)

insert_member_new :
    (i c : Bytes) (db : Db)
    → has_group i db ≡ true
    → has_member i c db ≡ false
    → insert_member (some i) (some c) admin db ≡ (ok tt, add_row i c admin db)
unfolding insert_member
insert_member_new i c db hg hm = rw (hg, hm) refl

pub added_member :
    (i c : Bytes) (role : MemberRole) (db : Db) → has_member i c (add_row i c role db) ≡ true
unfolding has_member
added_member i c role db =
    any-append_last (is_member_row i c) db.members _
      (rw (bytes_equal_refl i, bytes_equal_refl c) refl)

ok≢err : {x : DbError} → ◌≢◌ {A = Result DbError (Unit {0})} (ok tt) (err x)
ok≢err h = cc

insert_member-Created :
    (g : NewGroup) (id creator : Option Bytes) (db : Db)
    → g.id ≡ id
    → g.creator_id ≡ creator
    → (insert_member id creator admin db).0 ≡ ok tt
    → Created g (insert_member id creator admin db).1
unfolding insert_member has_group
insert_member-Created g none creator db hi hc h = cc
insert_member-Created g (some i) none db hi hc h = cc
insert_member-Created g (some i) (some c) db hi hc h = elim (Bool-cases (has_group i db)) [
  | inr hg ↦ absurd (ok≢err {x = violation} (sym h ∙ rw (hg, insert_member) refl))
  | inl hg ↦ elim (Bool-cases (has_member i c db)) [
    | inl hm ↦ absurd (ok≢err {x = violation} (sym h ∙ rw (hg, hm, insert_member) refl))
    | inr hm ↦
        subst (λ a. Created g a.1) (sym (insert_member_new i c db hg hm))
          (i, c, hi, hc, hg, added_member i c admin db)
  ]
]

insert_group-AllOrNothing :
    (is_json : IsJson) (o : TxOutcome) (g : NewGroup) (db : Db)
    → o.commits ≢ lost
    → AllOrNothing g db (then_second o g db (insert_group is_json g g.id g.creator_id db))
insert_group-AllOrNothing is_json o g db h = second (insert_group is_json g g.id g.creator_id db)
  where
    second : (a : Answer Db) → AllOrNothing g db (then_second o g db a)
    second (err e, after) = inr (e, refl, refl)
    second (ok u, after) =
        elim o.second
          as (λ b. AllOrNothing g db (
            if b
            then committed o.commits db (insert_member g.id g.creator_id admin after)
            else (err unavailable, db))) [
              | true ↦
                  committed-AllOrNothing o.commits g db
                    (insert_member g.id g.creator_id admin after) h
                    (insert_member-Created g g.id g.creator_id after refl refl)
              | false ↦ inr (unavailable, refl, refl)
            ]

-- Where no answer to a Commit is lost, CreateGroup is all or nothing: the group and its creator as a
-- member are there, or it returns an error and the tables are as they were.
pub create_group-AllOrNothing :
    (is_json : IsJson) (o : TxOutcome) (g : NewGroup) (db : Db)
    → o.commits ≢ lost
    → AllOrNothing g db (create_group is_json o g db)
unfolding create_group
create_group-AllOrNothing is_json o g db h =
    elim o.begins
      as (λ b. AllOrNothing g db (
        if b
        then (if o.first
            then then_second o g db (insert_group is_json g g.id g.creator_id db)
            else (err unavailable, db))
        else (err unavailable, db))) [
          | false ↦ inr (unavailable, refl, refl)
          | true ↦
              elim o.first
                as (λ b. AllOrNothing g db (
                  if b
                  then then_second o g db (insert_group is_json g g.id g.creator_id db)
                  else (err unavailable, db))) [
                    | true ↦ insert_group-AllOrNothing is_json o g db h
                    | false ↦ inr (unavailable, refl, refl)
                  ]
        ]

empty_prefix-some : (p : Option Bytes) (c : Bytes) → empty_prefix p ≡ some c → c ≡ []
unfolding empty_prefix
empty_prefix-some none c h = cc
empty_prefix-some (some b) c h = cc

new_group-Created :
    (cmd : Command) (name : Bytes) (db : Db)
    → Created (new_group cmd name) db
    → (id : Bytes) × (cmd.target_id ≡ some id) × (has_member id [] db ≡ true)
unfolding new_group
new_group-Created cmd name db (id, creator, hi, hc, hg, hm) =
    (id, hi, subst (λ c. has_member id c db ≡ true) (empty_prefix-some cmd.payload creator hc) hm)

stored-Created :
    (cmd : Command) (name : Bytes) (db : Db) (a : Answer Db)
    → AllOrNothing (new_group cmd name) db a
    → (stored a).0 ≡ ok tt
    → (id : Bytes) × (cmd.target_id ≡ some id) × (has_member id [] (stored a).1 ≡ true)
stored-Created cmd name db (ok u, after) (inl (_, made)) h = new_group-Created cmd name after made
stored-Created cmd name db (ok u, after) (inr (x, bad, _)) h = absurd (ok≢err bad)
stored-Created cmd name db (err e, after) c h = absurd (clash h)
  where
    clash : ◌≢◌ {A = Result CommandError (Unit {0})} (err (store_failed e)) (ok tt)
    clash k = cc

created-creator :
    (env : Env) (cmd : Command) (name : Option Bytes) (db : Db)
    → env.transaction.commits ≢ lost
    → (created env cmd name db).0 ≡ ok tt
    → (id : Bytes) × (cmd.target_id ≡ some id)
      × (has_member id [] (created env cmd name db).1 ≡ true)
created-creator env cmd none db hc h = absurd (clash h)
  where
    clash : ◌≢◌ {A = Result CommandError (Unit {0})} (err parse_failed) (ok tt)
    clash k = cc
created-creator env cmd (some name) db hc h =
    stored-Created cmd name db _
      (create_group-AllOrNothing env.is_json env.transaction (new_group cmd name) db hc) h

-- Where no answer to a Commit is lost, a group that a command creates has the user with the empty
-- id as a member, whatever the command says: the code takes none of the payload's bytes for the
-- creator.
handle_create_group-creator :
    (env : Env) (cmd : Command) (db : Db)
    → env.transaction.commits ≢ lost
    → (handle_create_group env cmd db).0 ≡ ok tt
    → (id : Bytes) × (cmd.target_id ≡ some id)
      × (has_member id [] (handle_create_group env cmd db).1 ≡ true)
unfolding handle_create_group
handle_create_group-creator env cmd db hc h =
    (elim (len_of cmd.target_id == 0)
        as (λ b.
          (handled b).0 ≡ ok tt
          → (id : Bytes) × (cmd.target_id ≡ some id) × (has_member id [] (handled b).1 ≡ true)) [
            | true ↦ λ k. absurd (clash k)
            | false ↦ λ k. created-creator env cmd (group_name env cmd.payload) db hc k
          ])
      h
  where
    handled : Bool → Result CommandError (Unit {0}) × Db
    handled b =
        if b then (err target_required, db) else created env cmd (group_name env cmd.payload) db

    clash : ◌≢◌ {A = Result CommandError (Unit {0})} (err target_required) (ok tt)
    clash k = cc
