-- ===== src/Groups/Store.antt =====
-- server/internal/groups/model.go and store.go: the tables groups and group_members, and each statement.
use fproto.Base.{
  ℕ, Bool, true, false, not, ◌&&◌, Option, none, some, List, [], ◌∷◌, ◌++◌, Bytes, Result, ok, err,
  if◌then◌else◌, bytes_equal, filter, any, length,
}
use fproto.Sql.{DbError, violation, no_rows, unavailable, Outcome, Answer, exec, always, query}

pub data MemberRole : Type 0 where
  admin moderator member : MemberRole

abbrev pub is_admin : MemberRole → Bool
is_admin admin = true
is_admin _ = false

-- A row of groups; `settings` is the JSON text.
pub record Group : Type 0 where
  pub id : Bytes
  pub name : Bytes
  pub creator_id : Bytes
  pub settings : Option Bytes
  pub created_at : ℕ
  pub updated_at : ℕ

pub record GroupMember : Type 0 where
  pub group_id : Bytes
  pub user_id : Bytes
  pub role : MemberRole
  pub joined_at : ℕ

-- The two tables and the server's clock.
pub record Db : Type 0 where
  pub groups : List Group
  pub members : List GroupMember
  pub now : ℕ

-- What CreateGroup is given; a nil slice is NULL.
pub record NewGroup : Type 0 where
  pub id : Option Bytes
  pub name : Bytes
  pub creator_id : Option Bytes
  pub settings : Option Bytes

-- Whether PostgreSQL reads a text as JSONB.
abbrev pub IsJson : Type 0
IsJson = Bytes → Bool

abbrev pub json_or_null : IsJson → Option Bytes → Bool
json_or_null is_json none = true
json_or_null is_json (some s) = is_json s

unfoldable pub has_group : Bytes → Db → Bool
has_group id db = any (λ g. bytes_equal g.id id) db.groups

abbrev pub is_member_row : Bytes → Bytes → GroupMember → Bool
is_member_row g u m = bytes_equal m.group_id g && bytes_equal m.user_id u

unfoldable pub has_member : Bytes → Bytes → Db → Bool
has_member g u db = any (is_member_row g u) db.members

-- INSERT INTO groups: the primary key, the NOT NULL columns and the type of settings.
unfoldable pub insert_group : IsJson → NewGroup → Option Bytes → Option Bytes → Db → Answer Db
insert_group is_json g (some id) (some creator) db =
    if has_group id db
    then (err violation, db)
    else if json_or_null is_json g.settings
    then (
      ok tt,
      record db {
        groups =
            db.groups
            ++ record {
              id = id;
              name = g.name;
              creator_id = creator;
              settings = g.settings;
              created_at = db.now;
              updated_at = db.now;
            }
              ∷ [];
      },
    )
    else (err violation, db)
insert_group is_json g _ _ db = (err violation, db)

abbrev pub add_row : Bytes → Bytes → MemberRole → Db → Db
add_row g u role db = record db {
  members =
      db.members ++ record { group_id = g; user_id = u; role = role; joined_at = db.now } ∷ [];
}

-- INSERT INTO group_members: the foreign key, then the primary key.
unfoldable pub insert_member : Option Bytes → Option Bytes → MemberRole → Db → Answer Db
insert_member (some g) (some u) role db =
    if not (has_group g db)
    then (err violation, db)
    else if has_member g u db
    then (err violation, db)
    else (ok tt, add_row g u role db)
insert_member _ _ role db = (err violation, db)

-- The same with ON CONFLICT (group_id, user_id) DO NOTHING, which leaves the foreign key unchecked for
-- a row that is not inserted; that row's group exists by the key of the row in its way.
unfoldable pub insert_member_once : Bytes → Bytes → MemberRole → Db → Answer Db
insert_member_once g u role db =
    if has_member g u db
    then (ok tt, db)
    else if not (has_group g db)
    then (err violation, db)
    else (ok tt, add_row g u role db)

-- How the calls of a transaction end: Begin, each Exec, Commit. A Commit whose answer is lost has run.
pub record TxOutcome : Type 0 where
  pub begins : Bool
  pub first : Bool
  pub second : Bool
  pub commits : Outcome

abbrev pub committed : Outcome → Db → Answer Db → Answer Db
committed o before (err e, after) = (err e, before)
committed o before (ok u, after) = exec o (λ t. (ok tt, after)) before

abbrev pub then_second : TxOutcome → NewGroup → Db → Answer Db → Answer Db
then_second o g before (err e, db) = (err e, before)
then_second o g before (ok u, db) =
    if o.second
    then committed o.commits before (insert_member g.id g.creator_id admin db)
    else (err unavailable, before)

-- CreateGroup: both rows, or a rollback to the tables as they were.
unfoldable pub create_group : IsJson → TxOutcome → NewGroup → Db → Answer Db
create_group is_json o g db =
    if o.begins
    then (if o.first
        then then_second o g db (insert_group is_json g g.id g.creator_id db)
        else (err unavailable, db))
    else (err unavailable, db)

unfoldable pub find_group : Bytes → List Group → Result DbError Group
find_group id [] = err no_rows
find_group id (g ∷ gs) = if bytes_equal g.id id then ok g else find_group id gs

abbrev pub get_group : Outcome → Bytes → Db → Result DbError Group
get_group o id db = query o (find_group id db.groups)

abbrev pub add_member : Outcome → Bytes → Bytes → MemberRole → Db → Answer Db
add_member o g u role = exec o (insert_member_once g u role)

abbrev pub remove_member : Outcome → Bytes → Bytes → Db → Answer Db
remove_member o g u =
    exec o
      (always (λ db. record db { members = filter (λ m. not (is_member_row g u m)) db.members }))

unfoldable pub set_settings : Bytes → Option Bytes → ℕ → List Group → List Group
set_settings id s now [] = []
set_settings id s now (g ∷ gs) =
    (if bytes_equal g.id id then record g { settings = s; updated_at = now } else g)
    ∷ set_settings id s now gs

unfoldable pub update_rows : IsJson → Bytes → Option Bytes → Db → Answer Db
update_rows is_json id s db =
    if json_or_null is_json s
    then (ok tt, record db { groups = set_settings id s db.now db.groups })
    else (err violation, db)

abbrev pub update_settings : IsJson → Outcome → Bytes → Option Bytes → Db → Answer Db
update_settings is_json o id s = exec o (update_rows is_json id s)

abbrev pub ban_member : Outcome → Bytes → Bytes → Db → Answer Db
ban_member = remove_member

abbrev pub get_members : Outcome → Bytes → Db → Result DbError (List GroupMember)
get_members o g db = query o (ok (filter (λ m. bytes_equal m.group_id g) db.members))

abbrev pub is_member : Outcome → Bytes → Bytes → Db → Result DbError Bool
is_member o g u db = query o (ok (has_member g u db))

abbrev pub admin_count : Outcome → Bytes → Db → Result DbError ℕ
admin_count o g db =
    query o (ok (length (filter (λ m. bytes_equal m.group_id g && is_admin m.role) db.members)))
