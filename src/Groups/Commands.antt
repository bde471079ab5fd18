-- ===== src/Groups/Commands.antt =====
-- server/internal/commands/handler.go. Parameters: protobuf's Unmarshal, and encoding/json's Unmarshal
-- into a struct with a name; the outcome of each statement.
use fproto.Base.{
  ◌||◌, Option, none, some, [], ◌∷◌, Bytes, codes, Result, ok, err, ◌==◌, ltb, if◌then◌else◌,
}
use fproto.Message.{
  len_of, bytes_of, Command, CommandType, AppMessage, Body, command, create_group, add_member,
  remove_member, update_group_settings, ban_member,
}
use fproto.Sql.{DbError, Outcome, Answer}
use fproto.Groups.Store
use fproto.Groups.Store.{Db, NewGroup, IsJson, TxOutcome, member}

pub data CommandError : Type 0 where
  unmarshal_failed target_required target_and_payload_required parse_failed : CommandError
  store_failed : DbError → CommandError

-- What the handler uses of protobuf, encoding/json and PostgreSQL.
pub record Env : Type 0 where
  pub unmarshal : Option Bytes → Option AppMessage
  -- json.Unmarshal into struct { Name string }: the name, or an error
  pub parse_name : Bytes → Option Bytes
  pub is_json : IsJson
  pub transaction : TxOutcome
  pub statement : Outcome

abbrev Step : Type 0
Step = Result CommandError (Unit {0}) × Db

abbrev pub stored : Answer Db → Step
stored (ok u, db) = (ok tt, db)
stored (err e, db) = (err (store_failed e), db)

-- The name: that of the payload, if there is one, and "New Group" for an empty one.
unfoldable pub group_name : Env → Option Bytes → Option Bytes
group_name env payload =
    if ltb 0 (len_of payload) then named (env.parse_name (bytes_of payload)) else named (some [])
  where
    named : Option Bytes → Option Bytes
    named none = none
    named (some []) = some (codes "New Group")
    named (some (b ∷ bs)) = some (b ∷ bs)

-- s[:0], which is nil for nil.
unfoldable pub empty_prefix : Option Bytes → Option Bytes
empty_prefix none = none
empty_prefix (some b) = some []

-- The group that handleCreateGroup passes on.
unfoldable pub new_group : Command → Bytes → NewGroup
unfolding empty_prefix
new_group cmd name = record {
  id = cmd.target_id;
  name = name;
  creator_id = empty_prefix cmd.payload;
  settings = if ltb 0 (len_of cmd.payload) then cmd.payload else some (codes "{}");
}

abbrev pub created : Env → Command → Option Bytes → Db → Step
created env cmd none db = (err parse_failed, db)
created env cmd (some name) db =
    stored (Store.create_group env.is_json env.transaction (new_group cmd name) db)

unfoldable pub handle_create_group : Env → Command → Db → Step
handle_create_group env cmd db =
    if len_of cmd.target_id == 0
    then (err target_required, db)
    else created env cmd (group_name env cmd.payload) db

-- The checks of the three commands on members.
abbrev on_member : Command → (Bytes → Bytes → Db → Answer Db) → Db → Step
on_member cmd f db =
    if (len_of cmd.target_id == 0) || (len_of cmd.payload == 0)
    then (err target_and_payload_required, db)
    else stored (f (bytes_of cmd.target_id) (bytes_of cmd.payload) db)

unfoldable pub handle_add_member : Env → Command → Db → Step
handle_add_member env cmd = on_member cmd (λ g u. Store.add_member env.statement g u member)

unfoldable pub handle_remove_member : Env → Command → Db → Step
handle_remove_member env cmd = on_member cmd (Store.remove_member env.statement)

unfoldable pub handle_ban_member : Env → Command → Db → Step
handle_ban_member env cmd = on_member cmd (Store.ban_member env.statement)

unfoldable pub handle_update_settings : Env → Command → Db → Step
handle_update_settings env cmd db =
    if len_of cmd.target_id == 0
    then (err target_required, db)
    else stored
        (Store.update_settings env.is_json env.statement (bytes_of cmd.target_id) cmd.payload db)

unfoldable pub by_type : Env → CommandType → Command → Db → Step
by_type env create_group cmd db = handle_create_group env cmd db
by_type env add_member cmd db = handle_add_member env cmd db
by_type env remove_member cmd db = handle_remove_member env cmd db
by_type env update_group_settings cmd db = handle_update_settings env cmd db
by_type env ban_member cmd db = handle_ban_member env cmd db
by_type env _ cmd db = (ok tt, db)

unfoldable pub process_command : Env → Command → Db → Step
process_command env cmd db = by_type env cmd.type cmd db

unfoldable pub with_message : Env → Option AppMessage → Db → Step
with_message env none db = (err unmarshal_failed, db)
with_message env (some msg) db = with_body msg.body
  where
    with_body : Body → Step
    with_body (command (some cmd)) = process_command env cmd db
    with_body _ = (ok tt, db)

-- Handle, of a record with this value.
unfoldable pub handle : Env → Option Bytes → Db → Step
handle env value db = with_message env (env.unmarshal value) db
