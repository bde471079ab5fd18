-- ===== src/Groups/Examples.antt =====
-- Groups created in a transaction and by a command.
use fproto.Kafka.Consumer.{OffsetManager, latest}
use fproto.Base.{
  ◌≡◌, ◌≢◌, refl, true, Option, none, some, [], ◌∷◌, Bytes, if◌then◌else◌, ok, codes, bytes_equal,
}
use fproto.Message.{Command, CommandType, create_group, command}
use fproto.Sql.{done, lost}
use fproto.Groups.Store
use fproto.Groups.Store.{
  Db, NewGroup, IsJson, TxOutcome, has_member, insert_group, insert_member, has_group,
}
use fproto.Groups.Commands.{Env, handle_create_group, group_name, new_group, empty_prefix}
use fproto.Groups.Laws.{AllOrNothing, create_group-AllOrNothing}

abbrev any_json : IsJson
any_json s = true

abbrev all_done : TxOutcome
all_done = record { begins = true; first = true; second = true; commits = done }

abbrev empty_db : Db
empty_db = record { groups = []; members = []; now = 4 }

abbrev friends : NewGroup
friends = record { id = some (7 ∷ []); name = []; creator_id = some (5 ∷ []); settings = none }

done≢lost : done ≢ lost
done≢lost h = cc

create_group-AllOrNothing_example :
    AllOrNothing friends empty_db (Store.create_group any_json all_done friends empty_db)
create_group-AllOrNothing_example =
    create_group-AllOrNothing any_json all_done friends empty_db done≢lost

abbrev env : Env
env = record {
  unmarshal = λ v. none;
  parse_name = λ p. some (codes "friends");
  is_json = any_json;
  transaction = all_done;
  statement = done;
}

abbrev create_command : Command
create_command = record {
  type = create_group;
  target_id = some (7 ∷ []);
  payload = some (1 ∷ 2 ∷ []);
}

create_command_ok : (handle_create_group env create_command empty_db).0 ≡ ok tt
unfolding handle_create_group group_name new_group empty_prefix Store.create_group insert_group
    has_group insert_member has_member bytes_equal
create_command_ok = refl

abbrev sarama : OffsetManager
sarama = record {
  end_session = λ auto marks c. if auto then latest marks c else c;
  commits_marks = λ marks c. refl;
  manual_commits = λ marks c. refl;
}

-- A record with a command about user 5 and group 7.
abbrev carrying : CommandType → Env × Option Bytes
carrying t = (
  record env {
    unmarshal = λ v. some (record {
      message_id = none;
      body =
          command (some (record { type = t; target_id = some (7 ∷ []); payload = some (5 ∷ []) }));
    });
  },
  none,
)

abbrev one_group : Db
one_group = record {
  groups =
      record {
        id = 7 ∷ [];
        name = [];
        creator_id = [];
        settings = none;
        created_at = 0;
        updated_at = 0;
      }
      ∷ [];
  members = [];
  now = 4;
}
