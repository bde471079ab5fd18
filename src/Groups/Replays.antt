-- ===== src/Groups/Replays.antt =====
-- What the commands service (server/internal/commands/service.go) does to the members of a group when a
-- partition is handed to it again.
use fproto.Base.{◌≡◌, Option, some, Bytes}
use fproto.Message.{AppMessage, Command, CommandType, Body, command, len_of, bytes_of}
use fproto.Message
use fproto.Sql.{done}
use fproto.Groups.Commands.{Env}

module _ (g u : Bytes) where
  -- A record of such a command about the user and the group, whose statement runs and is answered.
  pub record Carries (t : CommandType) (m : Env × Option Bytes) : Type 0 where
    pub message_id : Option Bytes
    pub decodes :
        m.0.unmarshal m.1
        ≡ some (record {
          message_id = message_id;
          body = command (some (record { type = t; target_id = some g; payload = some u }));
        })
    pub runs : m.0.statement ≡ done
