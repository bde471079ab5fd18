-- ===== src/Dispatcher/Examples.antt =====
-- One message through the gRPC method.
use fproto.Base.{◌≢◌, some, none, [], ◌∷◌}
use fproto.Message.{AppMessage, chat}
use fproto.Sql.{done, lost}
use fproto.Outbox.Store.{Table}
use fproto.Dispatcher.Router.{CommandNames}
use fproto.Dispatcher.Dispatch.{Marshal, Dispatched, rpc_dispatch, rpc_dispatch-Dispatched}

abbrev no_names : CommandNames
no_names c = []

abbrev three_bytes : Marshal
three_bytes m = some (1 ∷ 2 ∷ 3 ∷ [])

abbrev hello : AppMessage
hello = record {
  message_id = some (9 ∷ []);
  body =
      chat (
        some (record { sender_id = some (5 ∷ []); recipient_id = some (6 ∷ []); group_id = none }));
}

abbrev no_rows_yet : Table
no_rows_yet = record { rows = []; next_id = 1; now = 0 }

done≢lost : done ≢ lost
done≢lost h = cc

rpc_dispatch-Dispatched_example :
    Dispatched no_names three_bytes hello no_rows_yet
      (rpc_dispatch no_names three_bytes done (some hello) no_rows_yet)
rpc_dispatch-Dispatched_example =
    rpc_dispatch-Dispatched no_names three_bytes done hello no_rows_yet done≢lost
