-- ===== src/Gateway/Examples.antt =====
-- A gateway with its dispatcher.
use fproto.Base.{
  zero, ◌≢◌, none, ◌++◌, ℕ, suc, ◌≡◌, refl, true, some, List, [], ◌∷◌, map, Bytes, ok,
}
use fproto.Message.{chat}
use fproto.Sql.{Outcome, done, lost}
use fproto.Outbox.Store.{Entry, Table}
use fproto.Dispatcher.Router.{CommandNames}
use fproto.Dispatcher.Dispatch.{Marshal}
use fproto.Gateway.Stored.{
  RpcOutcome, completed, unreachable, reply_lost, State, with_dispatcher, acked, connection_outbox,
}
use fproto.Noise.{Session}
use fproto.Noise.Conversations.{connect}
use fproto.Noise.Handshakes.{client_handshake, server_handshake}
use fproto.Noise.OpenLibrary.{no_key, begun, waiting, open_library, open_library-IsXx}
use fproto.Gateway.{Gateway, handle_conn}
use fproto.Gateway.Replies.{seal_all, open_all, answers}

abbrev two_texts : List Bytes
two_texts = (1 ∷ []) ∷ (2 ∷ []) ∷ []

-- Its messages are chats of one user to another, with an id that is their text.
abbrev chats : Gateway State
chats = record {
  frame_of = λ pt. some (record { session_id = some []; encrypted_payload = some pt });
  message_of = λ b. some (record {
    message_id = some b;
    body = chat (
        some (record { sender_id = some (5 ∷ []); recipient_id = some (6 ∷ []); group_id = none }));
  });
  marshal = λ a. a.message_id;
  remote_addr = [];
  dispatch = none;
}

abbrev no_rows : Table
no_rows = record { rows = []; next_id = 1; now = 0 }

abbrev sends_text : Marshal
sends_text m = m.message_id

abbrev no_names : CommandNames
no_names c = []

never_lost : (k : ℕ) → ◌≢◌ {A = Outcome} done lost
never_lost k h = cc

-- The dispatcher is reached once.
first_call : ℕ → RpcOutcome
first_call zero = completed
first_call (suc k) = unreachable

first_call_arrives : (k : ℕ) → first_call k ≢ reply_lost
unfolding first_call
first_call_arrives zero h = cc
first_call_arrives (suc k) h = cc

connection_outbox_example :
    let full : Gateway State = with_dispatcher no_names sends_text first_call (λ k. done) chats in
    (a b : Session ℕ) × (connect
        (client_handshake open_library no_key [])
        (server_handshake open_library no_key [])
      ≡ some (ok a, ok b))
    × (es : List Entry) × ((handle_conn full open_library
          (ok b)
          (map (λ m. (m, true)) (seal_all open_library two_texts a.send))
          (no_rows, 0)).1.0.rows
        ≡ [] ++ es)
    × (map (λ e. some e.message_id) es ≡ acked full two_texts (no_rows, 0))
    × (open_all open_library
          (handle_conn full open_library
            (ok b)
            (map (λ m. (m, true)) (seal_all open_library two_texts a.send))
            (no_rows, 0)).0
          a.recv
        ≡ map some (answers full two_texts (no_rows, 0)).0)
connection_outbox_example =
    connection_outbox open_library no_names sends_text first_call (λ k. done) chats ◌≡◌ two_texts
      no_key no_key [] [] begun waiting no_rows first_call_arrives never_lost open_library-IsXx
      (λ t c. (t, suc c, refl)) refl refl
