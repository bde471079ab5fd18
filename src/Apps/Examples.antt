-- ===== src/Apps/Examples.antt =====
-- Runs of the example servers over a library that hides nothing.
use fproto.Base.{
  ℕ, suc, ◌≡◌, ◌≤◌, ◌^◌, refl, true, false, none, some, List, [], ◌∷◌, ◌++◌, arith, Bytes, codes,
  ok, err, length, uint32_be, lookup,
}
use fproto.Noise.{Session, read_failed, decrypt}
use fproto.Noise.Conversations.{connect}
use fproto.Noise.Handshakes.{client_handshake, server_handshake}
use fproto.Noise.OpenLibrary.{open_library, open_library-IsXx, no_key, begun, waiting}
use fproto.Apps.Frames.{Json, frame, panicked}
use fproto.Apps.IotTelemetry
use fproto.Apps.IotTelemetry.{Telemetry, ControlCommand, records_of, kept}
use fproto.Apps.IotTelemetry.Kept.{last, of_device}
use fproto.Apps.IotTelemetry.Recent.{arrived, serve-records, serve-panics}
use fproto.Apps.GameRealtime
use fproto.Apps.GameRealtime.{
  Floats, GameAction, StateUpdate, PlayerState, GameWorld, new_world, handle_player,
}
use fproto.Apps.GameRealtime.World.{Inv, here}
use fproto.Apps.GameRealtime.Histories.{handle_player-Inv}
use fproto.Apps.Interop.{echo, interop_echoes}
use fproto.Apps.Starter
use fproto.Apps.Starter.{exchange, replies_to, starter_replies}

abbrev session : Session ℕ
session = record { send = 0; recv = 0 }

-- Reports that consist of the name of their device.
abbrev named_reports : Json (Telemetry ℕ)
named_reports = record {
  marshal = λ t. some t.device_id;
  unmarshal = λ b. some (record { device_id = b; sensor_data = []; timestamp_ms = 0 });
}

abbrev no_commands : Json ControlCommand
no_commands = record { marshal = λ c. none; unmarshal = λ b. none }

-- What a device of that name reports.
abbrev by_name : ℕ → Telemetry ℕ
by_name k = record { device_id = k ∷ []; sensor_data = []; timestamp_ms = 0 }

abbrev reading : Bytes → List (Telemetry ℕ) → IotTelemetry.Read ℕ
reading ct others = record { ciphertext = ct; behind = []; others = others }

-- Another connection reports for the same device between the two.
abbrev two_reports : List (IotTelemetry.Read ℕ)
two_reports =
    reading (frame 1 (7 ∷ [])) [] ∷ reading (frame 1 (8 ∷ [])) (by_name 7 ∷ by_name 9 ∷ []) ∷ []

serve-records_example :
    (records_of
        (7 ∷ [])
        (IotTelemetry.serve open_library named_reports no_commands two_reports session []).2
      ≡ last kept (
          records_of (7 ∷ []) []
          ++ of_device (7 ∷ []) (arrived open_library named_reports two_reports 0)))
    × (length (
          records_of
            (7 ∷ [])
            (IotTelemetry.serve open_library named_reports no_commands two_reports session []).2)
        ≤ kept)
unfolding lookup
serve-records_example =
    serve-records open_library named_reports no_commands two_reports session [] (λ id. omega arith)
      (7 ∷ [])

serve-panics_example :
    IotTelemetry.serve open_library named_reports no_commands
      (reading (1 ∷ 0 ∷ 0 ∷ 0 ∷ 9 ∷ []) [] ∷ two_reports)
      session
      []
    ≡ ([], panicked, [])
unfolding decrypt uint32_be
serve-panics_example =
    serve-panics open_library named_reports no_commands (1 ∷ 0 ∷ 0 ∷ 0 ∷ 9 ∷ []) [] [] [] 1 0 0 0 9
      two_reports session (record { send = 0; recv = 1 }) [] (omega arith) (omega arith) refl

-- A world where everybody is near, in which a player attacks itself.
abbrev no_floats : Floats (Unit {0})
no_floats = record {
  zero_float = tt;
  five = tt;
  fifty = tt;
  add = λ x y. tt;
  sub = λ x y. tt;
  mul = λ x y. tt;
  sqrt = λ x. tt;
  less = λ x y. true;
}

abbrev attacks : Json (GameAction (Unit {0}))
attacks = record {
  marshal = λ a. none;
  unmarshal = λ b. some (record {
    player_id = [];
    action = codes "attack";
    direction = record { x = tt; y = tt };
    target_id = b;
    sequence_num = 0;
    timestamp_ms = 0;
  });
}

abbrev no_updates : Json (StateUpdate (Unit {0}))
no_updates = record { marshal = λ u. none; unmarshal = λ b. none }

abbrev one_attack : List (GameRealtime.Read no_floats)
one_attack = record { ciphertext = frame 1 (5 ∷ []); before = λ w. w; between = λ w. w } ∷ []

handle_player-Inv_example :
    let w : GameWorld (Unit {0}) =
      (handle_player no_floats open_library attacks no_updates
        (5 ∷ [])
        (ok session)
        one_attack
        (new_world no_floats)).2 in
    (length w.players ≤ 2 ^ 49 → Inv w)
    × ((j : Bytes) (p : PlayerState (Unit {0}))
        → lookup j [] ≡ some p
        → p.alive ≡ false
        → lookup j w.players ≡ some p)
unfolding lookup
handle_player-Inv_example =
    handle_player-Inv no_floats open_library attacks no_updates (5 ∷ []) (ok session) one_attack
      (new_world no_floats) here refl (((λ w. here), (λ w. here)), tt)

starter_replies_example :
    (a b : Session ℕ) × (connect
        (client_handshake open_library no_key [])
        (server_handshake open_library no_key [])
      ≡ some (ok a, ok b))
    × (connect
          (exchange open_library [] Starter.messages a)
          (Starter.serve open_library (λ pt now. some pt) (1 ∷ 2 ∷ 3 ∷ 4 ∷ []) b)
        ≡ some (
          ok (replies_to (λ pt now. some pt) Starter.messages (1 ∷ 2 ∷ 3 ∷ 4 ∷ [])),
          err read_failed,
        ))
starter_replies_example =
    starter_replies open_library ◌≡◌ (λ pt now. some pt) no_key no_key [] [] begun waiting
      Starter.messages (1 ∷ 2 ∷ 3 ∷ 4 ∷ []) open_library-IsXx (λ t c. (t, suc c, refl)) refl refl
      (omega arith)

interop_echoes_example :
    (a b : Session ℕ) × (connect
        (client_handshake open_library no_key [])
        (server_handshake open_library no_key [])
      ≡ some (ok a, ok b))
    × (connect (exchange open_library [] Starter.messages a) (echo open_library 4 b)
        ≡ some (ok Starter.messages, err read_failed))
interop_echoes_example =
    interop_echoes open_library ◌≡◌ no_key no_key [] [] begun waiting Starter.messages 4
      open_library-IsXx (λ t c. (t, suc c, refl)) refl refl (omega arith)
