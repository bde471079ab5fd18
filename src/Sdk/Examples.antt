-- ===== src/Sdk/Examples.antt =====
-- A client that reaches no server, and one whose server hangs up.
use fproto.Base.{codes, ℕ, ◌≡◌, refl, true, false, none, some, [], ◌∷◌, arith, err}
use fproto.Noise.{read_failed}
use fproto.Noise.Conversations.{◌>>=◌}
use fproto.Noise.Handshakes.{sdk_client_handshake}
use fproto.Noise.OpenLibrary.{open_library, no_key}
use fproto.Sdk.Client.{Attempt, new, shake_hands, follow}
use fproto.Transport.Dialing.{Quic}
use fproto.Sdk.Dialing.{Config, Net, dial, IsAccounted, dial-IsAccounted}
use fproto.Sdk.Reconnect.{ReconnectConfig, connect_with_reconnect, Ends, reconnect_ends}

abbrev no_server : ℕ → Attempt open_library
no_server k = record { dialed = none; script = record { reads = []; writes = [] }; random = [] }

-- The first message is sent, and no answer comes.
abbrev hangs_up : Attempt open_library
hangs_up = record {
  dialed = some 4;
  script = record { reads = []; writes = true ∷ [] };
  random = [];
}

hangs_up_lem : shake_hands open_library hangs_up (new open_library no_key) ≡ err read_failed
unfolding follow sdk_client_handshake ◌>>=◌
hangs_up_lem = refl

abbrev three_times : ReconnectConfig
three_times = record {
  initial_delay = 5;
  max_delay = 8;
  scale = λ d. d;
  jitter = λ d. d;
  max_attempts = 3;
}

reconnect_ends_example : Ends open_library three_times 8 3 (
    connect_with_reconnect open_library three_times three_times no_server
      (λ k. false)
      3
      (new open_library no_key))
reconnect_ends_example =
    reconnect_ends open_library three_times three_times no_server (λ k. false)
      (new open_library no_key) 8 (omega arith) (omega arith) (omega arith) (omega arith)

-- QUIC with a connection but no stream.
abbrev no_stream : Quic
no_stream = record { connection = λ c. some 7; stream = λ c. none; remote_addr = λ c. [] }

abbrev over_quic_only : Net
over_quic_only = record { websocket = λ a. none; quic = λ a. no_stream }

abbrev quic_config : Config
quic_config = record {
  server_addr = codes "host";
  transport_type = codes "quic";
  tls_skip_verify = false;
  reconnect = three_times;
}

dial-IsAccounted_example : IsAccounted (dial over_quic_only quic_config (3 ∷ [])) (3 ∷ [])
dial-IsAccounted_example = dial-IsAccounted over_quic_only quic_config (3 ∷ [])
