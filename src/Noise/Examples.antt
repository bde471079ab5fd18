-- ===== src/Noise/Examples.antt =====
-- A handshake over a library that hides nothing.
use fproto.Base.{◌≡◌, refl, Bool, some, List, [], Bytes, ok, ℕ}
use fproto.Noise.{Session}
use fproto.Noise.Conversations.{connect}
use fproto.Noise.Handshakes.{server_handshake, client_handshake}
use fproto.Noise.Agreement.{talk, Understood, handshake-Understood}
use fproto.Noise.OpenLibrary.{open_library, open_library-IsXx, no_key, begun, waiting}

handshake-Understood_example :
    (a b : Session ℕ) × (connect
        (client_handshake open_library no_key [])
        (server_handshake open_library no_key [])
      ≡ some (ok a, ok b))
    × ((ms : List (Bool × Bytes)) → Understood open_library ms (talk open_library ms a b))
handshake-Understood_example =
    handshake-Understood open_library ◌≡◌ no_key no_key [] [] begun waiting open_library-IsXx refl
      refl
