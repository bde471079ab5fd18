-- ===== src/Apps/GameRealtime/Histories.antt =====
-- The connections that make histories of the world of the game server
-- (examples/game-realtime/server.go).
use fproto.Base.{
  ℕ, ◌≡◌, ◌≤◌, ◌^◌, false, Option, none, some, List, [], ◌∷◌, Bytes, length, All, lookup,
  Bool-cases, inl, inr, Result, ok, err, ◌==◌,
}
use fproto.Noise
use fproto.Noise.{Noise, Session, NoiseError}
use fproto.Apps.Frames.{Json, decode_frame}
use fproto.Apps.GameRealtime.{
  Floats, GameAction, PlayerState, GameWorld, StateUpdate, Read, new_world, spawn, snapshot,
  msg_game_action, acted, received, opened, serve, answered, handle_player,
}
use fproto.Apps.GameRealtime.World.{Inv, Reach, joins, acts, looks, here, next}
use fproto.Apps.GameRealtime.Scores.{Reach-Inv}
use fproto.Apps.GameRealtime.Deaths.{Reach-dead}

module _ {F : Type 0} (fl : Floats F) where
  Reach-trans : {u v w : GameWorld F} → Reach fl u v → Reach fl v w → Reach fl u w
  Reach-trans r here = r
  Reach-trans r (next q s) = next (Reach-trans r q) s

  -- What others do to the world while a connection waits are such steps.
  abbrev pub IsPlay : Read fl → Type 0
  IsPlay m =
      ((w : GameWorld F) → Reach fl w (m.before w)) × ((w : GameWorld F) → Reach fl w (m.between w))

  module _ {Handshake Cipher : Type 0} (n : Noise Handshake Cipher) (actions : Json (GameAction F))
      (updates : Json (StateUpdate F)) (id : Bytes) where
    abbrev Plays : List (Read fl) → Type 0
    Plays ms =
        (s : Session Cipher) (w : GameWorld F) → Reach fl w (serve fl n actions updates id ms s w).2

    snapshot-Reach :
        {v : GameWorld F} (ms : List (Read fl)) (s : Session Cipher) (w : GameWorld F)
        → Plays ms
        → Reach fl v w
        → Reach fl v
            (answered fl n actions updates s (snapshot fl w) (serve fl n actions updates id ms)).2
    snapshot-Reach ms s w ih r = Reach-trans (next r (looks w)) (ih _ _)

    received-Reach :
        (f : Option (ℕ × Bytes)) (m : Read fl) (ms : List (Read fl)) (s : Session Cipher)
        (w : GameWorld F)
        → IsPlay m
        → Plays ms
        → Reach fl w
            (received fl n actions updates id f m.between s w (serve fl n actions updates id ms)).2
    received-Reach none m ms s w p ih = ih s w
    received-Reach (some (kind, payload)) m ms s w p ih =
        elim (Bool-cases (kind == msg_game_action)) [
          | inl e ↦ rw e (acted-Reach (actions.unmarshal payload))
          | inr e ↦ rw e (snapshot-Reach ms s (m.between w) ih (p.1 w))
        ]
      where
        acted-Reach :
            (o : Option (GameAction F))
            → Reach fl w
                (acted fl n actions updates id o m.between s w (serve fl n actions updates id ms)).2
        acted-Reach none = ih s w
        acted-Reach (some a) =
            snapshot-Reach ms s _ ih
              (Reach-trans (next here (acts (record a { player_id = id }) w)) (p.1 _))

    opened-Reach :
        (r : Result NoiseError Bytes × Session Cipher) (m : Read fl) (ms : List (Read fl))
        (w : GameWorld F)
        → IsPlay m
        → Plays ms
        → Reach fl w
            (opened fl n actions updates id m.between r w (serve fl n actions updates id ms)).2
    opened-Reach (err e, s) m ms w p ih = here
    opened-Reach (ok pt, s) m ms w p ih = received-Reach (decode_frame pt) m ms s w p ih

    serve-Reach : (ms : List (Read fl)) → All IsPlay ms → Plays ms
    unfolding serve
    serve-Reach [] p s w = here
    serve-Reach (m ∷ ms) p s w =
        Reach-trans (p.0.0 w)
          (opened-Reach (Noise.decrypt n m.ciphertext s) m ms (m.before w) p.0 (serve-Reach ms p.1))

    -- After a connection of a player that was not in the world, with others that play meanwhile, the
    -- scores of all players still make a hundred points for each death, and who had been dead is
    -- as before.
    pub handle_player-Inv :
        (r : Result NoiseError (Session Cipher)) (ms : List (Read fl)) (w : GameWorld F)
        → Reach fl (new_world fl) w
        → lookup id w.players ≡ none
        → All IsPlay ms
        → let w' : GameWorld F = (handle_player fl n actions updates id r ms w).2 in
          (length w'.players ≤ 2 ^ 49 → Inv w')
          × ((j : Bytes) (p : PlayerState F)
              → lookup j w.players ≡ some p
              → p.alive ≡ false
              → lookup j w'.players ≡ some p)
    unfolding handle_player
    handle_player-Inv (err e) ms w r h p = (Reach-Inv fl r, λ j q a b. a)
    handle_player-Inv (ok s) ms w r h p =
        let played = Reach-trans (next here (joins id w h)) (serve-Reach ms p s (spawn fl id w)) in
        (Reach-Inv fl (Reach-trans r played), λ j q a b. Reach-dead fl j q b played a)
