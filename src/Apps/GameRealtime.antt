-- ===== src/Apps/GameRealtime.antt =====
-- The game server (examples/game-realtime): the world, and the loop over the messages of a player.
-- Go's float64 is a parameter; its int and uint64 are the numbers below 2 ^ 64, int in two's complement.
-- A map is ranged over in the order of its list here.
mod Entries
pub mod World
pub mod Scores
pub mod Deaths
pub mod Histories
use fproto.Base.{
  ℕ, ◌≡◌, ◌+◌, ◌-◌, ◌%◌, ◌^◌, Bool, true, false, ◌&&◌, ◌||◌, Option, none, some, List, [], ◌∷◌, map,
  Bytes, codes, Result, ok, err, not, ltb, leb, ◌==◌, if◌then◌else◌, Map, lookup, assign,
  bytes_equal,
}
use fproto.Noise
use fproto.Noise.{Noise, Session, NoiseError}
use fproto.Apps.Frames.{
  Json, decode_frame, encoded, Ending, Served, closed, undecryptable, sends, sealed,
}

pub record Floats (F : Type 0) : Type 0 where
  pub zero_float : F
  pub five : F
  pub fifty : F
  pub add : F → F → F
  pub sub : F → F → F
  pub mul : F → F → F
  pub sqrt : F → F
  pub less : F → F → Bool

module _ (F : Type 0) where
  pub record Vec2 : Type 0 where
    pub x : F
    pub y : F

  pub record GameAction : Type 0 where
    pub player_id : Bytes
    pub action : Bytes
    pub direction : Vec2
    pub target_id : Bytes
    pub sequence_num : ℕ
    pub timestamp_ms : ℕ

  pub record PlayerState : Type 0 where
    pub player_id : Bytes
    pub position : Vec2
    pub health : ℕ
    pub score : ℕ
    pub alive : Bool

  pub record StateUpdate : Type 0 where
    pub tick : ℕ
    pub players : List PlayerState

  -- gameWorld.
  pub record GameWorld : Type 0 where
    pub players : Map PlayerState
    pub tick : ℕ

abbrev pub msg_game_action : ℕ
msg_game_action = 1

abbrev pub msg_state_update : ℕ
msg_state_update = 2

-- a - 10 and a + 100 on int, and a <= 0.
abbrev pub hurt : ℕ → ℕ
hurt a = (a + 2 ^ 64 - 10) % 2 ^ 64

abbrev pub rewarded : ℕ → ℕ
rewarded a = (a + 100) % 2 ^ 64

abbrev pub at_most_zero : ℕ → Bool
at_most_zero a = a == 0 || leb (2 ^ 63) a

module _ {F : Type 0} (fl : Floats F) where
  -- newWorld.
  abbrev pub new_world : GameWorld F
  new_world = record { players = []; tick = 0 }

  abbrev pub put : Bytes → PlayerState F → GameWorld F → GameWorld F
  put id p w = record w { players = assign id p w.players }

  abbrev pub spawned : Bytes → PlayerState F
  spawned id = record {
    player_id = id;
    position = record { x = fl.zero_float; y = fl.zero_float };
    health = 100;
    score = 0;
    alive = true;
  }

  unfoldable pub spawn : Bytes → GameWorld F → GameWorld F
  spawn id w = put id (spawned id) w

  abbrev pub moved : PlayerState F → Vec2 F → PlayerState F
  moved p d = record p {
    position = record {
      x = fl.add p.position.x (fl.mul d.x fl.five);
      y = fl.add p.position.y (fl.mul d.y fl.five);
    };
  }

  abbrev pub distance : PlayerState F → PlayerState F → F
  distance target p =
      let dx = fl.sub target.position.x p.position.x in
      let dy = fl.sub target.position.y p.position.y in
      fl.sqrt (fl.add (fl.mul dx dx) (fl.mul dy dy))

  -- p.Score += 100, where p may be the target itself.
  abbrev pub credited : Bytes → Option (PlayerState F) → GameWorld F → GameWorld F
  credited id none w = w
  credited id (some p) w = put id (record p { score = rewarded p.score }) w

  abbrev pub credit : Bytes → GameWorld F → GameWorld F
  credit id w = credited id (lookup id w.players) w

  abbrev pub hit : GameAction F → PlayerState F → GameWorld F → GameWorld F
  hit a target w =
      if at_most_zero (hurt target.health)
      then credit a.player_id
          (put a.target_id (record target { health = hurt target.health; alive = false }) w)
      else put a.target_id (record target { health = hurt target.health }) w

  abbrev pub attacked :
      PlayerState F → Option (PlayerState F) → GameAction F → GameWorld F → GameWorld F
  attacked p none a w = w
  attacked p (some target) a w =
      if target.alive && fl.less (distance target p) fl.fifty then hit a target w else w

  abbrev pub acting : Option (PlayerState F) → GameAction F → GameWorld F → GameWorld F
  acting none a w = w
  acting (some p) a w =
      if not p.alive
      then w
      else if bytes_equal a.action (codes "move")
      then put a.player_id (moved p a.direction) w
      else if bytes_equal a.action (codes "attack")
      then attacked p (lookup a.target_id w.players) a w
      else w

  unfoldable pub apply_action : GameAction F → GameWorld F → GameWorld F
  apply_action a w = acting (lookup a.player_id w.players) a w

  unfoldable pub snapshot : GameWorld F → StateUpdate F × GameWorld F
  snapshot w =
      let tick = (w.tick + 1) % 2 ^ 64 in
      (record { tick = tick; players = map (λ e. e.1) w.players }, record w { tick = tick })

  -- What other connections make of the world while this one waits.
  abbrev pub Meanwhile : Type 0
  Meanwhile = GameWorld F → GameWorld F

  -- A message that is read: what the others do before its turn, and between its action and the
  -- snapshot that it is answered with.
  pub record Read : Type 0 where
    pub ciphertext : Bytes
    pub before : Meanwhile
    pub between : Meanwhile

  module _ {Handshake Cipher : Type 0} (n : Noise Handshake Cipher) (actions : Json (GameAction F))
      (updates : Json (StateUpdate F)) where
    abbrev pub Rest : Type 0
    Rest = Session Cipher → GameWorld F → Served (GameWorld F)

    abbrev pub answered : Session Cipher → StateUpdate F × GameWorld F → Rest → Served (GameWorld F)
    answered s (update, w) rest =
        let (ct, s') = sealed n (encoded msg_state_update (updates.marshal update)) s in
        sends ct (rest s' w)

    abbrev pub acted :
        Bytes
        → Option (GameAction F)
        → Meanwhile
        → Session Cipher
        → GameWorld F
        → Rest
        → Served (GameWorld F)
    acted id none between s w rest = rest s w
    acted id (some a) between s w rest =
        answered s (snapshot (between (apply_action (record a { player_id = id }) w))) rest

    abbrev pub received :
        Bytes
        → Option (ℕ × Bytes)
        → Meanwhile
        → Session Cipher
        → GameWorld F
        → Rest
        → Served (GameWorld F)
    received id none between s w rest = rest s w
    received id (some (kind, payload)) between s w rest =
        if kind == msg_game_action
        then acted id (actions.unmarshal payload) between s w rest
        else answered s (snapshot (between w)) rest

    abbrev pub opened :
        Bytes
        → Meanwhile
        → Result NoiseError Bytes × Session Cipher
        → GameWorld F
        → Rest
        → Served (GameWorld F)
    opened id between (err e, s) w rest = ([], undecryptable, w)
    opened id between (ok plaintext, s) w rest =
        received id (decode_frame plaintext) between s w rest

    -- The loop of handlePlayer over what is read until a read fails.
    unfoldable pub serve : Bytes → List Read → Rest
    serve id [] s w = ([], closed, w)
    serve id (m ∷ ms) s w =
        opened id m.between (Noise.decrypt n m.ciphertext s) (m.before w) (serve id ms)

    unfoldable pub handle_player :
        Bytes → Result NoiseError (Session Cipher) → List Read → GameWorld F → Served (GameWorld F)
    handle_player id (err e) ms w = ([], closed, w)
    handle_player id (ok s) ms w = serve id ms s (spawn id w)
