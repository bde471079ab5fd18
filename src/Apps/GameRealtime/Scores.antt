-- ===== src/Apps/GameRealtime/Scores.antt =====
-- The steps of the world of the game server (examples/game-realtime/server.go) keep its invariant.
use fproto.Base.{◌≡◌, ◌≤◌, ◌^◌, refl, false, Option, none, some, arith, Bytes, length, lookup}
use fproto.Apps.GameRealtime.{
  Floats, GameAction, PlayerState, GameWorld, new_world, spawn, spawned, apply_action, acting,
  attacked, hit, credited, put, moved, snapshot, hurt,
}
use fproto.Apps.GameRealtime.Entries.{total-assign_new, Each-assign, length-assign-le}
use fproto.Apps.GameRealtime.World.{
  IsSound, died, Inv, Step, Reach, joins, acts, looks, here, next, acting-Inv,
}

module _ {F : Type 0} (fl : Floats F) where
  spawn-Inv :
      (id : Bytes) (w : GameWorld F) → lookup id w.players ≡ none → Inv w → Inv (spawn fl id w)
  unfolding spawn
  spawn-Inv id w h v = record {
    sound =
        Each-assign IsSound id (spawned fl id) w.players
          (record { within = omega arith; tens = refl; lives = refl }) v.sound;
    scored = omega (
      arith,
      total-assign_new (λ p. p.score) id (spawned fl id) w.players h,
      total-assign_new died id (spawned fl id) w.players h,
      v.scored,
    );
  }

  Step-Inv : {w w' : GameWorld F} → Step fl w w' → length w.players ≤ 2 ^ 49 → Inv w → Inv w'
  unfolding apply_action snapshot
  Step-Inv (joins id w h) b v = spawn-Inv id w h v
  Step-Inv (acts a w) b v = acting-Inv fl a (lookup a.player_id w.players) w refl b v
  Step-Inv (looks w) b v = record { sound = v.sound; scored = v.scored }

  length-credited :
      (id : Bytes) (o : Option (PlayerState F)) (w : GameWorld F)
      → length w.players ≤ length (credited fl id o w).players
  length-credited id none w = omega arith
  length-credited id (some p) w = length-assign-le id _ w.players

  length-hit :
      (a : GameAction F) (target : PlayerState F) (w : GameWorld F)
      → length w.players ≤ length (hit fl a target w).players
  length-hit a target w =
      let wounded : PlayerState F = record target { health = hurt target.health } in
      let victim : PlayerState F = record target { health = hurt target.health; alive = false } in
      let after : GameWorld F = put fl a.target_id victim w in
      ground (
        arith,
        length-assign-le a.target_id wounded w.players,
        length-assign-le a.target_id victim w.players,
        length-credited a.player_id (lookup a.player_id after.players) after,
      )

  length-attacked :
      (a : GameAction F) (p : PlayerState F) (o : Option (PlayerState F)) (w : GameWorld F)
      → length w.players ≤ length (attacked fl p o a w).players
  length-attacked a p none w = omega arith
  length-attacked a p (some target) w = ground (arith, length-hit a target w)

  length-acting :
      (a : GameAction F) (o : Option (PlayerState F)) (w : GameWorld F)
      → length w.players ≤ length (acting fl o a w).players
  length-acting a none w = omega arith
  length-acting a (some p) w = ground (
    arith,
    length-assign-le a.player_id (moved fl p a.direction) w.players,
    length-attacked a p (lookup a.target_id w.players) w,
  )

  length-Step : {w w' : GameWorld F} → Step fl w w' → length w.players ≤ length w'.players
  unfolding apply_action snapshot spawn
  length-Step (joins id w h) = length-assign-le id _ w.players
  length-Step (acts a w) = length-acting a (lookup a.player_id w.players) w
  length-Step (looks w) = omega arith

  -- In a world that comes from one without players, each player has at most a hundred points of health, in tens,
  -- lives by having any, and the scores make a hundred points for each death.
  pub Reach-Inv : {w : GameWorld F} → Reach fl (new_world fl) w → length w.players ≤ 2 ^ 49 → Inv w
  Reach-Inv here b = record { sound = tt; scored = refl }
  Reach-Inv (next r s) b =
      Step-Inv s (omega (arith, length-Step s)) (Reach-Inv r (omega (arith, length-Step s)))
