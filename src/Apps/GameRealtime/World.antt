-- ===== src/Apps/GameRealtime/World.antt =====
-- What holds of the world of the game server (examples/game-realtime/server.go) after any steps.
use fproto.Base.{
  length-assign-le_suc, ℕ, ◌≡◌, ◌≢◌, ◌≤◌, ◌+◌, ◌*◌, ◌%◌, ◌^◌, refl, ap, Bool, true, false, not,
  Option, none, some, arith, Bytes, ltb, if◌then◌else◌, length, lookup, assign, bytes_equal,
  Bool-cases, Option-cases, inl, inr, codes, ◌&&◌,
}
use fproto.Apps.GameRealtime.{
  Floats, Vec2, GameAction, PlayerState, GameWorld, spawn, apply_action, acting, attacked, hit,
  credit, put, moved, distance, snapshot, at_most_zero, hurt, rewarded,
}
use fproto.Apps.GameRealtime.Entries.{
  total, total-assign, le-total, Each, Each-assign, Each-lookup, lookup-assign-ne-none,
  total-le_length,
}

abbrev deaths : Bool → ℕ
deaths alive = if alive then 0 else 1

module _ {F : Type 0} where
  -- A player has between nothing and a hundred points of health, in tens, and lives by having any.
  pub record IsSound (p : PlayerState F) : Type 0 where
    pub within : p.health ≤ 100
    pub tens : p.health % 10 ≡ 0
    pub lives : p.alive ≡ ltb 0 p.health

  abbrev pub died : PlayerState F → ℕ
  died p = deaths p.alive

  abbrev pub dead : GameWorld F → ℕ
  dead w = total died w.players

  abbrev pub scores : GameWorld F → ℕ
  scores w = total (λ p. p.score) w.players

  -- Every death has been worth a hundred points to somebody, and nothing else has been.
  pub record Inv (w : GameWorld F) : Type 0 where
    pub sound : Each IsSound w.players
    pub scored : scores w ≡ 100 * dead w

  put-Inv :
      (id : Bytes) (old new : PlayerState F) (w : GameWorld F)
      → lookup id w.players ≡ some old
      → new.score ≡ old.score
      → new.alive ≡ old.alive
      → IsSound new
      → Inv w
      → Inv (record w { players = assign id new w.players })
  put-Inv id old new w h s l n v = record {
    sound = Each-assign IsSound id new w.players n v.sound;
    scored = omega (
      arith,
      total-assign (λ p. p.score) id old new w.players h,
      total-assign died id old new w.players h,
      ap deaths l,
      s,
      v.scored,
    );
  }

  died-le : (p : PlayerState F) → died p ≤ 1
  died-le p = ground arith

module _ {F : Type 0} (fl : Floats F) where
  -- Another player joins, a player acts, or the server takes a snapshot.
  pub data Step : GameWorld F → GameWorld F → Type 0 where
    joins : (id : Bytes) (w : GameWorld F) → lookup id w.players ≡ none → Step w (spawn fl id w)
    acts : (a : GameAction F) (w : GameWorld F) → Step w (apply_action fl a w)
    looks : (w : GameWorld F) → Step w (snapshot fl w).1

  pub data Reach (w : GameWorld F) : GameWorld F → Type 0 where
    here : Reach w w
    next : {u v : GameWorld F} → Reach w u → Step u v → Reach w v

  same_health : {p : PlayerState F} {k : ℕ} → IsSound p → IsSound (record p { score = k })
  same_health v = record { within = v.within; tens = v.tens; lives = v.lives }

  same_place : {p : PlayerState F} {q : Vec2 F} → IsSound p → IsSound (record p { position = q })
  same_place v = record { within = v.within; tens = v.tens; lives = v.lives }

  hurt_to_death :
      (p : PlayerState F)
      → IsSound p
      → p.alive ≡ true
      → at_most_zero (hurt p.health) ≡ true
      → IsSound (record p { health = hurt p.health; alive = false })
  hurt_to_death p v l z = ground arith

  hurt_and_alive :
      (p : PlayerState F)
      → IsSound p
      → p.alive ≡ true
      → at_most_zero (hurt p.health) ≡ false
      → IsSound (record p { health = hurt p.health })
  hurt_and_alive p v l z = ground arith

  -- A kill is credited.
  credit-Inv :
      (id : Bytes) (w : GameWorld F)
      → lookup id w.players ≢ none
      → Each IsSound w.players
      → scores w + 100 ≡ 100 * dead w
      → length w.players ≤ 2 ^ 50
      → Inv (credit fl id w)
  credit-Inv id w h s e b = elim (Option-cases (lookup id w.players)) [
    | inl absent ↦ absurd (h absent)
    | inr (p, found) ↦ rw found (record {
      sound =
          Each-assign IsSound id (record p { score = rewarded p.score }) w.players
            (same_health (Each-lookup IsSound id p w.players found s)) s;
      scored = omega (
        arith,
        total-assign (λ q. q.score) id p (record p { score = rewarded p.score }) w.players found,
        total-assign died id p (record p { score = rewarded p.score }) w.players found,
        le-total (λ q. q.score) id p w.players found,
        total-le_length died died-le w.players,
        e,
        b,
      );
    })
  ]

  -- The hit that makes a player die.
  killed-Inv :
      (id target_id : Bytes) (target : PlayerState F) (w : GameWorld F)
      → lookup id w.players ≢ none
      → lookup target_id w.players ≡ some target
      → target.alive ≡ true
      → at_most_zero (hurt target.health) ≡ true
      → length w.players ≤ 2 ^ 49
      → Inv w
      → Inv (
          credit fl id
            (put fl target_id (record target { health = hurt target.health; alive = false }) w))
  killed-Inv id target_id target w hp ht l z b v =
      credit-Inv id (put fl target_id victim w)
        (lookup-assign-ne-none target_id id victim w.players hp)
        (Each-assign IsSound target_id victim w.players
          (hurt_to_death target (Each-lookup IsSound target_id target w.players ht v.sound) l z)
          v.sound)
        (omega (
          arith,
          total-assign (λ q. q.score) target_id target victim w.players ht,
          total-assign died target_id target victim w.players ht,
          ap deaths l,
          v.scored,
        ))
        (omega (arith, length-assign-le_suc target_id victim w.players))
    where
      victim : PlayerState F
      victim = record target { health = hurt target.health; alive = false }

  hit-Inv :
      (a : GameAction F) (target : PlayerState F) (w : GameWorld F)
      → lookup a.player_id w.players ≢ none
      → lookup a.target_id w.players ≡ some target
      → target.alive ≡ true
      → length w.players ≤ 2 ^ 49
      → Inv w
      → Inv (hit fl a target w)
  hit-Inv a target w hp ht l b v = elim (Bool-cases (at_most_zero (hurt target.health))) [
    | inl z ↦ rw z (killed-Inv a.player_id a.target_id target w hp ht l z b v)
    | inr z ↦ rw z (
        put-Inv a.target_id target (record target { health = hurt target.health }) w ht refl refl
          (hurt_and_alive target (Each-lookup IsSound a.target_id target w.players ht v.sound) l z)
          v)
  ]

  attacked-Inv :
      (a : GameAction F) (p : PlayerState F) (o : Option (PlayerState F)) (w : GameWorld F)
      → lookup a.player_id w.players ≢ none
      → lookup a.target_id w.players ≡ o
      → length w.players ≤ 2 ^ 49
      → Inv w
      → Inv (attacked fl p o a w)
  attacked-Inv a p none w hp ht b v = v
  attacked-Inv a p (some target) w hp ht b v =
      elim (Bool-cases (target.alive && fl.less (distance fl target p) fl.fifty)) [
        | inl h ↦ rw h (hit-Inv a target w hp ht (both target.alive _ h) b v)
        | inr h ↦ rw h v
      ]
    where
      both : (x y : Bool) → (x && y) ≡ true → x ≡ true
      both x y h = ground arith

  pub acting-Inv :
      (a : GameAction F) (o : Option (PlayerState F)) (w : GameWorld F)
      → lookup a.player_id w.players ≡ o
      → length w.players ≤ 2 ^ 49
      → Inv w
      → Inv (acting fl o a w)
  acting-Inv a none w h b v = v
  acting-Inv a (some p) w h b v = elim (Bool-cases (not p.alive)) [
    | inl d ↦ rw d v
    | inr d ↦ rw d (elim (Bool-cases (bytes_equal a.action (codes "move"))) [
      | inl m ↦ rw m (
          put-Inv a.player_id p (moved fl p a.direction) w h refl refl
            (same_place (Each-lookup IsSound a.player_id p w.players h v.sound)) v)
      | inr m ↦ rw m (elim (Bool-cases (bytes_equal a.action (codes "attack"))) [
        | inl k ↦ rw k (attacked-Inv a p (lookup a.target_id w.players) w (λ e. cc) refl b v)
        | inr k ↦ rw k v
      ])
    ])
  ]
