-- ===== src/Apps/GameRealtime/Deaths.antt =====
-- Nothing happens to a dead player of the game server (examples/game-realtime/server.go).
use fproto.Base.{
  ◌≡◌, refl, ◌∙◌, Bool, true, false, not, Option, none, some, arith, Bytes, lookup, bytes_equal,
  bytes_equal_iff, Bool-cases, inl, inr, lookup-assign_other, codes, ◌&&◌,
}
use fproto.Apps.GameRealtime.{
  Floats, GameAction, PlayerState, GameWorld, spawn, apply_action, acting, attacked, hit, credited,
  distance, snapshot, at_most_zero, hurt,
}
use fproto.Apps.GameRealtime.World.{Step, Reach, joins, acts, looks, here, next}

module _ {F : Type 0} (fl : Floats F) where
  true_of_not : (b : Bool) → not b ≡ false → b ≡ true
  true_of_not b h = ground arith

  and_left : (x y : Bool) → (x && y) ≡ true → x ≡ true
  and_left x y h = ground arith

  -- Who is dead and who is alive are two.
  dead-ne-alive :
      (j id : Bytes) (p q : PlayerState F) (w : GameWorld F)
      → lookup j w.players ≡ some q
      → q.alive ≡ true
      → lookup id w.players ≡ some p
      → p.alive ≡ false
      → bytes_equal j id ≡ false
  dead-ne-alive j id p q w hq l hp d = elim (Bool-cases (bytes_equal j id)) [
    | inl e ↦ let s : j ≡ id = (bytes_equal_iff j id).0 e in cc
    | inr e ↦ e
  ]

  credited-other :
      (j id : Bytes) (o : Option (PlayerState F)) (w : GameWorld F)
      → bytes_equal j id ≡ false
      → lookup id (credited fl j o w).players ≡ lookup id w.players
  credited-other j id none w e = refl
  credited-other j id (some q) w e = lookup-assign_other j id _ w.players e

  hit-other :
      (a : GameAction F) (target : PlayerState F) (id : Bytes) (w : GameWorld F)
      → bytes_equal a.player_id id ≡ false
      → bytes_equal a.target_id id ≡ false
      → lookup id (hit fl a target w).players ≡ lookup id w.players
  hit-other a target id w e f = elim (Bool-cases (at_most_zero (hurt target.health))) [
    | inl z ↦
        rw z
          (credited-other a.player_id id _ _ e ∙ lookup-assign_other a.target_id id _ w.players f)
    | inr z ↦ rw z (lookup-assign_other a.target_id id _ w.players f)
  ]

  module _ (id : Bytes) (p : PlayerState F) (d : p.alive ≡ false) where
    attacked-dead :
        (a : GameAction F) (q : PlayerState F) (o : Option (PlayerState F)) (w : GameWorld F)
        → lookup a.target_id w.players ≡ o
        → bytes_equal a.player_id id ≡ false
        → lookup id w.players ≡ some p
        → lookup id (attacked fl q o a w).players ≡ some p
    attacked-dead a q none w ht e h = h
    attacked-dead a q (some target) w ht e h =
        elim (Bool-cases (target.alive && fl.less (distance fl target q) fl.fifty)) [
          | inl f ↦ rw f (
              hit-other a target id w e
                (dead-ne-alive a.target_id id p target w ht (and_left target.alive _ f) h d)
              ∙ h)
          | inr f ↦ rw f h
        ]

    acting-dead :
        (a : GameAction F) (o : Option (PlayerState F)) (w : GameWorld F)
        → lookup a.player_id w.players ≡ o
        → lookup id w.players ≡ some p
        → lookup id (acting fl o a w).players ≡ some p
    acting-dead a none w hq h = h
    acting-dead a (some q) w hq h = elim (Bool-cases (not q.alive)) [
      | inl l ↦ rw l h
      | inr l ↦ rw l (elim (Bool-cases (bytes_equal a.action (codes "move"))) [
        | inl m ↦ rw m (lookup-assign_other a.player_id id _ w.players (other l) ∙ h)
        | inr m ↦ rw m (elim (Bool-cases (bytes_equal a.action (codes "attack"))) [
          | inl k ↦ rw k (attacked-dead a q (lookup a.target_id w.players) w refl (other l) h)
          | inr k ↦ rw k h
        ])
      ])
    ]
      where
        other : not q.alive ≡ false → bytes_equal a.player_id id ≡ false
        other l = dead-ne-alive a.player_id id p q w hq (true_of_not q.alive l) h d

    Step-dead :
        {w w' : GameWorld F}
        → Step fl w w'
        → lookup id w.players ≡ some p
        → lookup id w'.players ≡ some p
    unfolding apply_action snapshot spawn
    Step-dead (joins j w e) h =
        lookup-assign_other j id _ w.players (elim (Bool-cases (bytes_equal j id)) [
          | inl s ↦ let s' : j ≡ id = (bytes_equal_iff j id).0 s in cc
          | inr o ↦ o
        ])
        ∙ h
    Step-dead (acts a w) h = acting-dead a (lookup a.player_id w.players) w refl h
    Step-dead (looks w) h = h

    -- Nothing happens to a player who is dead.
    pub Reach-dead :
        {w w' : GameWorld F}
        → Reach fl w w'
        → lookup id w.players ≡ some p
        → lookup id w'.players ≡ some p
    Reach-dead here h = h
    Reach-dead (next r s) h = Step-dead s (Reach-dead r h)
