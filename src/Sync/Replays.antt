-- ===== src/Sync/Replays.antt =====
-- What the sync service (server/internal/sync) does with the records that Kafka delivers to it again in
-- every session.
pub mod Marks
use fproto.Base.{ℕ, ◌≢◌, ◌+◌, ◌-◌, Bool, true, false, some, List, [], ◌∷◌, Bytes, Result, err, All}
use fproto.Sql.{Outcome}
use fproto.Sync.Dedup.{RedisError, has, mark}
use fproto.Sync.Handler.{ConsumerMessage, Env, World, HandleError, waited, handle}
use fproto.Sync.Replays.Marks.{Settled, Keeps, Same, Lasts}

-- The records of a claim, with their offsets, the time before each, and how their inserts end.
abbrev pub Claim : Type 0
Claim = List (ℕ × (ℕ × (Outcome × ConsumerMessage)))

abbrev pub claim_time : Claim → ℕ
claim_time [] = 0
claim_time ((offset, (t, r)) ∷ ms) = t + claim_time ms

-- The time that some sessions take.
abbrev pub elapsed : List Claim → ℕ
elapsed [] = 0
elapsed (ms ∷ logs) = claim_time ms + elapsed logs

module _ (env : Env) where
  open env use {redis}

  -- Handle, some time after the record before it.
  abbrev pub delayed :
      ℕ × (Outcome × ConsumerMessage)
      → World redis.Db
      → Result HandleError (Unit {0}) × World redis.Db
  delayed (t, (o, msg)) w = handle env o msg (waited env t w)

  module _
      (answers : (d : redis.Db) (k : Bytes) (e : RedisError) → (mark redis d k).0 ≢ err e) where
    -- A claim or a record that leaves the world `v` of `w`.
    abbrev Handled : (redis.Db → Type 0) → ℕ → World redis.Db → World redis.Db → Type 0
    Handled Done b w v =
        Done v.db × Keeps env w.db v.db × (Done w.db → Same env w v) × Lasts env b v.db

    abbrev AllSettled : redis.Db → Claim → Type 0
    AllSettled d ms = All (λ r. Settled env d r.1.1.1) ms
