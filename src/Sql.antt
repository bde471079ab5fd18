-- ===== src/Sql.antt =====
-- PostgreSQL as the services reach it through pgxpool. What a statement does to its tables is
-- translated from the SQL text in the source; how its execution ends is a parameter, the outcome.
use fproto.Base.{Result, ok, err}

pub data DbError : Type 0 where
  -- a constraint of the table refuses the statement
  violation : DbError
  -- no row, where Scan wants one
  no_rows : DbError
  -- Scan cannot store a column in its variable
  unscannable : DbError
  -- the server cannot be reached, or the connection is lost
  unavailable : DbError

-- `done`: the statement ran and its answer arrived. `refused`: it did not run. `lost`: it ran, and
-- the answer was lost. The client sees an error in the last two.
pub data Outcome : Type 0 where
  done refused lost : Outcome

abbrev pub Answer : Type 0 → Type 0
Answer T = Result DbError (Unit {0}) × T

abbrev pub answer_lost : {T : Type 0} → Answer T → Answer T
answer_lost (r, t) = (err unavailable, t)

-- pool.Exec: `f` is what the statement does when it runs.
abbrev pub exec : {T : Type 0} → Outcome → (T → Answer T) → T → Answer T
exec done f t = f t
exec refused f t = (err unavailable, t)
exec lost f t = answer_lost (f t)

-- An UPDATE or DELETE that no constraint can refuse.
abbrev pub always : {T : Type 0} → (T → T) → T → Answer T
always f t = (ok tt, f t)

-- pool.Query and QueryRow: a read, which changes nothing.
abbrev pub query : {A : Type 0} → Outcome → Result DbError A → Result DbError A
query done r = r
query refused r = err unavailable
query lost r = err unavailable
