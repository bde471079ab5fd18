-- ===== src/Session/Manager/Laws.antt =====
-- What CreateSession (proto-core/session/manager.go) stores and reports.
use fproto.Base.{ℕ, ◌≡◌, refl, ap, ◌∙◌, Option, none, some, Bytes, err, lookup, lookup-assign}
use fproto.Sql.{DbError, violation, unavailable, Outcome, done, refused, lost}
use fproto.Session.Stores.{Hash, RedisDb, PgDb}
use fproto.Session.Stores.Redis
use fproto.Session.Stores.Pg
use fproto.Session.Manager.{
  Config, Calls, pg_failed, on_pg, new_session, create_session, after_pg_create,
}

-- PostgreSQL refuses the new session, and Redis is not asked again.
after_pg_create_nil :
    (o : Outcome) (config : Config) (now : ℕ) (id : Bytes) (u dv : Option Bytes) (d : RedisDb)
    (t : PgDb)
    → let s = new_session config now id u dv in
      let a = after_pg_create s (on_pg (Pg.create o s) (record { redis = d; pg = some t })) in
      ((x : DbError) × (a.0 ≡ err (pg_failed x))) × (a.1.redis ≡ d)
unfolding Pg.create Pg.insert_row new_session
after_pg_create_nil done config now id none dv d t = ((violation, refl), refl)
after_pg_create_nil done config now id (some u) none d t = ((violation, refl), refl)
after_pg_create_nil done config now id (some u) (some dv) d t = ((violation, refl), refl)
after_pg_create_nil refused config now id u dv d t = ((unavailable, refl), refl)
after_pg_create_nil lost config now id none dv d t = ((unavailable, refl), refl)
after_pg_create_nil lost config now id (some u) none d t = ((unavailable, refl), refl)
after_pg_create_nil lost config now id (some u) (some dv) d t = ((unavailable, refl), refl)

-- A manager with PostgreSQL never creates a session: the column crypto_state must not be NULL, and
-- the new session has none. If the write to Redis succeeds, Redis holds a session of that id,
-- although the caller gets an error.
pub create_session-pg :
    (config : Config) (calls : Calls) (now : ℕ) (id : Bytes) (u dv : Option Bytes) (d : RedisDb)
    (t : PgDb)
    → calls.writes ≡ done
    → let a = create_session config calls now (some id) u dv (record { redis = d; pg = some t }) in
      ((x : DbError) × (a.0 ≡ err (pg_failed x)))
      × ((h : Hash) × (lookup id a.1.redis.sessions ≡ some h))
unfolding create_session Redis.create new_session
create_session-pg config calls now id u dv d t hw = rw hw (
    let (failed, same) = after_pg_create_nil calls.pg_calls config now id u dv _ t in
    (failed, (_, ap (λ x. lookup id x.sessions) same ∙ lookup-assign id _ d.sessions)))
