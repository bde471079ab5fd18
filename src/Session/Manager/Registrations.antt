-- ===== src/Session/Manager/Registrations.antt =====
-- What RegisterConnection (proto-core/session/manager.go) counts and stores.
use fproto.Base.{
  assign, length-map, length-assign-le_suc, ℕ, ◌+◌, ◌≤◌, ◌≡◌, suc, Bool-cases, inl, inr, refl, ap,
  ◌∙◌, some, arith, Bytes, ok, leb, length, lookup, lookup-assign,
}
use fproto.Sql.{Outcome, done, refused, lost}
use fproto.Session.Stores.{Connection}
use fproto.Session.Stores.Redis
use fproto.Session.Manager.{
  Config, World, Calls, on_redis, after_add, after_connections, register_connection,
}

-- What a registration leaves: the connection is held, with the others, and the count.
abbrev Counted : Config → Bytes → Connection → World → ℕ → World → Type 0
Counted config id c w k after =
    (k ≡ suc (length (Redis.conns_of id w.redis)))
    × (k ≤ config.max_connections)
    × (lookup c.connection_id (Redis.conns_of id after.redis) ≡ some c)
    × (length (Redis.conns_of id after.redis) ≤ k)

after_add-Counted :
    (o : Outcome) (config : Config) (id : Bytes) (c : Connection) (w : World)
    → length (Redis.conns_of id w.redis) + 1 ≤ config.max_connections
    → let a =
        after_add (length (Redis.conns_of id w.redis)) (on_redis (Redis.add_connection o id c) w) in
      a.1 ≡ ok tt → Counted config id c w a.0 a.2
unfolding Redis.add_connection
after_add-Counted done config id c w room h =
    let held : Redis.conns_of id (Redis.add_connection done id c w.redis).1
        ≡ assign c.connection_id c (Redis.conns_of id w.redis) =
      rw
        (
          lookup-assign id (assign c.connection_id c (Redis.conns_of id w.redis))
              w.redis.connections,
          Redis.conns_of,
        )
        refl in
    (
      omega arith,
      room,
      ap (lookup c.connection_id) held
          ∙ lookup-assign c.connection_id c (Redis.conns_of id w.redis),
      omega (
        arith,
        ap (λ m. length m) held,
        length-assign-le_suc c.connection_id c (Redis.conns_of id w.redis),
      ),
    )
after_add-Counted refused config id c w room h = cc
after_add-Counted lost config id c w room h = cc

after_connections-Counted :
    (o : Outcome) (config : Config) (calls : Calls) (id : Bytes) (c : Connection) (w : World)
    → let a = after_connections config calls id c w (Redis.get_connections o id w.redis) in
      a.1 ≡ ok tt → Counted config id c w a.0 a.2
unfolding Redis.get_connections
after_connections-Counted done config calls id c w h =
    let size = length-map (λ e. e.1) (Redis.conns_of id w.redis) in
    elim (Bool-cases (leb config.max_connections (length (Redis.conns_of id w.redis)))) [
      | inl full ↦ let k = rw (size, full) at h in cc
      | inr room ↦
          rw (size, room)
            (after_add-Counted calls.writes config id c w (ground arith) (rw (size, room) at h))
    ]
after_connections-Counted refused config calls id c w h = cc
after_connections-Counted lost config calls id c w h = cc

-- After a connection is registered Redis holds it, the session's connections are no more than the count
-- that is returned, one more than there were, and the count is within the limit.
pub register_connection-limit :
    (config : Config) (calls : Calls) (id : Bytes) (c : Connection) (w : World)
    → (register_connection config calls id c w).1 ≡ ok tt
    → let a = register_connection config calls id c w in
      (a.0 ≡ suc (length (Redis.conns_of id w.redis)))
      × (a.0 ≤ config.max_connections)
      × (lookup c.connection_id (Redis.conns_of id a.2.redis) ≡ some c)
      × (length (Redis.conns_of id a.2.redis) ≤ a.0)
unfolding register_connection
register_connection-limit config calls id c w h =
    after_connections-Counted calls.reads_conns config calls id c w h
