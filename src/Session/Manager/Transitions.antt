-- ===== src/Session/Manager/Transitions.antt =====
-- What TransitionSession (proto-core/session/manager.go) returns and stores.
use fproto.Base.{
  ℕ, ◌≡◌, ◌≢◌, sym, subst, Bool-cases, inl, inr, refl, ◌∙◌, Option, none, some, Bytes, Result, ok,
  err, lookup, lookup-assign,
}
use fproto.Sql.{DbError, Outcome, done, refused, lost}
use fproto.Session.Machine.{
  Status, Event, packet_received, TransitionResult, InvalidTransition, transition,
}
use fproto.Session.Stores.{Session, Hash, RedisDb}
use fproto.Session.Stores.Redis
use fproto.Session.Manager.{
  World, Calls, on_redis, transition_session, after_get, after_transition, touched, after_status,
  after_delete,
}

abbrev Effect : Type 0
Effect = Result DbError (Unit {0}) × World

-- Redis holds a session with the status.
abbrev pub HasStatus : Bytes → Status → RedisDb → Type 0
HasStatus id s d = (h : Hash) × (lookup id d.sessions ≡ some h) × (h.status ≡ some s)

set_field-HasStatus :
    (id : Bytes) (f : Hash → Hash) (s : Status) (d : RedisDb)
    → ((h : Hash) → (f h).status ≡ h.status)
    → HasStatus id s d
    → HasStatus id s (Redis.set_field id f d)
unfolding Redis.hash_of
set_field-HasStatus id f s d same (h, e, q) =
    (f h, lookup-assign id _ d.sessions ∙ rw (e, Redis.hash_of) refl, same h ∙ q)

touch-HasStatus :
    (o : Outcome) (id : Bytes) (now : ℕ) (s : Status) (d : RedisDb)
    → HasStatus id s d
    → HasStatus id s (Redis.update_last_active o id now d).1
unfolding Redis.update_last_active
touch-HasStatus done id now s d h =
    set_field-HasStatus id (λ x. record x { last_active = some now }) s d (λ x. refl) h
touch-HasStatus refused id now s d h = h
touch-HasStatus lost id now s d h =
    set_field-HasStatus id (λ x. record x { last_active = some now }) s d (λ x. refl) h

touched-HasStatus :
    (calls : Calls) (now : ℕ) (event : Event) (id : Bytes) (s : Status) (w : World)
    → HasStatus id s w.redis
    → HasStatus id s (touched calls now event id w).redis
touched-HasStatus calls now event id s w h =
    elim event as (λ k. HasStatus id s (touched calls now k id w).redis) [
      | packet_received ↦ touch-HasStatus calls.touches id now s w.redis h
      | _ ↦ h
    ]

-- The new status in Redis, and what is returned.
abbrev Moved : Bytes → Session → TransitionResult → Session → World → Type 0
Moved id before r s w = (s ≡ record before { status = r.next }) × HasStatus id r.next w.redis

after_status-Moved :
    (o : Outcome) (calls : Calls) (now : ℕ) (event : Event) (id : Bytes) (before s : Session)
    (r : TransitionResult) (w : World)
    → before.session_id ≡ id
    → let a =
        after_status calls now event before r.next (on_redis (Redis.update_status o id r.next) w) in
      a.0 ≡ ok (some s) → Moved id before r s a.1
unfolding Redis.update_status
after_status-Moved done calls now event id before s r w own h =
    let w' : World = (on_redis (Redis.update_status done id r.next) w).1 in
    let hash : Hash = record (Redis.hash_of id w.redis) { status = some r.next } in
    (
      cc,
      subst (λ k. HasStatus id r.next (touched calls now event k w').redis) (sym own)
          (touched-HasStatus calls now event id r.next w'
            (hash, lookup-assign id hash w.redis.sessions, refl)),
    )
after_status-Moved refused calls now event id before s r w own h = cc
after_status-Moved lost calls now event id before s r w own h = cc

after_delete-none :
    (calls : Calls) (id : Bytes) (a : Effect) (s : Session)
    → (after_delete calls id a).0 ≢ ok (some s)
after_delete-none calls id (ok u, w) s h = cc
after_delete-none calls id (err e, w) s h = cc

after_transition-Moved :
    (calls : Calls) (now : ℕ) (event : Event) (id : Bytes) (before s : Session) (w : World)
    (t : Result InvalidTransition TransitionResult)
    → before.session_id ≡ id
    → (after_transition calls now event id before t w).0 ≡ ok (some s)
    → (r : TransitionResult) × (t ≡ ok r)
      × Moved id before r s (after_transition calls now event id before t w).1
after_transition-Moved calls now event id before s w (err e) own h = cc
after_transition-Moved calls now event id before s w (ok r) own h = elim (Bool-cases r.destroyed) [
  | inl e ↦ absurd (after_delete-none calls id _ s (rw e at h))
  | inr e ↦ (
    r,
    refl,
    rw e (after_status-Moved calls.writes calls now event id before s r w own (rw e at h)),
  )
]

get-session_id :
    (o oc : Outcome) (id : Bytes) (d : RedisDb) (s : Session)
    → Redis.get o oc id d ≡ ok s
    → s.session_id ≡ id
unfolding Redis.get Redis.read_session
get-session_id done oc id d s h = read (lookup id d.sessions) h
  where
    read : (m : Option Hash) → Redis.read_session oc id d m ≡ ok s → s.session_id ≡ id
    read none k = cc
    read (some x) k = cc
get-session_id refused oc id d s h = cc
get-session_id lost oc id d s h = cc

-- A transition that returns a session is one of the state machine, from the status that Redis held: the
-- session that Redis held is returned with the resulting status, and Redis holds that status
-- afterwards.
pub transition_session-transition :
    (calls : Calls) (now : ℕ) (id : Bytes) (event : Event) (w : World) (s : Session)
    → (transition_session calls now id event w).0 ≡ ok (some s)
    → (before : Session) × (r : TransitionResult) × (Redis.get calls.reads calls.reads_conns id
          w.redis
        ≡ ok before)
      × (transition before.status event ≡ ok r)
      × (s ≡ record before { status = r.next })
      × HasStatus id r.next (transition_session calls now id event w).1.redis
unfolding transition_session
transition_session-transition calls now id event w s h =
    from_get (Redis.get calls.reads calls.reads_conns id w.redis) refl h
  where
    from_get :
        (g : Result DbError Session)
        → Redis.get calls.reads calls.reads_conns id w.redis ≡ g
        → (after_get calls now event id w g).0 ≡ ok (some s)
        → (before : Session) × (r : TransitionResult) × (Redis.get calls.reads calls.reads_conns id
              w.redis
            ≡ ok before)
          × (transition before.status event ≡ ok r)
          × (s ≡ record before { status = r.next })
          × HasStatus id r.next (after_get calls now event id w g).1.redis
    from_get (err e) q h = cc
    from_get (ok before) q h =
        let own = get-session_id calls.reads calls.reads_conns id w.redis before q in
        let (r, allowed, (same, held)) =
          after_transition-Moved calls now event id before s w (transition before.status event) own
            h in
        (before, r, q, allowed, same, held)
