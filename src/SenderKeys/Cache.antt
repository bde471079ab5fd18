-- ===== src/SenderKeys/Cache.antt =====
-- server/internal/senderkeys/store.go: the hash that Redis keeps for a group, with the time at which it
-- expires. A field is kept as what encoding/json reads it as, `none` where it refuses the text; what
-- Marshal writes is read back as it was. A pipeline runs as a whole or not at all.
use mathlib.Core.Path.{ap₂}
use fproto.Base.{
  ℕ, ◌+◌, ◌<◌, ◌≡◌, ◌≢◌, refl, sym, ap, ◌∙◌, false, Option, none, some, [], ◌∷◌, ◌++◌, Bytes,
  Result, ok, err, codes, ltb, lt→ltb, if◌then◌else◌, bytes_equal, Map, lookup, assign, unassign,
  lookup-assign, lookup-unassign, lookup-unassign_other, IsBytes, bytes_equal_iff, decode_string,
  decode_string-encode_to_string, length-append, take-length_append, encode_to_string, arith,
  length, take, drop, inl, inr, Bool-cases,
}
use fproto.Message.{bytes_of}
use fproto.Sql.{Outcome, done, refused, lost, Answer, exec, always}

abbrev pub cache_ttl : ℕ
cache_ttl = 3600

pub record CachedKey : Type 0 where
  pub key_id : ℕ
  pub chain_key : Option Bytes
  pub signing_key : Option Bytes

abbrev pub Fields : Type 0
Fields = Map (Option CachedKey)

-- A hash, and when it expires; a hash that the program did not set an expiry for has none.
pub record Hash : Type 0 where
  pub fields : Fields
  pub expires_at : Option ℕ

abbrev pub Redis : Type 0
Redis = Map Hash

pub data CacheError : Type 0 where
  redis_failed : CacheError
  bad_json : CacheError

unfoldable pub cache_key : Bytes → Bytes
cache_key group = codes "group:" ++ (encode_to_string group ++ codes ":sender_keys")

-- The fields at a time: none once the hash has expired.
abbrev pub live : ℕ → Fields → Option ℕ → Fields
live now fs none = fs
live now fs (some t) = if ltb now t then fs else []

abbrev pub fields_of : ℕ → Option Hash → Fields
fields_of now none = []
fields_of now (some h) = live now h.fields h.expires_at

abbrev pub fields_at : ℕ → Bytes → Redis → Fields
fields_at now key r = fields_of now (lookup key r)

-- Set: HSET and EXPIRE.
unfoldable pub set : Outcome → ℕ → Option Bytes → Option Bytes → CachedKey → Redis → Answer Redis
set o now group user ck = exec o (
    always (λ r.
      let key = cache_key (bytes_of group) in
      assign key
        (record {
          fields = assign (encode_to_string (bytes_of user)) (some ck) (fields_at now key r);
          expires_at = some (now + cache_ttl);
        })
        r))

-- The answer to HGET, read as JSON.
abbrev decoded : Option (Option CachedKey) → Result CacheError (Option CachedKey)
decoded none = ok none
decoded (some none) = err bad_json
decoded (some (some ck)) = ok (some ck)

-- Get: `ok none` for a key that is not there.
unfoldable pub get :
    Outcome → ℕ → Option Bytes → Option Bytes → Redis → Result CacheError (Option CachedKey)
get done now group user r =
    decoded
      (lookup (encode_to_string (bytes_of user)) (fields_at now (cache_key (bytes_of group)) r))
get refused now group user r = err redis_failed
get lost now group user r = err redis_failed

-- A hash without fields is removed.
abbrev with_fields : Bytes → Fields → Hash → Redis → Redis
with_fields key [] h r = unassign key r
with_fields key (f ∷ fs) h r = assign key (record h { fields = f ∷ fs }) r

-- Delete: HDEL.
unfoldable pub delete : Outcome → ℕ → Option Bytes → Option Bytes → Redis → Answer Redis
delete o now group user = exec o (
    always (λ r.
      let key = cache_key (bytes_of group) in
      elim (lookup key r) [
        | none ↦ r
        | some h ↦
            with_fields key
              (unassign (encode_to_string (bytes_of user)) (live now h.fields h.expires_at)) h r
      ]))

-- DeleteAll: DEL.
unfoldable pub delete_all : Outcome → Option Bytes → Redis → Answer Redis
delete_all o group = exec o (always (unassign (cache_key (bytes_of group))))

live_until : (now t : ℕ) (fs : Fields) → now < t → live now fs (some t) ≡ fs
live_until now t fs h = ground (arith, lt→ltb now t h)

exec-ok :
    (o : Outcome) (f : Redis → Redis) (r after : Redis)
    → exec o (always f) r ≡ (ok tt, after)
    → after ≡ f r
exec-ok done f r after h = cc
exec-ok refused f r after h = absurd cc
exec-ok lost f r after h = absurd cc

-- A Set that returned no error is what Get returns for the next hour, if Redis answers it.
pub get-set :
    (o : Outcome) (now later : ℕ) (group user : Option Bytes) (ck : CachedKey) (r after : Redis)
    → set o now group user ck r ≡ (ok tt, after)
    → later < now + cache_ttl
    → get done later group user after ≡ ok (some ck)
unfolding get set
get-set o now later group user ck r after h l =
    let key : Bytes = cache_key (bytes_of group) in
    let field : Bytes = encode_to_string (bytes_of user) in
    let fs : Fields = assign field (some ck) (fields_at now key r) in
    rw (exec-ok o _ r after h) (
      rw (lookup-assign key (record { fields = fs; expires_at = some (now + cache_ttl) }) r) (
        rw (live_until later (now + cache_ttl) fs l)
          (rw (lookup-assign field (some ck) (fields_at now key r)) refl)))

cache_key_injective : (g g' : Bytes) → IsBytes g → IsBytes g' → cache_key g ≡ cache_key g' → g ≡ g'
unfolding cache_key
cache_key_injective g g' b b' h =
    let suffixed : encode_to_string g ++ codes ":sender_keys"
        ≡ encode_to_string g' ++ codes ":sender_keys" =
      ap (drop 6) h in
    let n : length (encode_to_string g) ≡ length (encode_to_string g') = omega (
      arith,
      ap length suffixed,
      length-append (encode_to_string g) (codes ":sender_keys"),
      length-append (encode_to_string g') (codes ":sender_keys"),
    ) in
    let same : encode_to_string g ≡ encode_to_string g' =
      sym (take-length_append (encode_to_string g) (codes ":sender_keys"))
      ∙ ap₂ take n suffixed
      ∙ take-length_append (encode_to_string g') (codes ":sender_keys") in
    let e : some g ≡ some g' =
      sym (decode_string-encode_to_string g b)
      ∙ ap decode_string same
      ∙ decode_string-encode_to_string g' b' in
    cc

other_key :
    (g g' : Bytes)
    → IsBytes g
    → IsBytes g'
    → g ≢ g'
    → bytes_equal (cache_key g) (cache_key g') ≡ false
other_key g g' b b' h = elim (Bool-cases (bytes_equal (cache_key g) (cache_key g'))) [
  | inl e ↦ absurd (h (cache_key_injective g g' b b' ((bytes_equal_iff _ _).0 e)))
  | inr e ↦ e
]

-- A DeleteAll that returned no error leaves no key of the group: Get, if Redis answers it, finds none
-- for any user at any time. What Get returns for the other groups is as it was.
pub get-delete_all :
    (o og : Outcome) (now : ℕ) (group other user : Option Bytes) (r after : Redis)
    → IsBytes (bytes_of group)
    → IsBytes (bytes_of other)
    → bytes_of group ≢ bytes_of other
    → delete_all o group r ≡ (ok tt, after)
    → (get done now group user after ≡ ok none)
      × (get og now other user after ≡ get og now other user r)
unfolding get delete_all lookup
get-delete_all o og now group other user r after b b' h e =
    let key : Bytes = cache_key (bytes_of group) in
    let gone : after ≡ unassign key r = exec-ok o (unassign key) r after e in
    (rw gone (rw (lookup-unassign key r) refl), kept og gone)
  where
    kept :
        (q : Outcome)
        → after ≡ unassign (cache_key (bytes_of group)) r
        → get q now other user after ≡ get q now other user r
    kept done gone = rw gone (
        rw
          (lookup-unassign_other (cache_key (bytes_of group)) (cache_key (bytes_of other)) r
            (other_key (bytes_of group) (bytes_of other) b b' h))
          refl)
    kept refused gone = refl
    kept lost gone = refl
