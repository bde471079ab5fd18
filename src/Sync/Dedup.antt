-- ===== src/Sync/Dedup.antt =====
-- server/internal/sync/dedup.go. Redis is a parameter: SET NX with an expiry, and what is documented
-- of it. Times are milliseconds, and time passes between the calls.
use fproto.Base.{
  ℕ, ◌≡◌, ◌<◌, ◌-◌, ◌*◌, Bool, true, false, not, ◌&&◌, Option, ◌++◌, Bytes, codes, Result, ok, err,
  arith, bytes_equal, ltb, if◌then◌else◌, encode_to_string,
}
use fproto.Message.{bytes_of}

pub data RedisError : Type 0 where
  redis_unavailable : RedisError

abbrev pub dedup_ttl : ℕ
dedup_ttl = 48 * 60 * 60 * 1000

-- What a SET NX of the key `k` at `d` gives: the key is set, or it was there, or the client gets an
-- error and the key may be set or not. `left` is the time that a key has left, 0 for one that is not
-- there. No other key is touched, and a key that is there keeps its time.
pub data Sets {D : Type 0} (left : D → Bytes → ℕ) (ttl : ℕ) (d : D) (k : Bytes)
    : Result RedisError Bool × D → Type 0 where
  sets :
      (d' : D)
      → ltb 0 (left d k) ≡ false
      → ((j : Bytes) → left d' j ≡ (if bytes_equal k j then ttl else left d j))
      → Sets left ttl d k (ok true, d')
  keeps :
      (d' : D)
      → ltb 0 (left d k) ≡ true
      → ((j : Bytes) → left d' j ≡ left d j)
      → Sets left ttl d k (ok false, d')
  fails :
      (d' : D) (e : RedisError) (set : Bool)
      → ((j : Bytes)
          → left d' j
            ≡ (if bytes_equal k j && set && not (ltb 0 (left d k)) then ttl else left d j))
      → Sets left ttl d k (err e, d')

pub record Redis : Type 1 where
  pub Db : Type 0
  pub left : Db → Bytes → ℕ
  pub set_nx : Db → Bytes → ℕ → Result RedisError Bool × Db
  pub wait : ℕ → Db → Db
  pub set_nx-Sets : (d : Db) (k : Bytes) (ttl : ℕ) → Sets left ttl d k (set_nx d k ttl)
  pub left-wait : (t : ℕ) (d : Db) (k : Bytes) → left (wait t d) k ≡ left d k - t

abbrev pub has : (r : Redis) → r.Db → Bytes → Bool
has r d k = ltb 0 (r.left d k)

-- The call of IsDuplicate.
abbrev pub mark : (r : Redis) → r.Db → Bytes → Result RedisError Bool × r.Db
mark r d k = r.set_nx d k dedup_ttl

-- What it does to the keys that there are.
pub data SetsOnce {D : Type 0} (has : D → Bytes → Bool) (d : D) (k : Bytes)
    : Result RedisError Bool × D → Type 0 where
  fresh :
      (d' : D)
      → has d k ≡ false
      → ((j : Bytes) → has d' j ≡ (if bytes_equal k j then true else has d j))
      → SetsOnce has d k (ok true, d')
  present :
      (d' : D)
      → has d k ≡ true
      → ((j : Bytes) → has d' j ≡ has d j)
      → SetsOnce has d k (ok false, d')
  failing :
      (d' : D) (e : RedisError)
      → ((j : Bytes) → has d j ≡ true → has d' j ≡ true)
      → SetsOnce has d k (err e, d')

Sets-SetsOnce :
    {D : Type 0} (left : D → Bytes → ℕ) (ttl : ℕ) (d : D) (k : Bytes)
    {a : Result RedisError Bool × D}
    → 0 < ttl
    → Sets left ttl d k a
    → SetsOnce (λ x j. ltb 0 (left x j)) d k a
Sets-SetsOnce left ttl d k h (sets d' new same) = fresh d' new (λ j. let e = same j in ground arith)
Sets-SetsOnce left ttl d k h (keeps d' there same) =
    present d' there (λ j. let e = same j in ground arith)
Sets-SetsOnce left ttl d k h (fails d' x set same) =
    failing d' x (λ j g. let e = same j in ground arith)

pub mark-SetsOnce : (r : Redis) (d : r.Db) (k : Bytes) → SetsOnce (has r) d k (mark r d k)
mark-SetsOnce r d k = Sets-SetsOnce r.left dedup_ttl d k (omega arith) (r.set_nx-Sets d k dedup_ttl)

unfoldable pub dedup_key : Bytes → Option Bytes → Bytes
dedup_key user_id message_id =
    codes "dedup:"
    ++ (encode_to_string user_id ++ (codes ":" ++ encode_to_string (bytes_of message_id)))

abbrev pub negated : Result RedisError Bool → Result RedisError Bool
negated (ok set) = ok (not set)
negated (err e) = err e

-- IsDuplicate: the answer, and the database behind it.
unfoldable pub is_duplicate :
    (r : Redis) → r.Db → Bytes → Option Bytes → Result RedisError Bool × r.Db
is_duplicate r d user_id message_id =
    let (set, d') = mark r d (dedup_key user_id message_id) in (negated set, d')
