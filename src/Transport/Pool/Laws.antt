-- ===== src/Transport/Pool/Laws.antt =====
-- The pool keeps one entry for each id and its limit, and picks the best entry.
use fproto.Base.{
  ℕ, suc, ◌≤◌, ◌<◌, ◌≡◌, refl, inl, inr, Option, none, some, List, [], ◌∷◌, arith, Bytes, Result,
  ok, err, ltb, if◌then◌else◌, Option-cases, bytes_equal, bytes_equal_iff, length,
}
use fproto.Transport.Pool
use fproto.Transport.Pool.{
  TransportType, Conn, PoolEntry, Entries, ConnPool, get, put, delete, add, remove, update_seq,
  better, best_from, best, count, transport_priority, new_conn_pool, pool_full,
}

-- A map holds each key once.
abbrev Absent : Bytes → Entries → Type 0
Absent id m = get id m ≡ none

abbrev pub Distinct : Entries → Type 0
Distinct [] = Unit
Distinct ((j, e) ∷ m) = Absent j m × Distinct m

get-put :
    (id j : Bytes) (e : PoolEntry) (m : Entries)
    → get j (put id e m) ≡ (if bytes_equal id j then some e else get j m)
unfolding get put
get-put id j e [] = refl
get-put id j e ((i, x) ∷ m) =
    ground
      (arith, bytes_equal_iff id j, bytes_equal_iff i id, bytes_equal_iff i j, get-put id j e m)

get-delete :
    (id j : Bytes) (m : Entries)
    → Distinct m
    → get j (delete id m) ≡ (if bytes_equal id j then none else get j m)
unfolding get delete
get-delete id j [] d = ground arith
get-delete id j ((i, x) ∷ m) d =
    ground
      (arith, bytes_equal_iff id j, bytes_equal_iff i id, bytes_equal_iff i j, get-delete id j m)

put-Distinct : (id : Bytes) (e : PoolEntry) (m : Entries) → Distinct m → Distinct (put id e m)
unfolding put get
put-Distinct id e [] d = ground arith
put-Distinct id e ((i, x) ∷ m) d =
    ground
      (arith, bytes_equal_iff i id, bytes_equal_iff id i, get-put id i e m, put-Distinct id e m)

delete-Distinct : (id : Bytes) (m : Entries) → Distinct m → Distinct (delete id m)
unfolding delete get
delete-Distinct id [] d = tt
delete-Distinct id ((i, x) ∷ m) d =
    ground (arith, bytes_equal_iff i id, get-delete id i m, delete-Distinct id m)

length-put :
    (id : Bytes) (e : PoolEntry) (m : Entries)
    → length (put id e m) ≡ elim (get id m) [ none ↦ suc (length m) | some _ ↦ length m ]
unfolding put get
length-put id e [] = refl
length-put id e ((i, x) ∷ m) = ground (arith, length-put id e m)

length-delete-le : (id : Bytes) (m : Entries) → length (delete id m) ≤ length m
unfolding delete
length-delete-le id [] = omega arith
length-delete-le id ((i, x) ∷ m) = ground (arith, length-delete-le id m)

-- What holds of a pool between two calls.
pub record IsValid (p : ConnPool) : Type 0 where
  pub distinct : Distinct p.conns
  pub within : length p.conns ≤ p.max_conns
  pub open_to_one : 0 < p.max_conns

-- The calls that change a pool; an Add that fails leaves it as it was.
pub data Call : Type 0 where
  adds : Bytes → Conn → Call
  removes : Bytes → Call
  updates : Bytes → ℕ → Call

abbrev after_add : ConnPool → Result Pool.PoolError ConnPool → ConnPool
after_add p (ok q) = q
after_add p (err x) = p

unfoldable pub step : ConnPool → Call → ConnPool
step p (adds id conn) = after_add p (add p id conn)
step p (removes id) = remove p id
step p (updates id seq) = update_seq p id seq

unfoldable pub run : ConnPool → List Call → ConnPool
run p [] = p
run p (c ∷ cs) = run (step p c) cs

new-IsValid : (limit : Option ℕ) → IsValid (new_conn_pool limit)
unfolding new_conn_pool
new-IsValid none = ground arith
new-IsValid (some n) = ground arith

step-IsValid : (p : ConnPool) (c : Call) → IsValid p → IsValid (step p c)
unfolding step add remove update_seq
step-IsValid p (adds id conn) v = ground (
  arith,
  put-Distinct id (record { conn = conn; last_packet_seq = 0 }) p.conns,
  length-put id (record { conn = conn; last_packet_seq = 0 }) p.conns,
)
step-IsValid p (removes id) v =
    ground (arith, delete-Distinct id p.conns, length-delete-le id p.conns)
step-IsValid p (updates id seq) v = elim (Option-cases (get id p.conns)) [
  | inl e ↦ rw (e, update_seq) v
  | inr (x, e) ↦
      rw (e, update_seq)
        (ground (
          arith,
          e,
          put-Distinct id (record x { last_packet_seq = seq }) p.conns,
          length-put id (record x { last_packet_seq = seq }) p.conns,
        ))
]

run-IsValid : (cs : List Call) (p : ConnPool) → IsValid p → IsValid (run p cs)
unfolding run
run-IsValid [] p v = v
run-IsValid (c ∷ cs) p v = run-IsValid cs (step p c) (step-IsValid p c v)

-- After any calls on a new pool, each id has one entry, and there are at most as many entries as
-- the limit, which is at least one.
pub run-new-IsValid : (limit : Option ℕ) (cs : List Call) → IsValid (run (new_conn_pool limit) cs)
run-new-IsValid limit cs = run-IsValid cs (new_conn_pool limit) (new-IsValid limit)

-- The pool as a partial function of the id, and what each call makes of it.
abbrev pub looked_up : ConnPool → Call → Bytes → Option PoolEntry
looked_up p (adds id conn) j =
    if ltb (length p.conns) p.max_conns
    then (if bytes_equal id j
        then some (record { conn = conn; last_packet_seq = 0 })
        else get j p.conns)
    else get j p.conns
looked_up p (removes id) j = if bytes_equal id j then none else get j p.conns
looked_up p (updates id seq) j = elim (get j p.conns) [
  | none ↦ none
  | some e ↦ some (if bytes_equal id j then record e { last_packet_seq = seq } else e)
]
