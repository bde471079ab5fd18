-- ===== src/Transport/Pool.antt =====
-- proto-core/transport/pool.go, with Type and Conn of transport.go. The pool's map is an
-- association list whose order is the order in which `range` visits it, which Go leaves open:
-- what is stated of `best` and `all` holds of every order. The mutex makes each method atomic.
pub mod Laws
pub mod Best
use fproto.Base.{
  ℕ, suc, ◌≡◌, Bool, true, false, ◌&&◌, Option, none, some, List, [], ◌∷◌, map, arith, Bytes,
  Result, ok, err, ltb, leb, ◌==◌, if◌then◌else◌, bytes_equal, length,
}

-- transport.Type.
pub data TransportType : Type 0 where
  web_socket quic grpc : TransportType
  unlisted_type : Bytes → TransportType

-- transportPriority; a missing key reads as 0.
unfoldable pub transport_priority : TransportType → ℕ
transport_priority quic = 3
transport_priority web_socket = 2
transport_priority grpc = 1
transport_priority (unlisted_type t) = 0

abbrev pub default_max_conns : ℕ
default_max_conns = 5

-- Of a Conn the pool reads the Type; `handle` is the rest of it.
pub record Conn : Type 0 where
  pub handle : ℕ
  pub type : TransportType

pub record PoolEntry : Type 0 where
  pub conn : Conn
  pub last_packet_seq : ℕ

abbrev pub Entries : Type 0
Entries = List (Bytes × PoolEntry)

pub record ConnPool : Type 0 where
  pub conns : Entries
  pub max_conns : ℕ

-- NewConnPool. The argument is an int: `none` stands for a negative one.
unfoldable pub new_conn_pool : Option ℕ → ConnPool
new_conn_pool none = record { conns = []; max_conns = default_max_conns }
new_conn_pool (some n) = record { conns = []; max_conns = if n == 0 then default_max_conns else n }

-- m[id], m[id] = e and delete(m, id) of a map.
unfoldable pub get : Bytes → Entries → Option PoolEntry
get id [] = none
get id ((j, e) ∷ m) = if bytes_equal j id then some e else get id m

unfoldable pub put : Bytes → PoolEntry → Entries → Entries
put id e [] = (id, e) ∷ []
put id e ((j, x) ∷ m) = if bytes_equal j id then (id, e) ∷ m else (j, x) ∷ put id e m

unfoldable pub delete : Bytes → Entries → Entries
delete id [] = []
delete id ((j, x) ∷ m) = if bytes_equal j id then m else (j, x) ∷ delete id m

pub data PoolError : Type 0 where
  pool_full : ℕ → PoolError

unfoldable pub add : ConnPool → Bytes → Conn → Result PoolError ConnPool
add p id conn =
    if leb p.max_conns (length p.conns)
    then err (pool_full p.max_conns)
    else ok (record p { conns = put id (record { conn = conn; last_packet_seq = 0 }) p.conns })

unfoldable pub remove : ConnPool → Bytes → ConnPool
remove p id = record p { conns = delete id p.conns }

unfoldable pub update_seq : ConnPool → Bytes → ℕ → ConnPool
update_seq p id seq = elim (get id p.conns) [
  | some e ↦ record p { conns = put id (record e { last_packet_seq = seq }) p.conns }
  | none ↦ p
]

-- The test by which an entry replaces the best one so far.
unfoldable pub better : PoolEntry → PoolEntry → Bool
better entry best =
    if ltb best.last_packet_seq entry.last_packet_seq
    then true
    else if entry.last_packet_seq == best.last_packet_seq
    then ltb (transport_priority best.conn.type) (transport_priority entry.conn.type)
    else false

-- The loop of Best, after its first round.
unfoldable pub best_from : Bytes × PoolEntry → Entries → Bytes × PoolEntry
best_from best [] = best
best_from best (e ∷ m) = best_from (if better e.1 best.1 then e else best) m

unfoldable pub best : ConnPool → Option (Conn × Bytes)
unfolding best_from
best p = elim p.conns [ [] ↦ none | e ∷ m ↦ let b = best_from e m in some (b.1.conn, b.0) ]

unfoldable pub count : ConnPool → ℕ
count p = length p.conns

unfoldable pub all : ConnPool → List Bytes
all p = map (λ e. e.0) p.conns
