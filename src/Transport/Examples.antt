-- ===== src/Transport/Examples.antt =====
-- A pool with two connections, and short streams.
use fproto.Base.{
  ℕ, ◌≤◌, ◌<◌, ◌≡◌, refl, ◌⊎◌, some, List, [], ◌∷◌, ◌++◌, arith, Bytes, ok, length, replicate, zero,
  suc, bytes_equal,
}
use fproto.Transport.Pool.{
  Conn, PoolEntry, ConnPool, get, better, best_from, best, quic, web_socket, new_conn_pool,
  transport_priority,
}
use fproto.Transport.Pool.Laws.{Call, adds, updates, IsValid, run, run-new-IsValid}
use fproto.Transport.Pool.Best.{best_at_least}
use fproto.Transport.Framing.RoundTrip.{read_all, write_all, read_all-write_all}

abbrev by_quic : Conn
by_quic = record { handle = 1; type = quic }

abbrev by_web : Conn
by_web = record { handle = 2; type = web_socket }

abbrev quic_entry : PoolEntry
quic_entry = record { conn = by_quic; last_packet_seq = 7 }

abbrev web_entry : PoolEntry
web_entry = record { conn = by_web; last_packet_seq = 7 }

abbrev two_conns : ConnPool
two_conns = record { conns = (b'w' ∷ [], web_entry) ∷ (b'q' ∷ [], quic_entry) ∷ []; max_conns = 5 }

-- The same entries in the other order.
abbrev two_conns_swapped : ConnPool
two_conns_swapped = record {
  conns = (b'q' ∷ [], quic_entry) ∷ (b'w' ∷ [], web_entry) ∷ [];
  max_conns = 5;
}

two_conns-IsValid : IsValid two_conns
unfolding get bytes_equal
two_conns-IsValid = record {
  distinct = (refl, (refl, tt));
  within = omega arith;
  open_to_one = omega arith;
}

two_conns_swapped-IsValid : IsValid two_conns_swapped
unfolding get bytes_equal
two_conns_swapped-IsValid = record {
  distinct = (refl, (refl, tt));
  within = omega arith;
  open_to_one = omega arith;
}

two_conns-best : best two_conns ≡ some (by_quic, b'q' ∷ [])
unfolding best best_from better transport_priority
two_conns-best = refl

two_conns_swapped-best : best two_conns_swapped ≡ some (by_quic, b'q' ∷ [])
unfolding best best_from better transport_priority
two_conns_swapped-best = refl

two_conns-get : get (b'w' ∷ []) two_conns.conns ≡ some web_entry
unfolding get bytes_equal
two_conns-get = refl

best_at_least_example :
    (e : PoolEntry) × (get (b'q' ∷ []) two_conns.conns ≡ some e)
    × (e.conn ≡ by_quic)
    × ((web_entry.last_packet_seq < e.last_packet_seq)
        ⊎ ((web_entry.last_packet_seq ≡ e.last_packet_seq)
            × (transport_priority web_entry.conn.type ≤ transport_priority e.conn.type)))
best_at_least_example =
    best_at_least two_conns (b'w' ∷ []) web_entry two_conns-IsValid two_conns-best two_conns-get

same_entries : (j : Bytes) → get j two_conns.conns ≡ get j two_conns_swapped.conns
unfolding get bytes_equal
same_entries [] = refl
same_entries (x ∷ []) = ground arith
same_entries (x ∷ y ∷ j) = ground arith

abbrev three_calls : List Call
three_calls = adds (b'q' ∷ []) by_quic ∷ adds (b'w' ∷ []) by_web ∷ updates (b'q' ∷ []) 9 ∷ []

run-new-IsValid_example : IsValid (run (new_conn_pool (some 1)) three_calls)
run-new-IsValid_example = run-new-IsValid (some 1) three_calls

read_all-write_all_example :
    read_all 2 (write_all ((1 ∷ 2 ∷ []) ∷ [] ∷ []) [] ++ (9 ∷ []))
    ≡ ok ((1 ∷ 2 ∷ []) ∷ [] ∷ [], 9 ∷ [])
read_all-write_all_example =
    read_all-write_all ((1 ∷ 2 ∷ []) ∷ [] ∷ []) (9 ∷ []) (omega arith, (omega arith, tt))

length-replicate : (n : ℕ) (b : ℕ) → length (replicate n b) ≡ n
length-replicate zero b = refl
length-replicate (suc n) b = omega (arith, length-replicate n b)

-- One byte more than the limit.
long_message : Bytes
long_message = replicate 65537 0

length-long_message : length long_message ≡ 65537
unfolding long_message
length-long_message = length-replicate 65537 0
