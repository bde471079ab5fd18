-- ===== src/Transport/Pool/Best.antt =====
-- What `Best` selects, whatever the order in which the map is visited.
use fproto.Base.{
  ℕ, ◌≤◌, ◌<◌, ◌≡◌, refl, sym, ap, ◌⊎◌, inl, inr, true, false, none, some, [], ◌∷◌, arith, Bytes,
  if◌then◌else◌, Bool-cases, bytes_equal_iff, bytes_equal_refl, length, All, subst, ◌∙◌, ◌↔◌, subst,
}
use mathlib.Core.Option.{some-injective}
use fproto.Transport.Pool.{
  Conn, PoolEntry, Entries, ConnPool, get, better, best_from, best, count, transport_priority,
}
use fproto.Transport.Pool.Laws.{Distinct, IsValid}

-- No entry is better than one that is not better than a third, if the third is not better either.
better_trans : (x b r : PoolEntry) → better x b ≡ false → better b r ≡ false → better x r ≡ false
unfolding better
better_trans x b r h k = ground arith

better_irrefl : (x : PoolEntry) → better x x ≡ false
unfolding better
better_irrefl x = ground arith

better_asym : (x y : PoolEntry) → better x y ≡ true → better y x ≡ false
unfolding better
better_asym x y h = ground arith

-- `r` is at least as good as every entry.
abbrev Tops : PoolEntry → Entries → Type 0
Tops r = All λ e. better e.1 r ≡ false

best_from-better :
    (b e : Bytes × PoolEntry) (m : Entries)
    → better e.1 b.1 ≡ true
    → best_from b (e ∷ m) ≡ best_from e m
unfolding best_from
best_from-better b e m h = ap (λ x. best_from (if x then e else b) m) h

best_from-worse :
    (b e : Bytes × PoolEntry) (m : Entries)
    → better e.1 b.1 ≡ false
    → best_from b (e ∷ m) ≡ best_from b m
unfolding best_from
best_from-worse b e m h = ap (λ x. best_from (if x then e else b) m) h

-- `r` is at least as good as `b` and every entry of `m`.
abbrev TopsBoth : Bytes × PoolEntry → Entries → Bytes × PoolEntry → Type 0
TopsBoth b m r = (better b.1 r.1 ≡ false) × Tops r.1 m

best_from-Tops : (b : Bytes × PoolEntry) (m : Entries) → TopsBoth b m (best_from b m)
best_from-Tops b [] = unfold best_from in (better_irrefl b.1, tt)
best_from-Tops b (e ∷ m) = elim (Bool-cases (better e.1 b.1)) [
  | inl h ↦
      let (top, tops) = best_from-Tops e m in
      subst (TopsBoth b (e ∷ m)) (sym (best_from-better b e m h))
        (better_trans b.1 e.1 _ (better_asym e.1 b.1 h) top, (top, tops))
  | inr h ↦
      let (top, tops) = best_from-Tops b m in
      subst (TopsBoth b (e ∷ m)) (sym (best_from-worse b e m h))
        (top, (better_trans e.1 b.1 _ h top, tops))
]

abbrev IsEntry : Entries → Bytes × PoolEntry → Type 0
IsEntry m r = get r.0 m ≡ some r.1

cons-IsEntry :
    (b r : Bytes × PoolEntry) (m : Entries) → get b.0 m ≡ none → IsEntry m r → IsEntry (b ∷ m) r
unfolding get
cons-IsEntry b r m h k = ground (arith, bytes_equal_iff b.0 r.0)

insert-IsEntry :
    (b e r : Bytes × PoolEntry) (m : Entries)
    → get e.0 m ≡ none
    → IsEntry (b ∷ m) r
    → IsEntry (b ∷ e ∷ m) r
unfolding get
insert-IsEntry b e r m h k = ground (arith, bytes_equal_iff e.0 r.0)

absent_tail :
    (j : Bytes) (e : Bytes × PoolEntry) (m : Entries) → get j (e ∷ m) ≡ none → get j m ≡ none
unfolding get
absent_tail j e m h = ground arith

best_from-IsEntry :
    (b : Bytes × PoolEntry) (m : Entries) → Distinct (b ∷ m) → IsEntry (b ∷ m) (best_from b m)
best_from-IsEntry b [] d = unfold best_from get in rw (bytes_equal_refl b.0)
best_from-IsEntry b (e ∷ m) d = elim (Bool-cases (better e.1 b.1)) [
  | inl h ↦
      subst (IsEntry (b ∷ e ∷ m)) (sym (best_from-better b e m h))
        (cons-IsEntry b _ (e ∷ m) d.0 (best_from-IsEntry e m d.1))
  | inr h ↦
      subst (IsEntry (b ∷ e ∷ m)) (sym (best_from-worse b e m h))
        (insert-IsEntry b e _ m d.1.0 (best_from-IsEntry b m (absent_tail b.0 e m d.0, d.1.1)))
]

get-Tops :
    (r : PoolEntry) (j : Bytes) (x : PoolEntry) (m : Entries)
    → Tops r m
    → get j m ≡ some x
    → better x r ≡ false
unfolding get
get-Tops r j x [] a h = cc
get-Tops r j x ((i, y) ∷ m) a h = ground (arith, get-Tops r j x m a.1)

-- The entry that `Best` reports: its id and connection are those of an entry of the pool that no
-- other entry beats, by the higher number or, at equal numbers, by the better transport.
pub data IsBest (p : ConnPool) (c : Conn) (id : Bytes) : Type 0 where
  is_best :
      (e : PoolEntry)
      → get id p.conns ≡ some e
      → e.conn ≡ c
      → ((j : Bytes) (x : PoolEntry)
          → get j p.conns ≡ some x
          → (x.last_packet_seq < e.last_packet_seq)
            ⊎ ((x.last_packet_seq ≡ e.last_packet_seq)
                × (transport_priority x.conn.type ≤ transport_priority e.conn.type)))
      → IsBest p c id

beaten :
    (x e : PoolEntry)
    → better x e ≡ false
    → (x.last_packet_seq < e.last_packet_seq)
      ⊎ ((x.last_packet_seq ≡ e.last_packet_seq)
          × (transport_priority x.conn.type ≤ transport_priority e.conn.type))
unfolding better
beaten x e h = ground arith

abbrev pool_of : ℕ → Entries → ConnPool
pool_of limit m = record { conns = m; max_conns = limit }

best_of :
    (limit : ℕ) (m : Entries) (c : Conn) (id : Bytes)
    → Distinct m
    → best (pool_of limit m) ≡ some (c, id)
    → IsBest (pool_of limit m) c id
unfolding best
best_of limit [] c id d h = cc
best_of limit (b ∷ m) c id d h =
    subst (λ q. IsBest (pool_of limit (b ∷ m)) q.0 q.1) (some-injective _ _ h)
      (is_best r.1 (best_from-IsEntry b m d) refl
        (λ j x k. beaten x r.1 (get-Tops r.1 j x (b ∷ m) (best_from-Tops b m) k)))
  where
    r : Bytes × PoolEntry
    r = best_from b m

-- Best reports a best entry.
best-IsBest :
    (p : ConnPool) {c : Conn} {id : Bytes} → IsValid p → best p ≡ some (c, id) → IsBest p c id
best-IsBest p v h = best_of p.max_conns p.conns _ _ v.distinct h

-- What Best reports of a valid pool is an entry of it, and every entry has a lower sequence number, or
-- the same one and a transport of no higher priority, in whatever order the map is visited.
pub best_at_least :
    (p : ConnPool) {c : Conn} {id : Bytes} (j : Bytes) (x : PoolEntry)
    → IsValid p
    → best p ≡ some (c, id)
    → get j p.conns ≡ some x
    → (e : PoolEntry) × (get id p.conns ≡ some e)
      × (e.conn ≡ c)
      × ((x.last_packet_seq < e.last_packet_seq)
          ⊎ ((x.last_packet_seq ≡ e.last_packet_seq)
              × (transport_priority x.conn.type ≤ transport_priority e.conn.type)))
best_at_least p {c} {id} j x v h g = of_best (best-IsBest p v h)
  where
    of_best :
        IsBest p c id
        → (e : PoolEntry) × (get id p.conns ≡ some e)
          × (e.conn ≡ c)
          × ((x.last_packet_seq < e.last_packet_seq)
              ⊎ ((x.last_packet_seq ≡ e.last_packet_seq)
                  × (transport_priority x.conn.type ≤ transport_priority e.conn.type)))
    of_best (is_best e at same tops) = (e, at, same, tops j x g)

-- Best finds nothing exactly when the pool is empty.
pub best-none_iff : (p : ConnPool) → (best p ≡ none) ↔ (count p ≡ 0)
unfolding best count
best-none_iff p = by_entries p.conns
  where
    by_entries : (m : Entries) → (best (pool_of p.max_conns m) ≡ none) ↔ (length m ≡ 0)
    by_entries [] = ((λ _. refl), (λ _. refl))
    by_entries (b ∷ m) = ((λ h. cc), (λ h. absurd (omega arith)))

-- Two pools with the same entries, visited in different orders, agree on the number and on the
-- transport's priority of what Best reports.
best-order_free :
    (p q : ConnPool) {c c' : Conn} {id id' : Bytes}
    → IsValid p
    → IsValid q
    → ((j : Bytes) → get j p.conns ≡ get j q.conns)
    → best p ≡ some (c, id)
    → best q ≡ some (c', id')
    → (e : PoolEntry) × (e' : PoolEntry) × (get id p.conns ≡ some e)
      × (get id' q.conns ≡ some e')
      × (e.last_packet_seq ≡ e'.last_packet_seq)
      × (transport_priority e.conn.type ≡ transport_priority e'.conn.type)
best-order_free p q v w same h k = agree (best-IsBest p v h) (best-IsBest q w k)
  where
    agree :
        {c c' : Conn} {id id' : Bytes}
        → IsBest p c id
        → IsBest q c' id'
        → (e : PoolEntry) × (e' : PoolEntry) × (get id p.conns ≡ some e)
          × (get id' q.conns ≡ some e')
          × (e.last_packet_seq ≡ e'.last_packet_seq)
          × (transport_priority e.conn.type ≡ transport_priority e'.conn.type)
    agree {id} {id'} (is_best e g _ tops) (is_best e' g' _ tops') =
        let a = tops id' e' (same id' ∙ g') in
        let b = tops' id e (sym (same id) ∙ g) in (e, e', g, g', ground arith, ground arith)
