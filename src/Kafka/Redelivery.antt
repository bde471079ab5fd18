-- ===== src/Kafka/Redelivery.antt =====
-- What the consumer of server/internal/kafka/consumer.go hands to its handler again, and whom it tells
-- that it is ready.
use mathlib.Core.List.{Memᴰ}
use fproto.Base.{
  ℕ, suc, ◌<◌, ◌≤◌, ◌≡◌, refl, ap, ◌∙◌, Bool, true, false, Option, none, some, List, [], ◌∷◌, arith,
  Result, leb, ◌==◌, if◌then◌else◌, any, Bool-cases, inl, inr,
}
use fproto.Kafka.Consumer.{
  OffsetManager, latest, consume_claim, delivered, session, sessions, Consumed, ConsumerGroup,
  new_consumer_group, setup, renewed, run, is_closed,
}

module _ {E M W : Type 0} (handler : M → W → Result E (Unit {0}) × W) where
  delivered_all : (log : List (ℕ × M)) → delivered handler none log ≡ log
  delivered_all [] = refl
  delivered_all (r ∷ rs) = ap (◌∷◌ r) (delivered_all rs)

  -- Each log handled from its oldest record on.
  unfoldable pub everything : List (List (ℕ × M)) → W → W
  everything [] w = w
  everything (log ∷ logs) w = everything logs (consume_claim handler log w).0

  -- With automatic commits off, as DefaultConsumerConfig and the sync service have it, nothing is ever
  -- committed: every session hands each record of the partition to the handler, from the oldest on,
  -- whatever was marked in the sessions before.
  pub sessions-everything :
      (om : OffsetManager) (logs : List (List (ℕ × M))) (w : W)
      → sessions handler om false logs (none, w) ≡ (none, everything logs w)
  unfolding sessions session everything
  sessions-everything om [] w = refl
  sessions-everything om (log ∷ logs) w =
      rw (delivered_all log, om.manual_commits (consume_claim handler log w).1 none)
        (sessions-everything om logs (consume_claim handler log w).0)

latest_after :
    (marks : List ℕ) (c : Option ℕ) (p : ℕ)
    → Memᴰ p marks
    → (n : ℕ) × (latest marks c ≡ some n) × (p < n)
unfolding latest
latest_after [] c p m = elim m [ ]
latest_after (x ∷ xs) c p (Memᴰ.head q) = first (latest xs c)
  where
    first :
        (o : Option ℕ)
        → (n : ℕ) × ((elim o [
          | none ↦ some (suc x)
          | some n ↦ if leb n x then some (suc x) else some n
        ])
            ≡ some n)
          × (p < n)
    first none = (suc x, refl, omega (arith, q))
    first (some n) = elim (Bool-cases (leb n x)) [
      | inl h ↦ (suc x, rw h refl, omega (arith, q))
      | inr h ↦ (n, rw h refl, ground (arith, q))
    ]
latest_after (x ∷ xs) c p (Memᴰ.tail m) =
    let (n, h, l) = latest_after xs c p m in
    rw h (elim (Bool-cases (leb n x)) [
      | inl g ↦ (suc x, rw g refl, ground arith)
      | inr g ↦ (n, rw g refl, l)
    ])

module _ {E M W : Type 0} (handler : M → W → Result E (Unit {0}) × W) where
  not_delivered :
      (log : List (ℕ × M)) (n o : ℕ)
      → o < n
      → any (λ r. r.0 == o) (delivered handler (some n) log) ≡ false
  not_delivered [] n o h = refl
  not_delivered (r ∷ rs) n o h = ground (arith, not_delivered rs n o h)

  -- With automatic commits a record whose handler failed is not handed over again once a later record
  -- of its session was handled: no later session has it.
  pub failed_passed_over :
      (om : OffsetManager) (log later : List (ℕ × M)) (c : Option ℕ) (w : W) (offset handled : ℕ)
      → Memᴰ handled (consume_claim handler (delivered handler c log) w).1
      → offset ≤ handled
      → any (λ r. r.0 == offset) (delivered handler (session handler om true log (c, w)).0 later)
        ≡ false
  unfolding session
  failed_passed_over om log later c w offset handled m h =
      let marks : List ℕ = (consume_claim handler (delivered handler c log) w).1 in
      let (n, e, l) = latest_after marks c handled m in
      rw (om.commits_marks marks c ∙ e) (not_delivered later n offset (omega arith))

open_after_setup :
    (b : Bool) (g : ConsumerGroup) (channel : ℕ)
    → channel < g.ready
    → is_closed channel g ≡ false
    → (is_closed channel (setup b g) ≡ false) × ((setup b g).next ≡ g.next)
open_after_setup false g channel r h = (h, refl)
open_after_setup true g channel r h = (ground arith, refl)

stays_open :
    (cs : List Consumed) (g : ConsumerGroup) (channel : ℕ)
    → channel < g.ready
    → channel < g.next
    → is_closed channel g ≡ false
    → is_closed channel (run cs g) ≡ false
unfolding run
stays_open [] g channel r n h = h
stays_open (c ∷ cs) g channel r n h =
    let (o, e) = open_after_setup c.sets_up g channel r h in
    elim c.cancelled
      as (λ b.
        is_closed channel (if b then setup c.sets_up g else run cs (renewed (setup c.sets_up g)))
        ≡ false) [
          | true ↦ o
          | false ↦
              stays_open cs (renewed (setup c.sets_up g)) channel (omega arith) (omega arith) o
        ]

-- Where the first Consume sets no session up, the channel that Ready returned before Run is never
-- closed, however many sessions follow: Run makes another one in its place.
ready_lost :
    (c : Consumed) (cs : List Consumed)
    → c.sets_up ≡ false
    → is_closed new_consumer_group.ready (run (c ∷ cs) new_consumer_group) ≡ false
unfolding run
ready_lost c cs h =
    elim c.cancelled
      as (λ b.
        is_closed 0 (
          if b
          then setup c.sets_up new_consumer_group
          else run cs (renewed (setup c.sets_up new_consumer_group)))
        ≡ false) [
          | true ↦ rw h refl
          | false ↦
              rw h (stays_open cs (renewed new_consumer_group) 0 (omega arith) (omega arith) refl)
        ]
