-- ===== src/Kafka/Headers.antt =====
-- server/internal/kafka/tracing.go: the carriers of the trace context in a record's headers.
use fproto.Base.{
  ◌≡◌, refl, ap, false, Option, none, some, List, [], ◌∷◌, map, arith, Bytes, if◌then◌else◌,
  bytes_equal, bytes_equal_iff, bytes_equal_refl, Bool-cases, inl, inr, ◌∙◌,
}

pub record RecordHeader : Type 0 where
  pub key : Bytes
  pub value : Bytes

-- ProducerHeaderCarrier.
unfoldable pub get : Bytes → List RecordHeader → Bytes
get k [] = []
get k (h ∷ hs) = if bytes_equal h.key k then h.value else get k hs

unfoldable pub set : Bytes → Bytes → List RecordHeader → List RecordHeader
set k v [] = record { key = k; value = v } ∷ []
set k v (h ∷ hs) = if bytes_equal h.key k then record h { value = v } ∷ hs else h ∷ set k v hs

abbrev pub keys : List RecordHeader → List Bytes
keys hs = map (λ h. h.key) hs

-- ConsumerHeaderCarrier, over headers that may be nil; its Set does nothing.
unfoldable pub consumer_get : Bytes → List (Option RecordHeader) → Bytes
consumer_get k [] = []
consumer_get k (none ∷ hs) = consumer_get k hs
consumer_get k (some h ∷ hs) = if bytes_equal h.key k then h.value else consumer_get k hs

abbrev pub consumer_set : Bytes → Bytes → List (Option RecordHeader) → List (Option RecordHeader)
consumer_set k v hs = hs

unfoldable pub consumer_keys : List (Option RecordHeader) → List Bytes
consumer_keys [] = []
consumer_keys (none ∷ hs) = consumer_keys hs
consumer_keys (some h ∷ hs) = h.key ∷ consumer_keys hs

pub get-set : (k v : Bytes) (hs : List RecordHeader) → get k (set k v hs) ≡ v
unfolding get set
get-set k v [] = rw (bytes_equal_refl k) refl
get-set k v (h ∷ hs) = elim (Bool-cases (bytes_equal h.key k)) [
  | inl e ↦ rw e (rw e refl)
  | inr e ↦ rw e (rw e (get-set k v hs))
]

pub get-set_other :
    (k j v : Bytes) (hs : List RecordHeader)
    → bytes_equal k j ≡ false
    → get j (set k v hs) ≡ get j hs
unfolding get set
get-set_other k j v [] e = rw e refl
get-set_other k j v (h ∷ hs) e = ground (
  arith,
  get-set_other k j v hs e,
  bytes_equal_iff h.key k,
  bytes_equal_iff h.key j,
  bytes_equal_iff k j,
)

-- The consumer reads the headers that the producer wrote, and finds as many keys.
pub consumer_get-sent :
    (k : Bytes) (hs : List RecordHeader)
    → (consumer_get k (map some hs) ≡ get k hs) × (consumer_keys (map some hs) ≡ keys hs)
unfolding consumer_get get consumer_keys
consumer_get-sent k [] = (refl, refl)
consumer_get-sent k (h ∷ hs) =
    let (g, ks) = consumer_get-sent k hs in (rw g refl, ap (◌∷◌ h.key) ks)

-- What a producer sets in the headers of a record, the consumer of the record reads, and every other
-- key reads as it did before.
pub consumer_get-set :
    (k j v : Bytes) (hs : List RecordHeader)
    → bytes_equal k j ≡ false
    → (consumer_get k (map some (set k v hs)) ≡ v)
      × (consumer_get j (map some (set k v hs)) ≡ get j hs)
consumer_get-set k j v hs e = (
  (consumer_get-sent k (set k v hs)).0 ∙ get-set k v hs,
  (consumer_get-sent j (set k v hs)).0 ∙ get-set_other k j v hs e,
)
