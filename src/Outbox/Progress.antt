-- ===== src/Outbox/Progress.antt =====
-- What one poll achieves, and what it does to an entry in each case.
use fproto.Base.{inl, inr, ℕ, ◌+◌, ◌≡◌, refl, [], ◌∷◌, ◌++◌, leb, if◌then◌else◌, Bool-cases}
use fproto.Sql.{done}
use fproto.Kafka.Producer.{Log, acked, rejected}
use fproto.Outbox.Store.{Entry, update_where}
use fproto.Outbox.Relay.{World, relay_entry, max_retries}
use fproto.Outbox.Delivery.Rows.{record_of, dead_record_of}
use fproto.Outbox.Delivery.{ends, publishing, failing, retrying}

-- The world after more records and an update of one row.
abbrev pub moved : World → Log → ℕ → (Entry → Entry) → World
moved w records id f = record w { table = update_where id f w.table; log = w.log ++ records }

abbrev pub updated : World → ℕ → (Entry → Entry) → World
updated w id f = record w { table = update_where id f w.table }

-- While PostgreSQL answers, an entry that Kafka takes is sent once and marked published. One that
-- Kafka refuses is counted once more and nothing is sent; from the fifth refusal on it is also sent to
-- the dead-letter topic, and marked failed if Kafka takes that record.
pub relay_entry_cases :
    (now : ℕ) (e : Entry) (w : World)
    → (relay_entry (ends acked done done acked done) now e w
        ≡ moved w (record_of e ∷ []) e.id (publishing now))
      × (relay_entry (ends rejected done done acked done) now e w ≡ (
          if leb max_retries (e.retry_count + 1)
          then moved (updated w e.id retrying) (dead_record_of e ∷ []) e.id failing
          else updated w e.id retrying))
      × (relay_entry (ends rejected done done rejected done) now e w ≡ updated w e.id retrying)
unfolding relay_entry
relay_entry_cases now e w = (
  refl,
  elim (Bool-cases (leb max_retries (e.retry_count + 1))) [ inl h ↦ rw h | inr h ↦ rw h ],
  elim (Bool-cases (leb max_retries (e.retry_count + 1))) [ inl h ↦ rw h | inr h ↦ rw h ],
)
