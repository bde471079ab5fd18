-- ===== src/Outbox/Drain.antt =====
-- A poll in which all calls succeed.
use fproto.Base.{ℕ, ◌≡◌, ap, Bool, true, List, [], ◌∷◌, ◌==◌, any}
use fproto.Sql.{done}
use fproto.Kafka.Producer.{acked}
use fproto.Outbox.Store.{Entry, is_pending}
use fproto.Outbox.Relay.{World, Tries, relay_entry, relay_all}
use fproto.Outbox.Delivery.Rows.{record_of}
use fproto.Outbox.Delivery.{ends, publishing}
use fproto.Outbox.Progress.{moved, relay_entry_cases}

-- All calls succeed.
abbrev pub all_ok : ℕ → Tries
all_ok id = ends acked done done acked done

relay_entry-all_ok :
    (now : ℕ) (e : Entry) (w : World)
    → relay_entry (all_ok e.id) now e w ≡ moved w (record_of e ∷ []) e.id (publishing now)
relay_entry-all_ok now e w = (relay_entry_cases now e w).0

pub relay_all-cons :
    (now : ℕ) (e : Entry) (es : List Entry) (w : World)
    → relay_all all_ok now (e ∷ es) w
      ≡ relay_all all_ok now es (moved w (record_of e ∷ []) e.id (publishing now))
unfolding relay_all
relay_all-cons now e es w = ap (relay_all all_ok now es) (relay_entry-all_ok now e w)

-- Every pending row is among the entries still to be relayed.
abbrev listed : List Entry → Entry → Bool
listed es r = any (λ e. r.id == e.id) es

abbrev Covered : List Entry → Entry → Type 0
Covered es r = is_pending r.status ≡ true → listed es r ≡ true
