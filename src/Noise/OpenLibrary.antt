-- ===== src/Noise/OpenLibrary.antt =====
-- A library that follows the pattern of XX and hides nothing, for examples: its cipher states count
-- messages.
use fproto.Base.{
  ℕ, suc, ◌≡◌, ◌≢◌, refl, subst, Bool, true, false, Option, none, some, [], ◌∷◌, Bytes, ltb, length,
}
use fproto.Noise.{KeyPair, Noise}
use fproto.Noise.Agreement.{Exchange, IsXx}

-- How many messages the initiator or the responder has seen.
pub data State : Type 0 where
  begun asked answered finished : State
  waiting heard replied agreed : State

abbrev pub initial : Bool → State
initial true = begun
initial false = waiting

abbrev pub writes : State → Option (Bytes × Option (ℕ × ℕ)) × State
writes begun = (some (1 ∷ [], none), asked)
writes heard = (some (2 ∷ [], none), replied)
writes answered = (some (3 ∷ [], some (0, 0)), finished)
writes s = (none, s)

abbrev pub reads : Bytes → State → Option (Option (ℕ × ℕ)) × State
reads m waiting = (some none, heard)
reads m asked = (some none, answered)
reads m replied = (some (some (0, 0)), agreed)
reads m s = (none, s)

abbrev pub open_library : Noise State ℕ
open_library = record {
  generate_keypair = λ random. some (record { private = random; public = random });
  new_state = λ initiator key random. some (initial initiator);
  write_message = writes;
  read_message = reads;
  seal = λ plaintext c. (some plaintext, suc c);
  unseal = λ ciphertext c. (some ciphertext, suc c);
}

open-Exchange : Exchange open_library ◌≡◌ begun waiting
open-Exchange = (
  1 ∷ [],
  2 ∷ [],
  3 ∷ [],
  asked,
  answered,
  finished,
  heard,
  replied,
  agreed,
  0,
  0,
  0,
  0,
  refl,
  refl,
  refl,
  refl,
  refl,
  refl,
  refl,
  refl,
)

some_injective : {s t : State} → some s ≡ some t → s ≡ t
some_injective h = cc

sealed_counts :
    (c d c' : ℕ) (plaintext ciphertext : Bytes)
    → c ≡ d
    → ◌≡◌ {A = Option Bytes × ℕ} (some plaintext, suc c) (some ciphertext, c')
    → (some ciphertext ≡ some plaintext) × (c' ≡ suc d)
sealed_counts c d c' plaintext ciphertext p h = (cc, cc)

never_fails :
    (c c' : ℕ) (plaintext : Bytes) → ◌≢◌ {A = Option Bytes × ℕ} (some plaintext, suc c) (none, c')
never_fails c c' plaintext h = cc

pub open_library-IsXx : IsXx open_library ◌≡◌
open_library-IsXx = record {
  exchange = λ ck sk cr sr client server hc hs.
      subst (λ c. Exchange open_library ◌≡◌ c server) (some_injective hc)
        (subst (λ s. Exchange open_library ◌≡◌ begun s) (some_injective hs) open-Exchange);
  unseal-seal = sealed_counts;
  seal_failed = λ c d c' plaintext p h. absurd (never_fails c c' plaintext h);
}

abbrev pub no_key : KeyPair
no_key = record { private = []; public = [] }

same_message :
    {m m' : Bytes} {c c' : Option (ℕ × ℕ)} {s s' : State}
    → ◌≡◌ {A = Option (Bytes × Option (ℕ × ℕ)) × State} (some (m, c), s) (some (m', c'), s')
    → m ≡ m'
same_message h = cc

pub writes_bytes :
    (hs left : State) (m : Bytes) (c : Option (ℕ × ℕ))
    → writes hs ≡ (some (m, c), left)
    → ltb 0 (length m) ≡ true
writes_bytes begun left m c h = subst (λ x. ltb 0 (length x) ≡ true) (same_message h) refl
writes_bytes heard left m c h = subst (λ x. ltb 0 (length x) ≡ true) (same_message h) refl
writes_bytes answered left m c h = subst (λ x. ltb 0 (length x) ≡ true) (same_message h) refl
writes_bytes asked left m c h = absurd cc
writes_bytes finished left m c h = absurd cc
writes_bytes waiting left m c h = absurd cc
writes_bytes replied left m c h = absurd cc
writes_bytes agreed left m c h = absurd cc
