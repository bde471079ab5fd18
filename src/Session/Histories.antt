-- ===== src/Session/Histories.antt =====
-- What a session can go through: histories of events.
use fproto.Base.{
  ◌≡◌, refl, ◌≢◌, ◌⊎◌, inl, inr, Bool, true, false, List, [], ◌∷◌, arith, ok, err, ◌↔◌, not, sym,
}
use mathlib.Core.List.{Memᴰ}
use fproto.Session.Machine.{
  Status, Event, TransitionResult, connecting, active, sleeping, expired, handshake_ok,
  handshake_fail, packet_received, idle_timeout, expiry_timeout, explicit_logout, unlisted_event,
  transition,
}

-- The life of a session: a status, or gone.
pub data Life : Type 0 where
  alive : Status → Life
  gone : Life

abbrev pub life_of : TransitionResult → Life
life_of r = outcome r.destroyed r.next
  where
    outcome : Bool → Status → Life
    outcome true s = gone
    outcome false s = alive s

-- What TransitionSession makes of the stored status: a refused event changes nothing.
unfoldable pub step : Life → Event → Life
step gone e = gone
step (alive s) e = elim (transition s e) [ ok r ↦ life_of r | err x ↦ alive s ]

unfoldable pub run : Life → List Event → Life
run l [] = l
run l (e ∷ es) = run (step l e) es

-- An expired session stays expired, whatever happens.
pub run-expired : (es : List Event) → run (alive expired) es ≡ alive expired
unfolding run step transition
run-expired [] = refl
run-expired (e ∷ es) = run-expired es

-- Past the handshake: one of the three statuses that follow it.
abbrev pub is_past : Life → Bool
is_past (alive active) = true
is_past (alive sleeping) = true
is_past (alive expired) = true
is_past _ = false

step-is_past : (l : Life) (e : Event) → is_past l ≡ true → is_past (step l e) ≡ true
unfolding step transition
step-is_past l e h = ground arith

-- A session past its handshake is never destroyed, and never leaves the three later statuses.
run-is_past : (es : List Event) (l : Life) → is_past l ≡ true → is_past (run l es) ≡ true
unfolding run
run-is_past [] l h = h
run-is_past (e ∷ es) l h = run-is_past es (step l e) (step-is_past l e h)

-- Whether the first of the two handshake events is the failure.
unfoldable pub fails_first : List Event → Bool
fails_first [] = false
fails_first (handshake_fail ∷ es) = true
fails_first (handshake_ok ∷ es) = false
fails_first (_ ∷ es) = fails_first es

run-gone : (es : List Event) → run gone es ≡ gone
unfolding run step
run-gone [] = refl
run-gone (e ∷ es) = run-gone es

past-ne-gone : (l : Life) → is_past l ≡ true → l ≢ gone
past-ne-gone l h e = ground arith

-- A new session is destroyed exactly when its handshake fails before one has succeeded: the code has no
-- other way, although docs/specification.md (7.1) has such a session expire, and docs/LLD.md (3.1)
-- has expired sessions destroyed as well.
pub destroyed_iff_fails_first :
    (es : List Event) → (run (alive connecting) es ≡ gone) ↔ (fails_first es ≡ true)
unfolding run step transition fails_first
destroyed_iff_fails_first [] = ((λ h. cc), (λ h. cc))
destroyed_iff_fails_first (handshake_ok ∷ es) =
    ((λ h. absurd (past-ne-gone _ (run-is_past es (alive active) refl) h)), (λ h. cc))
destroyed_iff_fails_first (handshake_fail ∷ es) = ((λ _. refl), (λ _. run-gone es))
destroyed_iff_fails_first (packet_received ∷ es) = destroyed_iff_fails_first es
destroyed_iff_fails_first (idle_timeout ∷ es) = destroyed_iff_fails_first es
destroyed_iff_fails_first (expiry_timeout ∷ es) = destroyed_iff_fails_first es
destroyed_iff_fails_first (explicit_logout ∷ es) = destroyed_iff_fails_first es
destroyed_iff_fails_first (unlisted_event n ∷ es) = destroyed_iff_fails_first es

-- A region of lives that only the events `a` and `b` leave.
module _ (p : Life → Bool) (a b : Event)
    (only : (l : Life) (e : Event) → p l ≡ true → (e ≡ a) ⊎ ((e ≡ b) ⊎ (p (step l e) ≡ true))) where
  leave_needs :
      (es : List Event) (l : Life) → p l ≡ true → p (run l es) ≡ false → Memᴰ a es ⊎ Memᴰ b es
  unfolding run
  leave_needs [] l h k = cc
  leave_needs (e ∷ es) l h k = elim (only l e h) [
    | inl q ↦ inl (Memᴰ.head (sym q))
    | inr (inl q) ↦ inr (Memᴰ.head (sym q))
    | inr (inr q) ↦ elim (leave_needs es (step l e) q k) [
      | inl m ↦ inl (Memᴰ.tail m)
      | inr m ↦ inr (Memᴰ.tail m)
    ]
  ]

abbrev before_handshake : Life → Bool
before_handshake l = not (is_past l)

abbrev not_expired : Life → Bool
not_expired (alive expired) = false
not_expired _ = true

-- Not asleep nor expired.
abbrev awake : Life → Bool
awake (alive sleeping) = false
awake (alive expired) = false
awake _ = true

only_handshake :
    (l : Life) (e : Event)
    → before_handshake l ≡ true
    → (e ≡ handshake_ok) ⊎ ((e ≡ handshake_ok) ⊎ (before_handshake (step l e) ≡ true))
unfolding step transition
only_handshake l e h = ground arith

only_ending :
    (l : Life) (e : Event)
    → not_expired l ≡ true
    → (e ≡ explicit_logout) ⊎ ((e ≡ expiry_timeout) ⊎ (not_expired (step l e) ≡ true))
unfolding step transition
only_ending l e h = ground arith

only_dozing :
    (l : Life) (e : Event)
    → awake l ≡ true
    → (e ≡ explicit_logout) ⊎ ((e ≡ idle_timeout) ⊎ (awake (step l e) ≡ true))
unfolding step transition
only_dozing l e h = ground arith

same_side {ℓ} : {A : Type ℓ} → A ⊎ A → A
same_side (inl a) = a
same_side (inr a) = a

-- A new session that has expired had a successful handshake, and then a logout or both timeouts.
expired_needs :
    (es : List Event)
    → run (alive connecting) es ≡ alive expired
    → Memᴰ handshake_ok es
      × (Memᴰ explicit_logout es ⊎ (Memᴰ idle_timeout es × Memᴰ expiry_timeout es))
expired_needs es h = (
  same_side (leave_needs before_handshake _ _ only_handshake es (alive connecting) refl (rw h)),
  both (leave_needs awake _ _ only_dozing es (alive connecting) refl (rw h))
      (leave_needs not_expired _ _ only_ending es (alive connecting) refl (rw h)),
)
  where
    both :
        Memᴰ explicit_logout es ⊎ Memᴰ idle_timeout es
        → Memᴰ explicit_logout es ⊎ Memᴰ expiry_timeout es
        → Memᴰ explicit_logout es ⊎ (Memᴰ idle_timeout es × Memᴰ expiry_timeout es)
    both (inl m) r = inl m
    both (inr i) (inl m) = inl m
    both (inr i) (inr x) = inr (i, x)
