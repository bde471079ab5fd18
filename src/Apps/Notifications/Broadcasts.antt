-- ===== src/Apps/Notifications/Broadcasts.antt =====
-- Who gets a broadcast of the notification server (examples/notifications/server.go).
use fproto.Base.{
  suc, ◌≡◌, refl, ap, subst, ◌∙◌, Bool, true, false, ◌&&◌, Option, none, some, [], ◌∷◌, arith,
  Bytes, Result, ok, err, if◌then◌else◌, length, Map, lookup, assign, unassign, bytes_equal,
  bytes_equal_iff, Bool-cases, inl, inr, lookup-assign_other,
}
use fproto.Noise
use fproto.Noise.{Noise, Session, NoiseError, encrypt, decrypt}
use fproto.Apps.Notifications.{Subscriber, NotifyHub, wants, Sent, written, passed_by, deliver}

-- No key stands twice in a map.
module _ {ℓ} {A : Type ℓ} where
  abbrev pub IsDistinct : Map A → Type ℓ
  IsDistinct [] = Unit
  IsDistinct ((k, a) ∷ m) = (lookup k m ≡ none) × IsDistinct m

  lookup-assign-none :
      (j k : Bytes) (a : A) (m : Map A)
      → bytes_equal k j ≡ false
      → lookup j m ≡ none
      → lookup j (assign k a m) ≡ none
  lookup-assign-none j k a m h e = lookup-assign_other k j a m h ∙ e

  pub assign-IsDistinct : (k : Bytes) (a : A) (m : Map A) → IsDistinct m → IsDistinct (assign k a m)
  unfolding assign lookup
  assign-IsDistinct k a [] d = (refl, tt)
  assign-IsDistinct k a ((j, b) ∷ m) d = elim (Bool-cases (bytes_equal j k)) [
    | inl e ↦ rw e d
    | inr e ↦ rw e (
      lookup-assign-none j k a m (ground (arith, bytes_equal_iff j k, bytes_equal_iff k j)) d.0,
      assign-IsDistinct k a m d.1,
    )
  ]

  lookup-unassign-none :
      (j k : Bytes) (m : Map A) → lookup j m ≡ none → lookup j (unassign k m) ≡ none
  unfolding lookup unassign
  lookup-unassign-none j k [] e = refl
  lookup-unassign-none j k ((i, b) ∷ m) e = ground (arith, lookup-unassign-none j k m)

  pub unassign-IsDistinct : (k : Bytes) (m : Map A) → IsDistinct m → IsDistinct (unassign k m)
  unfolding unassign
  unassign-IsDistinct k [] d = tt
  unassign-IsDistinct k ((j, b) ∷ m) d = elim (Bool-cases (bytes_equal j k)) [
    | inl e ↦ rw e (unassign-IsDistinct k m d.1)
    | inr e ↦ rw e (lookup-unassign-none j k m d.0, unassign-IsDistinct k m d.1)
  ]

none_anyway : (b : Bool) → ◌≡◌ {A = Option Bytes} none (if b then none else none)
none_anyway true = refl
none_anyway false = refl

module _ {Handshake Cipher : Type 0} (n : Noise Handshake Cipher) (channel msg : Bytes)
    (writes : Bytes → Bool) where
  abbrev or_none : Result NoiseError Bytes → Option Bytes
  or_none (ok ct) = some ct
  or_none (err e) = none

  -- What a subscriber is sent, and what becomes of it.
  abbrev pub delivery : Bytes → Option (Subscriber Cipher) → Option Bytes
  delivery id none = none
  delivery id (some sub) =
      if wants channel sub && writes id then or_none (Noise.encrypt n msg sub.session).0 else none

  abbrev pub advanced : Option (Subscriber Cipher) → Option (Subscriber Cipher)
  advanced none = none
  advanced (some sub) = some (
      if wants channel sub
      then record sub { session = (Noise.encrypt n msg sub.session).1 }
      else sub)

  abbrev Delivered : Bytes → NotifyHub Cipher → Sent n → Type 0
  Delivered id h (k, ds, h') =
      (lookup id ds ≡ delivery id (lookup id h))
      × (lookup id h' ≡ advanced (lookup id h))
      × (k ≡ length ds)

  written-Delivered :
      (id j : Bytes) (sub : Subscriber Cipher) (h : NotifyHub Cipher)
      (p : Result NoiseError Bytes × Session Cipher) (r : Sent n)
      → wants channel sub ≡ true
      → Noise.encrypt n msg sub.session ≡ p
      → lookup j h ≡ none
      → Delivered id h r
      → Delivered id ((j, sub) ∷ h) (written n j (writes j) sub p r)
  unfolding lookup
  written-Delivered id j sub h (err e, s) (k, ds, h') w q a v =
      elim (Bool-cases (bytes_equal j id)) [
        | inl here ↦
            let gone : lookup id h ≡ none =
              subst (λ i. lookup i h ≡ none) ((bytes_equal_iff j id).0 here) a in
            let nothing : lookup id ds ≡ none = v.0 ∙ ap (delivery id) gone in
            rw (here, w, q, nothing) (none_anyway (writes id), refl, v.2)
        | inr there ↦ rw there v
      ]
  written-Delivered id j sub h (ok ct, s) (k, ds, h') w q a v =
      elim (Bool-cases (bytes_equal j id)) [
        | inl here ↦
            let same : j ≡ id = (bytes_equal_iff j id).0 here in
            let gone : lookup id h ≡ none = subst (λ i. lookup i h ≡ none) same a in
            let nothing : lookup id ds ≡ none = v.0 ∙ ap (delivery id) gone in
            elim (Bool-cases (writes id)) [
              | inl yes_w ↦ rw (ap writes same ∙ yes_w, here, w, yes_w, q) (refl, refl, ap suc v.2)
              | inr no_w ↦ rw (ap writes same ∙ no_w, here, w, no_w, q) (nothing, refl, v.2)
            ]
        | inr there ↦ elim (Bool-cases (writes j)) [
          | inl yes_w ↦ rw (yes_w, there) (v.0, v.1, ap suc v.2)
          | inr no_w ↦ rw (no_w, there) v
        ]
      ]

  passed_by-Delivered :
      (id j : Bytes) (sub : Subscriber Cipher) (h : NotifyHub Cipher) (r : Sent n)
      → wants channel sub ≡ false
      → lookup j h ≡ none
      → Delivered id h r
      → Delivered id ((j, sub) ∷ h) (passed_by n j sub r)
  unfolding lookup
  passed_by-Delivered id j sub h (k, ds, h') w a v = elim (Bool-cases (bytes_equal j id)) [
    | inl here ↦
        let gone : lookup id h ≡ none =
          subst (λ i. lookup i h ≡ none) ((bytes_equal_iff j id).0 here) a in
        rw (here, w) (v.0 ∙ ap (delivery id) gone, refl, v.2)
    | inr there ↦ rw there v
  ]

  -- Of subscribers with distinct ids: a broadcast sends to exactly those that want the channel, whose
  -- encryption and write succeed; it moves on the sessions of those that want the channel; and it counts
  -- what it sends.
  pub deliver-Delivered :
      (id : Bytes) (h : NotifyHub Cipher)
      → IsDistinct h
      → let (k, ds, h') = deliver n channel msg writes h in
        (lookup id ds ≡ delivery id (lookup id h))
        × (lookup id h' ≡ advanced (lookup id h))
        × (k ≡ length ds)
  unfolding deliver lookup
  deliver-Delivered id [] d = (refl, refl, refl)
  deliver-Delivered id ((j, sub) ∷ h) d = elim (Bool-cases (wants channel sub)) [
    | inl w ↦ rw w (
        written-Delivered id j sub h (Noise.encrypt n msg sub.session)
          (deliver n channel msg writes h) w refl d.0 (deliver-Delivered id h d.1))
    | inr w ↦ rw w (
        passed_by-Delivered id j sub h (deliver n channel msg writes h) w d.0
          (deliver-Delivered id h d.1))
  ]

  written-IsDistinct :
      (id : Bytes) (w : Bool) (sub : Subscriber Cipher)
      (p : Result NoiseError Bytes × Session Cipher) (r : Sent n)
      → lookup id r.2 ≡ none
      → IsDistinct r.2
      → IsDistinct (written n id w sub p r).2
  written-IsDistinct id w sub (err e, s) r a d = (a, d)
  written-IsDistinct id true sub (ok ct, s) r a d = (a, d)
  written-IsDistinct id false sub (ok ct, s) r a d = (a, d)

  pub deliver-IsDistinct :
      (h : NotifyHub Cipher) → IsDistinct h → IsDistinct (deliver n channel msg writes h).2
  unfolding deliver
  deliver-IsDistinct [] d = tt
  deliver-IsDistinct ((id, sub) ∷ h) d =
      let absent = (deliver-Delivered id h d.1).1 ∙ ap advanced d.0 in
      elim (Bool-cases (wants channel sub)) [
        | inl w ↦ rw w (
            written-IsDistinct id (writes id) sub (Noise.encrypt n msg sub.session)
              (deliver n channel msg writes h) absent (deliver-IsDistinct h d.1))
        | inr w ↦ rw w (absent, deliver-IsDistinct h d.1)
      ]
