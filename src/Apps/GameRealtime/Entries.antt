-- ===== src/Apps/GameRealtime/Entries.antt =====
-- Sums and predicates over the entries of a map, as its keys are assigned.
use fproto.Base.{
  ℕ, ◌≡◌, ◌≢◌, ◌≤◌, ◌+◌, subst, true, false, none, some, [], ◌∷◌, arith, Bytes, if◌then◌else◌,
  length, All, Map, lookup, assign, bytes_equal, bytes_equal_iff, Bool-cases, inl, inr,
  lookup-assign, lookup-assign_other,
}

-- Sums over the entries of a map.
module _ {ℓ} {A : Type ℓ} (f : A → ℕ) where
  abbrev pub total : Map A → ℕ
  total [] = 0
  total ((k, a) ∷ m) = f a + total m

  pub total-assign :
      (k : Bytes) (old new : A) (m : Map A)
      → lookup k m ≡ some old
      → total (assign k new m) + f old ≡ total m + f new
  unfolding lookup assign
  total-assign k old new [] h = cc
  total-assign k old new ((j, a) ∷ m) h = ground (arith, total-assign k old new m)

  pub total-assign_new :
      (k : Bytes) (a : A) (m : Map A) → lookup k m ≡ none → total (assign k a m) ≡ total m + f a
  unfolding lookup assign
  total-assign_new k a [] h = omega arith
  total-assign_new k a ((j, b) ∷ m) h = ground (arith, total-assign_new k a m)

  pub le-total : (k : Bytes) (a : A) (m : Map A) → lookup k m ≡ some a → f a ≤ total m
  unfolding lookup
  le-total k a [] h = cc
  le-total k a ((j, b) ∷ m) h = ground (arith, le-total k a m)

module _ {ℓ κ} {A : Type ℓ} (P : A → Type κ) where
  abbrev pub Each : Map A → Type κ
  Each = All (λ e. P e.1)

  pub Each-assign : (k : Bytes) (a : A) (m : Map A) → P a → Each m → Each (assign k a m)
  unfolding assign
  Each-assign k a [] p h = (p, tt)
  Each-assign k a ((j, b) ∷ m) p h =
      elim (bytes_equal j k) as (λ t. Each (if t then (j, a) ∷ m else (j, b) ∷ assign k a m)) [
        | true ↦ (p, h.1)
        | false ↦ (h.0, Each-assign k a m p h.1)
      ]

  pub Each-lookup : (k : Bytes) (a : A) (m : Map A) → lookup k m ≡ some a → Each m → P a
  unfolding lookup
  Each-lookup k a [] e h = cc
  Each-lookup k a ((j, b) ∷ m) e h = elim (Bool-cases (bytes_equal j k)) [
    | inl here ↦ subst P (ground arith) h.0
    | inr there ↦ Each-lookup k a m (ground arith) h.1
  ]

module _ {ℓ} {A : Type ℓ} where
  -- A key that is assigned stays assigned.
  pub lookup-assign-ne-none :
      (j k : Bytes) (a : A) (m : Map A) → lookup k m ≢ none → lookup k (assign j a m) ≢ none
  lookup-assign-ne-none j k a m h = elim (Bool-cases (bytes_equal j k)) [
    | inl e ↦ λ n. ground (arith, bytes_equal_iff j k, lookup-assign j a m)
    | inr e ↦ λ n. h (cc (lookup-assign_other j k a m e))
  ]

  pub length-assign-le : (k : Bytes) (a : A) (m : Map A) → length m ≤ length (assign k a m)
  unfolding assign
  length-assign-le k a [] = omega arith
  length-assign-le k a ((j, b) ∷ m) = ground (arith, length-assign-le k a m)

  pub total-le_length : (f : A → ℕ) → ((a : A) → f a ≤ 1) → (m : Map A) → total f m ≤ length m
  total-le_length f h [] = omega arith
  total-le_length f h ((k, a) ∷ m) = omega (arith, h a, total-le_length f h m)
