-- ===== src/Base/Maps.antt =====
-- Maps as association lists, keyed by bytes.
use mathlib.Core.Path.{◌≡◌, refl}
use mathlib.Core.Bool.{false}
use mathlib.Core.List.{List, [], ◌∷◌}
use mathlib.Core.Option.{Option, none, some}
use native.Mathlib.Omega.{arith}
use fproto.Base.Tests.{if◌then◌else◌}
use Prim.Native.Nat.{suc, ◌≤◌}
use fproto.Base.Lists.{length}
use fproto.Base.ByteStrings.{Bytes, bytes_equal, bytes_equal_iff}

abbrev pub Map {ℓ} : Type ℓ → Type ℓ
Map A = List (Bytes × A)

module _ {ℓ} {A : Type ℓ} where
  unfoldable pub lookup : Bytes → Map A → Option A
  lookup k [] = none
  lookup k ((j, a) ∷ m) = if bytes_equal j k then some a else lookup k m

  unfoldable pub assign : Bytes → A → Map A → Map A
  assign k a [] = (k, a) ∷ []
  assign k a ((j, b) ∷ m) = if bytes_equal j k then (j, a) ∷ m else (j, b) ∷ assign k a m

  unfoldable pub unassign : Bytes → Map A → Map A
  unassign k [] = []
  unassign k ((j, b) ∷ m) = if bytes_equal j k then unassign k m else (j, b) ∷ unassign k m

  pub lookup-assign : (k : Bytes) (a : A) (m : Map A) → lookup k (assign k a m) ≡ some a
  unfolding lookup assign
  lookup-assign k a [] = ground (arith, bytes_equal_iff k k)
  lookup-assign k a ((j, b) ∷ m) = ground (arith, bytes_equal_iff j k, lookup-assign k a m)

  pub lookup-assign_other :
      (j k : Bytes) (a : A) (m : Map A)
      → bytes_equal j k ≡ false
      → lookup k (assign j a m) ≡ lookup k m
  unfolding lookup assign
  lookup-assign_other j k a [] h = rw h
  lookup-assign_other j k a ((i, b) ∷ m) h = ground (
    arith,
    lookup-assign_other j k a m h,
    bytes_equal_iff i j,
    bytes_equal_iff i k,
    bytes_equal_iff j k,
  )

  pub length-assign-le_suc :
      (k : Bytes) (a : A) (m : Map A) → length (assign k a m) ≤ suc (length m)
  unfolding assign
  length-assign-le_suc k a [] = omega arith
  length-assign-le_suc k a ((j, b) ∷ m) = ground (arith, length-assign-le_suc k a m)

  pub lookup-unassign : (k : Bytes) (m : Map A) → lookup k (unassign k m) ≡ none
  unfolding lookup unassign
  lookup-unassign k [] = refl
  lookup-unassign k ((j, b) ∷ m) = ground (arith, lookup-unassign k m)

  pub lookup-unassign_other :
      (j k : Bytes) (m : Map A) → bytes_equal j k ≡ false → lookup k (unassign j m) ≡ lookup k m
  unfolding lookup unassign
  lookup-unassign_other j k [] h = refl
  lookup-unassign_other j k ((i, b) ∷ m) h = ground (
    arith,
    lookup-unassign_other j k m h,
    bytes_equal_iff i j,
    bytes_equal_iff i k,
    bytes_equal_iff j k,
  )
