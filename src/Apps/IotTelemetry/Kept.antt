-- ===== src/Apps/IotTelemetry/Kept.antt =====
-- The records that the store of the telemetry server (examples/iot-telemetry/server.go) keeps.
use mathlib.Core.List.{append-nil, append_assoc}
use native.Mathlib.Nat.{sub-eq-zero_of_le}
use native.Mathlib.Decide.{dec_lt}
use fproto.Base.{
  ℕ, suc, ◌≡◌, ◌≤◌, ◌-◌, refl, ap, sym, subst, ◌∙◌, true, false, List, [], ◌∷◌, ◌++◌, arith, Bytes,
  ltb, if◌then◌else◌, length, drop, filter, assign, bytes_equal, bytes_equal_iff, Bool-cases, inl,
  inr, lookup-assign, lookup-assign_other, length-append, length-drop,
}
use fproto.Apps.IotTelemetry.{Telemetry, TelemetryStore, records_of, or_empty, add, add_all, kept}

-- The last k of a list.
abbrev pub last {ℓ} : {A : Type ℓ} → ℕ → List A → List A
last k xs = drop (length xs - k) xs

pub length-last {ℓ} : {A : Type ℓ} (k : ℕ) (xs : List A) → length (last k xs) ≤ k
length-last k xs = omega (arith, length-drop (length xs - k) xs)

last_all {ℓ} : {A : Type ℓ} (k : ℕ) (xs : List A) → length xs ≤ k → last k xs ≡ xs
last_all k xs h = rw (sub-eq-zero_of_le {n = length xs} {m = k} h)

last-cons {ℓ} :
    {A : Type ℓ} (k : ℕ) (x : A) (xs : List A) → k ≤ length xs → last k (x ∷ xs) ≡ last k xs
last-cons k x xs h = let e : suc (length xs) - k ≡ suc (length xs - k) = omega arith in rw e

-- Only the last k matter for the last k of a longer list.
last-append {ℓ} :
    {A : Type ℓ} (k : ℕ) (xs ys : List A) → last k (last k xs ++ ys) ≡ last k (xs ++ ys)
last-append {A} k [] ys = rw (last_all {A = A} k [] (omega arith))
last-append {A} k (x ∷ xs) ys = elim (dec_lt (length xs) k) [
  | yes few ↦ let few' : length (x ∷ xs) ≤ k = omega arith in rw (last_all {A = A} k (x ∷ xs) few')
  | no many ↦
      rw
        (
          last-cons {A = A} k x xs (omega arith),
          last-cons {A = A} k x (xs ++ ys) (omega (arith, length-append xs ys)),
        )
        (last-append k xs ys)
]

module _ {Value : Type 0} where
  -- What was reported for a device, among all that was.
  abbrev pub of_device : Bytes → List (Telemetry Value) → List (Telemetry Value)
  of_device id = filter (λ t. bytes_equal t.device_id id)

  -- No device has more records than are kept.
  abbrev pub IsBounded : TelemetryStore Value → Type 0
  IsBounded store = (id : Bytes) → length (records_of id store) ≤ kept

  records_of-add_self :
      (t : Telemetry Value) (s : TelemetryStore Value)
      → records_of t.device_id (add t s) ≡ last kept (records_of t.device_id s ++ (t ∷ []))
  unfolding add
  records_of-add_self t s =
      rw (lookup-assign t.device_id (records_of t.device_id s ++ (t ∷ [])) s)
        (elim (Bool-cases (ltb kept (length (records_of t.device_id s ++ (t ∷ []))))) [
          | inl more ↦ rw more (
              rw (
                lookup-assign t.device_id (last kept (records_of t.device_id s ++ (t ∷ [])))
                  (assign t.device_id (records_of t.device_id s ++ (t ∷ [])) s)))
          | inr fits ↦ rw fits (
              rw (lookup-assign t.device_id (records_of t.device_id s ++ (t ∷ [])) s)
                (sym (last_all kept (records_of t.device_id s ++ (t ∷ [])) (ground arith))))
        ])

  records_of-add_other :
      (id : Bytes) (t : Telemetry Value) (s : TelemetryStore Value)
      → bytes_equal t.device_id id ≡ false
      → records_of id (add t s) ≡ records_of id s
  unfolding add
  records_of-add_other id t s h =
      elim (Bool-cases (
        ltb kept (
          length (
            records_of t.device_id
              (assign t.device_id (records_of t.device_id s ++ (t ∷ [])) s))))) [
                | inl more ↦ rw more (
                    ap or_empty (
                      lookup-assign_other t.device_id id _ _ h
                      ∙ lookup-assign_other t.device_id id _ _ h))
                | inr fits ↦ rw fits (ap or_empty (lookup-assign_other t.device_id id _ _ h))
              ]

  records_of-add :
      (id : Bytes) (t : Telemetry Value) (s : TelemetryStore Value)
      → IsBounded s
      → records_of id (add t s) ≡ last kept (records_of id s ++ of_device id (t ∷ []))
  records_of-add id t s b = elim (Bool-cases (bytes_equal t.device_id id)) [
    | inl own ↦ rw own (
        subst (λ i. records_of i (add t s) ≡ last kept (records_of i s ++ (t ∷ [])))
          ((bytes_equal_iff t.device_id id).0 own) (records_of-add_self t s))
    | inr other ↦ rw other (
        records_of-add_other id t s other
        ∙ sym (
            ap (last kept) (append-nil (records_of id s)) ∙ last_all kept (records_of id s) (b id)))
  ]

  add-IsBounded :
      (t : Telemetry Value) (s : TelemetryStore Value) → IsBounded s → IsBounded (add t s)
  add-IsBounded t s b id =
      rw (records_of-add id t s b) (length-last kept (records_of id s ++ of_device id (t ∷ [])))

  pub add_all-append :
      (ts us : List (Telemetry Value)) (s : TelemetryStore Value)
      → add_all (ts ++ us) s ≡ add_all us (add_all ts s)
  add_all-append [] us s = refl
  add_all-append (t ∷ ts) us s = add_all-append ts us (add t s)

  of_device-cons :
      (id : Bytes) (t : Telemetry Value) (ts : List (Telemetry Value))
      → of_device id (t ∷ ts) ≡ of_device id (t ∷ []) ++ of_device id ts
  of_device-cons id t ts =
      elim (bytes_equal t.device_id id)
        as (λ b.
          (if b then t ∷ of_device id ts else of_device id ts)
          ≡ (if b then t ∷ [] else []) ++ of_device id ts) [ true ↦ refl | false ↦ refl ]

  pub records_of-add_all :
      (id : Bytes) (ts : List (Telemetry Value)) (s : TelemetryStore Value)
      → IsBounded s
      → records_of id (add_all ts s) ≡ last kept (records_of id s ++ of_device id ts)
  records_of-add_all id [] s b =
      sym (ap (last kept) (append-nil (records_of id s)) ∙ last_all kept (records_of id s) (b id))
  records_of-add_all id (t ∷ ts) s b =
      records_of-add_all id ts (add t s) (add-IsBounded t s b)
      ∙ ap (λ rs. last kept (rs ++ of_device id ts)) (records_of-add id t s b)
      ∙ last-append kept (records_of id s ++ of_device id (t ∷ [])) (of_device id ts)
      ∙ ap (last kept) (
          append_assoc (records_of id s) (of_device id (t ∷ [])) (of_device id ts)
          ∙ ap (λ rs. records_of id s ++ rs) (sym (of_device-cons id t ts)))
