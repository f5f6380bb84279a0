-- ===== src/Formats/V2/Devices/Sorted.antt =====
-- osbuild/formats/v2.py: what `sort_devices` returns.
use osbuild.Prelude.{
  ℕ, zero, suc, ◌≤◌, String, true, some, List, [], ◌∷◌, truthy_text, Result, ok, err, Error,
  value_error, length, same_number, Has, All, All-imp, All-Has, ◌≡◌, refl, ap, ◌⊎◌, inl, inr, arith,
  Bool-cases,
}
use osbuild.Prelude.Dict
use osbuild.Prelude.Dict.{Dict}
use osbuild.Formats.V2.{DeviceDesc}
use osbuild.Formats.V2.Devices.{filter_names, pass, sort_rounds, sort_devices}
use osbuild.Formats.V2.Devices.Pass.{IsFrom, IsSorted, Covers, PassInv, pass-PassInv}

length-filter_names-le : (xs : List String) → length (filter_names xs) ≤ length xs
unfolding filter_names
length-filter_names-le [] = omega arith
length-filter_names-le (x ∷ xs) = ground (arith, length-filter_names-le xs)

Has-filter_names :
    (k : String) (xs : List String) → truthy_text k ≡ true → Has k xs → Has k (filter_names xs)
unfolding filter_names
Has-filter_names k [] t h = h
Has-filter_names k (x ∷ xs) t (inl e) = rw ((rw e at t)) (inl e)
Has-filter_names k (x ∷ xs) t (inr h) = elim (Bool-cases (truthy_text x)) [
  | inl yes_x ↦ rw yes_x (inr (Has-filter_names k xs t h))
  | inr no_x ↦ rw no_x (Has-filter_names k xs t h)
]

pub Result-cases :
    {A : Type 0} (r : Result A) → ((a : A) × (r ≡ ok a)) ⊎ ((e : Error) × (r ≡ err e))
Result-cases (ok a) = inl (a, refl)
Result-cases (err e) = inr (e, refl)

abbrev pub AllTruthy : List String → Type 0
AllTruthy = All (λ (k : String). truthy_text k ≡ true)

Covers-filter :
    (left : List String) (result : Dict DeviceDesc) (names : List String)
    → AllTruthy names
    → Covers left result names
    → Covers (filter_names left) result names
Covers-filter left result [] t c = tt
Covers-filter left result (k ∷ names) t c = (
  elim c.0 [ inl w ↦ inl (Has-filter_names k left t.0 w) | inr h ↦ inr h ],
  Covers-filter left result names t.1 c.1,
)

PassInv-filter :
    (devices : Dict DeviceDesc) (names left : List String) (result : Dict DeviceDesc)
    → AllTruthy names
    → PassInv devices names left result
    → PassInv devices names (filter_names left) result
PassInv-filter devices names left result t inv = record {
  from = inv.from;
  sorted = inv.sorted;
  covers = Covers-filter left result names t inv.covers;
}

sort_rounds-PassInv :
    (devices : Dict DeviceDesc) (names : List String) (n : ℕ) (todo : List String)
    (result : Dict DeviceDesc) {r : Dict DeviceDesc}
    → AllTruthy names
    → PassInv devices names todo result
    → sort_rounds devices n todo result ≡ some (ok r)
    → PassInv devices names [] r
unfolding sort_rounds
sort_rounds-PassInv devices names n [] result {r} t inv e =
    let same : result ≡ r = cc in rw (← same) inv
sort_rounds-PassInv devices names zero (x ∷ todo) result t inv e = cc
sort_rounds-PassInv devices names (suc n) (x ∷ todo) result {r} t inv e =
    elim (Result-cases (pass devices [] (x ∷ todo) result)) [
      | inl ((left, result'), p) ↦
          let kept =
            PassInv-filter devices names left result' t
              (pass-PassInv devices names [] (x ∷ todo) result inv p).0 in
          elim (Bool-cases (same_number (length (filter_names left)) (length (x ∷ todo)))) [
            | inl stuck ↦ let e' = (rw (p, sort_rounds, stuck) at e) in cc
            | inr moved ↦
                sort_rounds-PassInv devices names n (filter_names left) result' t kept
                  (rw (p, sort_rounds, moved) at e)
          ]
      | inr (x', p) ↦ let e' = (rw (p, sort_rounds) at e) in cc
    ]

sort_rounds_total :
    (devices : Dict DeviceDesc) (n : ℕ) (todo : List String) (result : Dict DeviceDesc)
    → length todo ≤ n
    → PassInv devices [] todo result
    → (o : Result (Dict DeviceDesc)) × (sort_rounds devices n todo result ≡ some o)
unfolding sort_rounds
sort_rounds_total devices zero [] result le inv = (ok result, refl)
sort_rounds_total devices (suc n) [] result le inv = (ok result, refl)
sort_rounds_total devices zero (x ∷ todo) result le inv = absurd (omega arith)
sort_rounds_total devices (suc n) (x ∷ todo) result le inv =
    elim (Result-cases (pass devices [] (x ∷ todo) result)) [
      | inl ((left, result'), p) ↦
          let (kept, short) = pass-PassInv devices [] [] (x ∷ todo) result inv p in
          elim (Bool-cases (same_number (length (filter_names left)) (length (x ∷ todo)))) [
            | inl stuck ↦ (err value_error, rw (p, sort_rounds, stuck))
            | inr moved ↦
                let fewer = length-filter_names-le left in
                rw (p, sort_rounds, moved)
                  (sort_rounds_total devices n (filter_names left) result' (ground arith)
                    (PassInv-filter devices [] left result' tt kept))
          ]
      | inr (e, p) ↦ (err e, rw (p, sort_rounds))
    ]

-- The result of `sort_devices` holds devices as they were described, each behind its parent, and
-- none is lost when all names are texts other than the empty one.
pub sort_devices-IsSorted :
    (devices : Dict DeviceDesc) {r : Dict DeviceDesc}
    → AllTruthy (Dict.keys devices)
    → sort_devices devices ≡ some (ok r)
    → IsFrom devices r
      × IsSorted [] r
      × All (λ (k : String). Dict.has k r ≡ true) (Dict.keys devices)
unfolding sort_devices
sort_devices-IsSorted devices {r} t e =
    let inv =
      sort_rounds-PassInv devices (Dict.keys devices) (length devices) (Dict.keys devices) [] t
        (record { from = tt; sorted = tt; covers = All-Has _ (Dict.keys devices) (λ k w. inl w) })
        e in
    (
      inv.from,
      inv.sorted,
      All-imp _ _ (Dict.keys devices) (λ k w. elim w [ inl a ↦ absurd a | inr h ↦ h ]) inv.covers,
    )

length-keys : (devices : Dict DeviceDesc) → length (Dict.keys devices) ≡ length devices
unfolding Dict.keys
length-keys [] = refl
length-keys ((k, v) ∷ d) = ap suc (length-keys d)

-- `sort_devices` always ends, with a result or an error: it makes at most a round for each device.
pub sort_devices_total :
    (devices : Dict DeviceDesc) → (o : Result (Dict DeviceDesc)) × (sort_devices devices ≡ some o)
unfolding sort_devices
sort_devices_total devices =
    sort_rounds_total devices (length devices) (Dict.keys devices) []
      (omega (arith, length-keys devices)) (record { from = tt; sorted = tt; covers = tt })
