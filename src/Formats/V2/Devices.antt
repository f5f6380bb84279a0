-- ===== src/Formats/V2/Devices.antt =====
-- osbuild/formats/v2.py: `sort_devices`.
pub mod Pass
pub mod Sorted
use osbuild.Prelude.{
  ℕ, zero, suc, String, ◌==◌, Bool, true, false, not, ◌&&◌, Option, none, some, List, [], ◌∷◌, ◌++◌,
  if◌then◌else◌, truthy_text, truthy_name, Result, ok, err, value_error, length, same_number,
}
use osbuild.Prelude.Dict
use osbuild.Prelude.Dict.{Dict}
use osbuild.Formats.V2.{DeviceDesc}

unfoldable pub mem : String → List String → Bool
mem x [] = false
mem x (y ∷ ys) = if y == x then true else mem x ys

-- `list(filter(bool, todo))`
unfoldable pub filter_names : List String → List String
filter_names [] = []
filter_names (x ∷ xs) = let rest = filter_names xs in if truthy_text x then x ∷ rest else rest

-- What a device waits for, among what is done already: nothing, a parent that is still in `todo`, or
-- a parent that is missing.
pub data Wait : Type 0 where
  ready waits missing : Wait

unfoldable pub wait_for : Option String → List String → Dict DeviceDesc → Wait
wait_for none todo result = ready
wait_for (some parent) todo result =
    if truthy_text parent && not (Dict.has parent result)
    then (if mem parent todo then waits else missing)
    else ready

-- The inner loop. `kept` is the part of `todo` before the current device that was not cleared, in
-- reverse: a device that is done is `None` in `todo`, and so is found there no more. The loop gives
-- back what is left in `todo`, and the result.
unfoldable pub pass :
    Dict DeviceDesc
    → List String
    → List String
    → Dict DeviceDesc
    → Result (List String × Dict DeviceDesc)
pass devices kept [] result = ok (kept, result)
pass devices kept (name ∷ todo) result = elim (Dict.get name devices) [
  | none ↦ err value_error
  | some desc ↦ elim (wait_for desc.parent (kept ++ name ∷ todo) result) [
    | ready ↦ pass devices kept todo (Dict.put name desc result)
    | waits ↦ pass devices (kept ++ name ∷ []) todo result
    | missing ↦ err value_error
  ]
]

-- `while todo`, with fuel for its rounds; `none` means that the fuel ran out.
unfoldable pub sort_rounds :
    Dict DeviceDesc → ℕ → List String → Dict DeviceDesc → Option (Result (Dict DeviceDesc))
sort_rounds devices n [] result = some (ok result)
sort_rounds devices zero (x ∷ todo) result = none
sort_rounds devices (suc n) (x ∷ todo) result = elim (pass devices [] (x ∷ todo) result) [
  | err e ↦ some (err e)
  | ok (left, result') ↦
      let next = sort_rounds devices n (filter_names left) result' in
      if same_number (length (filter_names left)) (length (x ∷ todo))
      then some (err value_error)
      else next
]

-- A round that goes on has cleared a device, so a round for each device is enough.
unfoldable pub sort_devices : Dict DeviceDesc → Option (Result (Dict DeviceDesc))
unfolding sort_rounds
sort_devices devices = sort_rounds devices (length devices) (Dict.keys devices) []
