-- ===== src/Tests/Devices.antt =====
-- Runs of `sort_devices` of osbuild/formats/v2.py: a partition that is listed before its disk.
use osbuild.Prelude.{String, [], ◌∷◌, none, some, Result, ok, ◌≡◌, refl, true, All}
use osbuild.Prelude.Dict
use osbuild.Prelude.Dict.{Dict}
use osbuild.Formats.V2.{DeviceDesc}
use osbuild.Formats.V2.Devices.{sort_devices}
use osbuild.Formats.V2.Devices.Pass.{IsFrom, IsSorted}
use osbuild.Formats.V2.Devices.Sorted.{sort_devices-IsSorted, sort_devices_total}

abbrev disk : DeviceDesc
disk = record { kind = "org.osbuild.loopback"; options = none; parent = none }

abbrev volume : DeviceDesc
volume = record { kind = "org.osbuild.lvm2.lv"; options = none; parent = some "disk" }

abbrev devices : Dict DeviceDesc
devices = ("volume", volume) ∷ ("disk", disk) ∷ []

sorted_run : sort_devices devices ≡ some (ok (("disk", disk) ∷ ("volume", volume) ∷ []))
unfolding sort_devices Dict.keys osbuild.Formats.V2.Devices.pass osbuild.Formats.V2.Devices.wait_for
    Dict.get Dict.has Dict.put osbuild.Formats.V2.Devices.mem
    osbuild.Formats.V2.Devices.filter_names
sorted_run = refl

sort_devices-IsSorted_example :
    IsFrom devices (("disk", disk) ∷ ("volume", volume) ∷ [])
    × IsSorted [] (("disk", disk) ∷ ("volume", volume) ∷ [])
    × All
        (λ (k : String). Dict.has k (("disk", disk) ∷ ("volume", volume) ∷ []) ≡ true)
        (Dict.keys devices)
unfolding Dict.keys
sort_devices-IsSorted_example = sort_devices-IsSorted devices (refl, (refl, tt)) sorted_run

sort_devices_total_example : (o : Result (Dict DeviceDesc)) × (sort_devices devices ≡ some o)
sort_devices_total_example = sort_devices_total devices
