-- ===== src/Devices/Store.antt =====
-- The map of devices, and the step that every method of pkg/devbuilder/devices.go begins with.
use text.Mathlib.Text.{◌==◌ as str_eq}
use kuidapps.Prelude.{String, Option, none, some, List, [], ◌∷◌, map, get_or, if◌then◌else◌}
use kuidapps.Schema.{NetworkDevice}
use kuidapps.Device.Root.{Device, new_device}

-- Go's map with the node names as keys. Its order of iteration is unspecified; the list's order
-- is one of them.
pub record Devices : Type 0 where
  pub namespace : String
  pub name : String
  pub devices : List (String × Device)

unfoldable pub new_devices : String → String → Devices
new_devices namespace name = record { namespace = namespace; name = name; devices = [] }

unfoldable pub lookup : String → List (String × Device) → Option Device
lookup n [] = none
lookup n ((m, d) ∷ l) = if str_eq m n then some d else lookup n l

-- `m[n] = v` where `v` is `f` of the value under `n`, or of `fresh` where there is none.
unfoldable pub upsert :
    String → Device → (Device → Device) → List (String × Device) → List (String × Device)
upsert n fresh f [] = (n, f fresh) ∷ []
upsert n fresh f ((m, d) ∷ l) = if str_eq m n then (m, f d) ∷ l else (m, d) ∷ upsert n fresh f l

abbrev pub get_device : String → Devices → Option Device
get_device n r = lookup n r.devices

-- The device that a method of `node_name` writes to.
abbrev pub device_or_new : String → Devices → Device
device_or_new node_name r =
    get_or (lookup node_name r.devices) (new_device r.namespace r.name node_name)

unfoldable pub with_device : String → (Device → Device) → Devices → Devices
unfolding upsert new_device
with_device node_name write r = record r {
  devices = upsert node_name (new_device r.namespace r.name node_name) write r.devices;
}

unfoldable pub get_network_device_configs : Devices → List NetworkDevice
get_network_device_configs r = map (λ e. e.1.nd) r.devices
