-- ===== src/Devices/Valid.antt =====
-- The invariant of the map of devices, and that the step which every method begins with keeps it.
use text.Mathlib.Text.{◌==◌ as str_eq}
use kuidapps.Prelude.{
  String, ◌≡◌, refl, ◌∙◌, inl, inr, false, List, [], ◌∷◌, All, Bool-cases, eq_iff, arith,
}
use kuidapps.Text.{◌⧺◌, split, first_part}
use kuidapps.Keyed.Canonical.{nil-IsCanonical}
use kuidapps.Device.Elements.{
  interface_element, network_instance_element, tunnel_interface_element, routing_policy_element,
}
use kuidapps.Device.Root.{Device, new_device}
use kuidapps.Device.Valid.{
  IsValidInterface, IsValidNetworkInstance, IsValidTunnelInterface, Any, IsValidSpec, IsSafe,
}
use kuidapps.Devices.Store.{Devices, new_devices, upsert, with_device}

-- The device of a node of a network: named after both, and in form.
pub record IsDeviceOf (namespace name node_name : String) (d : Device) : Type 0 where
  pub valid : IsValidSpec d.nd.spec
  pub named : d.nd.name ≡ name ⧺ "." ⧺ node_name
  pub namespaced : d.nd.namespace ≡ namespace
  pub in_topology : d.nd.spec.topology ≡ first_part (split b'.' name)

abbrev pub DistinctNodes : List (String × Device) → Type 0
DistinctNodes [] = Unit
DistinctNodes (e ∷ l) = All (λ f. str_eq f.0 e.0 ≡ false) l × DistinctNodes l

pub record IsValid (r : Devices) : Type 0 where
  pub nodes : DistinctNodes r.devices
  pub devices : All (λ e. IsDeviceOf r.namespace r.name e.0 e.1) r.devices

new_device-IsDeviceOf :
    (namespace name n : String) → IsDeviceOf namespace name n (new_device namespace name n)
unfolding new_device
new_device-IsDeviceOf namespace name n = record {
  valid = record {
    interfaces = nil-IsCanonical interface_element IsValidInterface;
    network_instances = nil-IsCanonical network_instance_element IsValidNetworkInstance;
    tunnel_interfaces = nil-IsCanonical tunnel_interface_element IsValidTunnelInterface;
    routing_policies = nil-IsCanonical routing_policy_element Any;
    bfd = tt;
  };
  named = refl;
  namespaced = refl;
  in_topology = refl;
}

write-IsDeviceOf :
    (namespace name n : String) (write : Device → Device) (d : Device)
    → IsSafe write
    → IsDeviceOf namespace name n d
    → IsDeviceOf namespace name n (write d)
write-IsDeviceOf namespace name n write d safe v = record {
  valid = safe.valid d v.valid;
  named = safe.name d ∙ v.named;
  namespaced = safe.namespace d ∙ v.namespaced;
  in_topology = safe.topology d ∙ v.in_topology;
}

module _ (namespace name n : String) (write : Device → Device) (safe : IsSafe write) where
  upsert-devices :
      (l : List (String × Device))
      → All (λ e. IsDeviceOf namespace name e.0 e.1) l
      → All
          (λ e. IsDeviceOf namespace name e.0 e.1)
          (upsert n (new_device namespace name n) write l)
  unfolding upsert
  upsert-devices [] h =
      (write-IsDeviceOf namespace name n write _ safe (new_device-IsDeviceOf namespace name n), tt)
  upsert-devices ((m, d) ∷ l) h = elim (Bool-cases (str_eq m n)) [
    | inl hit ↦ rw hit (write-IsDeviceOf namespace name m write d safe h.0, h.1)
    | inr miss ↦ rw miss (h.0, upsert-devices l h.1)
  ]

upsert-All :
    (P : String → Type 0) (n : String) (fresh : Device) (write : Device → Device)
    (l : List (String × Device))
    → P n
    → All (λ e. P e.0) l
    → All (λ e. P e.0) (upsert n fresh write l)
unfolding upsert
upsert-All P n fresh write [] new h = (new, tt)
upsert-All P n fresh write ((m, d) ∷ l) new h = elim (Bool-cases (str_eq m n)) [
  | inl hit ↦ rw hit h
  | inr miss ↦ rw miss (h.0, upsert-All P n fresh write l new h.1)
]

upsert-DistinctNodes :
    (n : String) (fresh : Device) (write : Device → Device) (l : List (String × Device))
    → DistinctNodes l
    → DistinctNodes (upsert n fresh write l)
unfolding upsert
upsert-DistinctNodes n fresh write [] h = (tt, tt)
upsert-DistinctNodes n fresh write ((m, d) ∷ l) h = elim (Bool-cases (str_eq m n)) [
  | inl hit ↦ rw hit h
  | inr miss ↦ rw miss (
    upsert-All (λ k. str_eq k m ≡ false) n fresh write l (ground (arith, eq_iff m n, eq_iff n m))
        h.0,
    upsert-DistinctNodes n fresh write l h.1,
  )
]

pub new_devices-IsValid : (namespace name : String) → IsValid (new_devices namespace name)
unfolding new_devices
new_devices-IsValid namespace name = record { nodes = tt; devices = tt }

pub with_device-IsValid :
    (n : String) (write : Device → Device) (r : Devices)
    → IsSafe write
    → IsValid r
    → IsValid (with_device n write r)
unfolding with_device
with_device-IsValid n write r safe v = record {
  nodes = upsert-DistinctNodes n _ write r.devices v.nodes;
  devices = upsert-devices r.namespace r.name n write safe r.devices v.devices;
}
