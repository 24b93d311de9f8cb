-- ===== src/Devices/Neighbors.antt =====
-- What can be read of a BGP neighbour after `AddNetworkInstanceProtocolsBGPNeighbor`
-- (pkg/devbuilder/devices.go).
use kuidapps.Devices.Protocols.{add_bgp_neighbor}
use text.Mathlib.Text.{◌==◌ as str_eq}
use kuidapps.Prelude.{
  arith, eq_iff, ap, ◌∙◌, inr, inl, Bool-cases, ◌&&◌, get_or, Option-cases, refl, if◌then◌else◌,
  false, ◌≡◌, String, Option, none, some, List, [],
}
use kuidapps.Keyed.{find, at}
use kuidapps.Keyed.Find.{find-update}
use kuidapps.Schema.{Bgp, BgpNeighbor, Protocols, NetworkInstance}
use kuidapps.Device.Elements.{string_order, network_instance_element, neighbor_element}
use kuidapps.Device.Root.{new_device, Device}
use kuidapps.Device.Bgp.{
  no_protocols, no_bgp, get_or_create_protocols_bgp, get_or_create_network_instance_protocols,
  get_or_create_network_instance, get_or_create_bgp_neighbor, add_or_update_bgp_neighbor,
}
use kuidapps.Devices.Store.{Devices, get_device, device_or_new}
use kuidapps.Devices.Calls.{bgp_neighbor, perform}
use kuidapps.Devices.Local.{write_of, get_device-perform}

abbrev pub neighbors_of_bgp : Option Bgp → List BgpNeighbor
neighbors_of_bgp none = []
neighbors_of_bgp (some b) = b.neighbors

abbrev pub neighbors_of_protocols : Option Protocols → List BgpNeighbor
neighbors_of_protocols none = []
neighbors_of_protocols (some p) = neighbors_of_bgp p.bgp

abbrev pub neighbors_of_instance : Option NetworkInstance → List BgpNeighbor
neighbors_of_instance none = []
neighbors_of_instance (some i) = neighbors_of_protocols i.protocols

abbrev pub instance_of : String → Option Device → Option NetworkInstance
instance_of i none = none
instance_of i (some d) = find network_instance_element i d.nd.spec.network_instances

-- The neighbour at an address, of the network instance `i` of the node `n`.
abbrev pub read_neighbor : String → String → String → Devices → Option BgpNeighbor
read_neighbor n i address r =
    find neighbor_element address (neighbors_of_instance (instance_of i (get_device n r)))

-- All fields of the new neighbour replace those that were there.
find-add_or_update_bgp_neighbor :
    (a : String) (x : BgpNeighbor) (b : Bgp)
    → str_eq x.peer_address "" ≡ false
    → find neighbor_element a (add_or_update_bgp_neighbor (some x) b).neighbors
      ≡ (if str_eq x.peer_address a then some x else find neighbor_element a b.neighbors)
unfolding add_or_update_bgp_neighbor get_or_create_bgp_neighbor neighbor_element string_order
find-add_or_update_bgp_neighbor a x b named =
    rw named (find-update neighbor_element x.peer_address (λ y. x) (λ y p. refl) a b.neighbors)

abbrev write_instance : BgpNeighbor → NetworkInstance → NetworkInstance
unfolding get_or_create_network_instance_protocols get_or_create_protocols_bgp
write_instance x =
    get_or_create_network_instance_protocols
      (get_or_create_protocols_bgp (add_or_update_bgp_neighbor (some x)))

neighbors-bgp : (o : Option Bgp) → (get_or o no_bgp).neighbors ≡ neighbors_of_bgp o
neighbors-bgp none = refl
neighbors-bgp (some b) = refl

neighbors-protocols :
    (o : Option Protocols)
    → (get_or (get_or o no_protocols).bgp no_bgp).neighbors ≡ neighbors_of_protocols o
neighbors-protocols none = refl
neighbors-protocols (some p) = neighbors-bgp p.bgp

find-write_instance :
    (a : String) (x : BgpNeighbor) (i : NetworkInstance)
    → str_eq x.peer_address "" ≡ false
    → find neighbor_element a (neighbors_of_instance (some (write_instance x i))) ≡ (
        if str_eq x.peer_address a
        then some x
        else find neighbor_element a (neighbors_of_instance (some i)))
unfolding write_instance get_or_create_network_instance_protocols get_or_create_protocols_bgp
find-write_instance a x i named =
    find-add_or_update_bgp_neighbor a x (get_or (get_or i.protocols no_protocols).bgp no_bgp) named
    ∙ ap (λ l. if str_eq x.peer_address a then some x else find neighbor_element a l)
        (neighbors-protocols i.protocols)

instance_of-write :
    (i j : String) (f : NetworkInstance → NetworkInstance) (d : Device)
    → ((y : NetworkInstance) → y.name ≡ i → (f y).name ≡ i)
    → instance_of j (some (get_or_create_network_instance i f d)) ≡ (
        if str_eq i j
        then some (f (at network_instance_element i d.nd.spec.network_instances))
        else instance_of j (some d))
unfolding get_or_create_network_instance network_instance_element string_order
instance_of-write i j f d keeps =
    find-update network_instance_element i f keeps j d.nd.spec.network_instances

neighbors-at :
    (i : String) (d : Device)
    → neighbors_of_instance (some (at network_instance_element i d.nd.spec.network_instances))
      ≡ neighbors_of_instance (instance_of i (some d))
unfolding network_instance_element
neighbors-at i d =
    elim (Option-cases (find network_instance_element i d.nd.spec.network_instances)) [
      | inl miss ↦ rw miss refl
      | inr (y, hit) ↦ rw hit refl
    ]

device-write :
    (i j a : String) (x : BgpNeighbor) (d : Device)
    → str_eq x.peer_address "" ≡ false
    → find neighbor_element a (
        neighbors_of_instance
          (instance_of j (some (get_or_create_network_instance i (write_instance x) d))))
      ≡ (if str_eq i j && str_eq x.peer_address a
          then some x
          else find neighbor_element a (neighbors_of_instance (instance_of j (some d))))
unfolding write_instance get_or_create_network_instance_protocols
device-write i j a x d named =
    rw (instance_of-write i j (write_instance x) d λ y p. p) (elim (Bool-cases (str_eq i j)) [
      | inr other ↦ rw other refl
      | inl same ↦ rw same (
          find-write_instance a x (at network_instance_element i d.nd.spec.network_instances) named
          ∙ ap (λ l. if str_eq x.peer_address a then some x else find neighbor_element a l)
              (neighbors-at i d
                ∙ ap (λ s. neighbors_of_instance (instance_of s (some d))) ((eq_iff i j).0 same)))
    ])

read-device_or_new :
    (n j a : String) (r : Devices)
    → find neighbor_element a (neighbors_of_instance (instance_of j (some (device_or_new n r))))
      ≡ read_neighbor n j a r
unfolding new_device find
read-device_or_new n j a r = elim (Option-cases (get_device n r)) [
  | inl miss ↦ rw miss refl
  | inr (d, hit) ↦ rw hit refl
]

-- `AddNetworkInstanceProtocolsBGPNeighbor` stores a neighbour that has a peer address, with all its
-- fields, under its node, its network instance and that address, and changes no other neighbour.
pub read_neighbor-add_bgp_neighbor :
    (m n i j a : String) (x : BgpNeighbor) (r : Devices)
    → str_eq x.peer_address "" ≡ false
    → read_neighbor m j a (add_bgp_neighbor n i x r) ≡ (
        if str_eq n m && str_eq i j && str_eq x.peer_address a
        then some x
        else read_neighbor m j a r)
unfolding perform write_of write_instance
read_neighbor-add_bgp_neighbor m n i j a x r named =
    rw (get_device-perform m n (bgp_neighbor i x) r) (elim (Bool-cases (str_eq n m)) [
      | inr other ↦ rw other refl
      | inl same ↦ rw same (
          device-write i j a x (device_or_new n r) named
          ∙ rw (read-device_or_new n j a r, (eq_iff n m).0 same) (ground arith))
    ])
