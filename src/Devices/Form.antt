-- ===== src/Devices/Form.antt =====
-- Every sequence of calls of the methods of pkg/devbuilder/devices.go keeps the devices in form.
mod Parts
mod Protocols
use kuidapps.Prelude.{
  ◌≢◌, map, false, eq_iff, arith, ◌∙◌, sym, String, ◌≡◌, refl, List, [], ◌∷◌, All,
}
use kuidapps.Text.{◌⧺◌, split, first_part}
use kuidapps.Schema.{NetworkDevice}
use kuidapps.Device.Valid.{IsValidSpec}
use kuidapps.Devices.Store.{Devices, new_devices, get_network_device_configs}
use kuidapps.Devices.Local.{run_frame}
use mathlib.Core.Path.{subst}
use text.Mathlib.TextLemmas.{append_cancel_left}
use kuidapps.Devices.Calls.{
  Call, provider, bfd_interface, interface, tunnel_interface, sub_interface, tunnel_sub_interface,
  network_instance, network_instance_sub_interface, network_instance_sub_interface_vxlan,
  routing_policy, system_protocols_bgp_vpn, system_ip, bgp_as, bgp_router_id, bgp_address_families,
  isis_instance, isis_instance_interface, ospf_instance, ospf_instance_area,
  ospf_instance_area_interface, bgp_neighbor, bgp_dynamic_neighbor, bgp_peer_group, bgp_vpn,
  bgp_evpn, perform, run,
}
use text.Mathlib.Text.{◌==◌ as str_eq}
use kuidapps.Device.Root.{Device}
use kuidapps.Devices.Valid.{IsDeviceOf, DistinctNodes, IsValid, new_devices-IsValid}
use Parts.{
  add_provider_to-IsValid, add_bfd_interface-IsValid, add_interface-IsValid,
  add_tunnel_interface-IsValid, add_sub_interface-IsValid, add_tunnel_sub_interface-IsValid,
  add_network_instance_to-IsValid, add_network_instance_sub_interface-IsValid,
  add_network_instance_sub_interface_vxlan-IsValid, add_routing_policy-IsValid,
  add_system_protocols_bgp_vpn-IsValid, get_system_ip-IsValid,
}
use Protocols.{
  add_bgp_as-IsValid, add_bgp_router_id-IsValid, add_bgp_address_families-IsValid,
  add_isis_instance-IsValid, add_isis_instance_interface-IsValid, add_ospf_instance-IsValid,
  add_ospf_instance_area-IsValid, add_ospf_instance_area_interface-IsValid,
  add_bgp_neighbor-IsValid, add_bgp_dynamic_neighbor-IsValid, add_bgp_peer_group-IsValid,
  add_bgp_vpn-IsValid, add_bgp_evpn-IsValid,
}

-- Every call keeps the invariant.
pub perform-IsValid : (n : String) (c : Call) (r : Devices) → IsValid r → IsValid (perform n c r)
unfolding perform
perform-IsValid n (provider x) r v = add_provider_to-IsValid n x r v
perform-IsValid n (bfd_interface x) r v = add_bfd_interface-IsValid n x r v
perform-IsValid n (interface x) r v = add_interface-IsValid n x r v
perform-IsValid n (tunnel_interface x) r v = add_tunnel_interface-IsValid n x r v
perform-IsValid n (sub_interface i x) r v = add_sub_interface-IsValid n i x r v
perform-IsValid n (tunnel_sub_interface i x) r v = add_tunnel_sub_interface-IsValid n i x r v
perform-IsValid n (network_instance x) r v = add_network_instance_to-IsValid n x r v
perform-IsValid n (network_instance_sub_interface i x) r v =
    add_network_instance_sub_interface-IsValid n i x r v
perform-IsValid n (network_instance_sub_interface_vxlan i x) r v =
    add_network_instance_sub_interface_vxlan-IsValid n i x r v
perform-IsValid n (routing_policy q s t) r v = add_routing_policy-IsValid n q s t r v
perform-IsValid n system_protocols_bgp_vpn r v = add_system_protocols_bgp_vpn-IsValid n r v
perform-IsValid n (system_ip i k b) r v = get_system_ip-IsValid n i k b r v
perform-IsValid n (bgp_as i x) r v = add_bgp_as-IsValid n i x r v
perform-IsValid n (bgp_router_id i x) r v = add_bgp_router_id-IsValid n i x r v
perform-IsValid n (bgp_address_families i x) r v = add_bgp_address_families-IsValid n i x r v
perform-IsValid n (isis_instance i x) r v = add_isis_instance-IsValid n i x r v
perform-IsValid n (isis_instance_interface i k x) r v =
    add_isis_instance_interface-IsValid n i k x r v
perform-IsValid n (ospf_instance i x) r v = add_ospf_instance-IsValid n i x r v
perform-IsValid n (ospf_instance_area i k x) r v = add_ospf_instance_area-IsValid n i k x r v
perform-IsValid n (ospf_instance_area_interface i k a x) r v =
    add_ospf_instance_area_interface-IsValid n i k a x r v
perform-IsValid n (bgp_neighbor i x) r v = add_bgp_neighbor-IsValid n i x r v
perform-IsValid n (bgp_dynamic_neighbor i x) r v = add_bgp_dynamic_neighbor-IsValid n i x r v
perform-IsValid n (bgp_peer_group i x) r v = add_bgp_peer_group-IsValid n i x r v
perform-IsValid n (bgp_vpn i x) r v = add_bgp_vpn-IsValid n i x r v
perform-IsValid n (bgp_evpn i x) r v = add_bgp_evpn-IsValid n i x r v

pub run-IsValid : (calls : List (String × Call)) (r : Devices) → IsValid r → IsValid (run calls r)
unfolding run
run-IsValid [] r v = v
run-IsValid ((n, c) ∷ calls) r v = run-IsValid calls (perform n c r) (perform-IsValid n c r v)

configs-IsValid :
    (l : List (String × Device)) (namespace name : String)
    → All (λ e. IsDeviceOf namespace name e.0 e.1) l
    → All
        (λ nd.
          IsValidSpec nd.spec
          × (nd.namespace ≡ namespace)
          × (nd.spec.topology ≡ first_part (split b'.' name)))
        (map (λ e. e.1.nd) l)
configs-IsValid [] namespace name h = tt
configs-IsValid (e ∷ l) namespace name h =
    ((h.0.valid, h.0.namespaced, h.0.in_topology), configs-IsValid l namespace name h.1)

distinct_names : (name m n : String) → str_eq m n ≡ false → name ⧺ "." ⧺ m ≡ name ⧺ "." ⧺ n → ⊥
distinct_names name m n h p =
    let same : m ≡ n = append_cancel_left "." m n (append_cancel_left name _ _ p) in
    cc ((eq_iff m n).1 same)

-- Two devices of different nodes have different names.
configs-distinct :
    (name : String) (e : String × Device) (l : List (String × Device)) (namespace : String)
    → IsDeviceOf namespace name e.0 e.1
    → All (λ f. IsDeviceOf namespace name f.0 f.1) l
    → All (λ f. str_eq f.0 e.0 ≡ false) l
    → All (λ nd. nd.name ≢ e.1.nd.name) (map (λ f. f.1.nd) l)
configs-distinct name e [] namespace v vs h = tt
configs-distinct name e (f ∷ l) namespace v vs h = (
  λ same. distinct_names name f.0 e.0 h.0 (sym vs.0.named ∙ same ∙ v.named),
  configs-distinct name e l namespace v vs.1 h.1,
)

-- No two devices of the list have the same name.
abbrev pub DistinctNames : List NetworkDevice → Type 0
DistinctNames [] = Unit
DistinctNames (x ∷ xs) = All (λ y. y.name ≢ x.name) xs × DistinctNames xs

configs-DistinctNames :
    (l : List (String × Device)) (namespace name : String)
    → All (λ e. IsDeviceOf namespace name e.0 e.1) l
    → DistinctNodes l
    → DistinctNames (map (λ e. e.1.nd) l)
configs-DistinctNames [] namespace name h d = tt
configs-DistinctNames (e ∷ l) namespace name h d = (
  configs-distinct name e l namespace h.0 h.1 d.0,
  configs-DistinctNames l namespace name h.1 d.1,
)

-- Each device is that of its node, whatever methods are called on a new collection.
pub run-devices :
    (namespace name : String) (calls : List (String × Call))
    → All (λ e. IsDeviceOf namespace name e.0 e.1) (run calls (new_devices namespace name)).devices
unfolding new_devices
run-devices namespace name calls =
    let r = run calls (new_devices namespace name) in
    let v : IsValid r = run-IsValid calls _ (new_devices-IsValid namespace name) in
    let frame = run_frame calls (new_devices namespace name) in
    subst (λ s. All (λ e. IsDeviceOf namespace s e.0 e.1) r.devices) frame.1
      (subst (λ s. All (λ e. IsDeviceOf s r.name e.0 e.1) r.devices) frame.0 v.devices)

-- Whatever methods are called on a new collection of devices, and in whatever order: in each
-- configuration that `GetNetworkDeviceConfigs` then returns the interfaces, the tunnel interfaces
-- and their subinterfaces, the network instances, the routing policies and the BFD interfaces, the
-- instances, areas and interfaces of OSPF, the instances and interfaces of ISIS, and the peer
-- groups, the neighbours and the interfaces of the dynamic neighbours of BGP are each sorted and
-- hold no identity twice; no network instance refers to a subinterface twice; no BGP neighbour,
-- group, dynamic neighbour or BFD interface has an empty name; and the namespace is that of the
-- network and the topology the first part of its name. No two configurations have the same name.
pub run-get_network_device_configs :
    (namespace name : String) (calls : List (String × Call))
    → All
        (λ nd.
          IsValidSpec nd.spec
          × (nd.namespace ≡ namespace)
          × (nd.spec.topology ≡ first_part (split b'.' name)))
        (get_network_device_configs (run calls (new_devices namespace name)))
      × DistinctNames (get_network_device_configs (run calls (new_devices namespace name)))
unfolding get_network_device_configs new_devices
run-get_network_device_configs namespace name calls =
    let r = run calls (new_devices namespace name) in
    let v : IsValid r = run-IsValid calls _ (new_devices-IsValid namespace name) in
    let devices = run-devices namespace name calls in
    (
      configs-IsValid r.devices namespace name devices,
      configs-DistinctNames r.devices namespace name devices v.nodes,
    )
