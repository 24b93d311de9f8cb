-- ===== src/Devices/Local.antt =====
-- Calls for one node do not see the calls for the others: the configuration of a node is that of
-- its own calls, in their order. So the order in which the calls for different nodes interleave
-- does not matter.
use text.Mathlib.Text.{◌==◌ as str_eq}
use kuidapps.Prelude.{
  String, ◌≡◌, refl, ◌∙◌, inl, inr, Option, some, List, [], ◌∷◌, arith, if◌then◌else◌, get_or,
  eq_iff, Bool-cases,
}
use kuidapps.Device.Root.{
  Device, new_device, add_provider, get_or_create_bfd, add_or_update_bfd_interface,
  get_or_create_routing_policy, get_or_create_system, get_or_create_system_protocols,
  get_or_create_system_protocols_bgp_vpn,
}
use kuidapps.Device.Interfaces.{
  get_or_create_interface, add_or_update_interface, get_or_create_tunnel_interface,
  add_or_update_tunnel_interface, get_or_create_interface_sub_interface,
  get_or_create_tunnel_interface_sub_interface, add_or_update_tunnel_interface_sub_interface,
}
use kuidapps.Device.Igp.{
  get_or_create_isis_instance, add_or_update_isis_instance_interface, get_or_create_ospf_instance,
  add_or_update_ospf_instance_area, get_or_create_ospf_instance_area,
  add_or_update_ospf_area_interface,
}
use kuidapps.Device.Bgp.{
  get_or_create_network_instance, get_or_create_network_instance_protocols,
  get_or_create_protocols_bgp, get_or_create_protocols_bgp_evpn, get_or_create_protocols_bgp_vpn,
  get_or_create_protocols_isis, get_or_create_protocols_ospf, add_or_update_bgp_peer_group,
  add_or_update_bgp_neighbor, get_or_create_bgp_dynamic_neighbors,
  add_or_update_bgp_dynamic_interface,
}
use kuidapps.Devices.Store.{Devices, lookup, upsert, get_device, device_or_new, with_device}
use kuidapps.Devices.Ops.{
  add_provider_to, add_bfd_interface, add_interface, add_tunnel_interface, write_sub_interface,
  add_sub_interface, add_tunnel_sub_interface, add_network_instance_to, replace_or_append,
  add_network_instance_sub_interface, add_network_instance_sub_interface_vxlan, add_routing_policy,
  add_system_protocols_bgp_vpn, get_system_ip,
}
use kuidapps.Devices.Protocols.{
  add_bgp_as, add_bgp_router_id, add_bgp_address_families, add_isis_instance,
  add_isis_instance_interface, add_ospf_instance, add_ospf_instance_area,
  add_ospf_instance_area_interface, add_bgp_neighbor, add_bgp_dynamic_neighbor, add_bgp_peer_group,
  add_bgp_vpn, add_bgp_evpn,
}
use kuidapps.Devices.Calls.{
  Call, provider, bfd_interface, interface, tunnel_interface, sub_interface, tunnel_sub_interface,
  network_instance, network_instance_sub_interface, network_instance_sub_interface_vxlan,
  routing_policy, system_protocols_bgp_vpn, system_ip, bgp_as, bgp_router_id, bgp_address_families,
  isis_instance, isis_instance_interface, ospf_instance, ospf_instance_area,
  ospf_instance_area_interface, bgp_neighbor, bgp_dynamic_neighbor, bgp_peer_group, bgp_vpn,
  bgp_evpn, perform, run,
}

-- What a call does to the device alone.
unfoldable pub write_of : Call → Device → Device
write_of (provider x) = add_provider x
write_of (bfd_interface x) = get_or_create_bfd (add_or_update_bfd_interface (some x))
write_of (interface x) = add_or_update_interface (some x)
write_of (tunnel_interface x) = add_or_update_tunnel_interface (some x)
write_of (sub_interface i x) = get_or_create_interface i (write_sub_interface x)
write_of (tunnel_sub_interface i x) = get_or_create_tunnel_interface i (λ itfce.
    get_or_create_tunnel_interface_sub_interface x.id (λ si. record si { kind = x.kind })
      (add_or_update_tunnel_interface_sub_interface x itfce))
write_of (network_instance x) =
    get_or_create_network_instance x.name (λ y. record y { kind = x.kind })
write_of (network_instance_sub_interface i x) =
    get_or_create_network_instance i
      (λ y. record y { interfaces = replace_or_append x y.interfaces })
write_of (network_instance_sub_interface_vxlan i x) =
    get_or_create_network_instance i (λ y. record y { vxlan_interface = some x })
write_of (routing_policy q s t) =
    get_or_create_routing_policy q (λ y. record y { ipv4_prefixes = s; ipv6_prefixes = t })
write_of system_protocols_bgp_vpn =
    get_or_create_system (get_or_create_system_protocols get_or_create_system_protocols_bgp_vpn)
write_of (system_ip i k b) =
    get_or_create_interface i (get_or_create_interface_sub_interface k (λ x. x))
write_of (bgp_as i x) = get_or_create_network_instance i (
    get_or_create_network_instance_protocols
      (get_or_create_protocols_bgp (λ b. record b { as_number = x })))
write_of (bgp_router_id i x) = get_or_create_network_instance i (
    get_or_create_network_instance_protocols
      (get_or_create_protocols_bgp (λ b. record b { router_id = x })))
write_of (bgp_address_families i x) = get_or_create_network_instance i (
    get_or_create_network_instance_protocols
      (get_or_create_protocols_bgp (λ b. record b { address_families = x })))
write_of (isis_instance i x) = get_or_create_network_instance i (
    get_or_create_network_instance_protocols (
      get_or_create_protocols_isis (
        get_or_create_isis_instance x.name (λ y. record y {
          address_families = x.address_families;
          level_capability = x.level_capability;
          max_ecmp_paths = x.max_ecmp_paths;
          net = x.net;
          level1 = x.level1;
          level2 = x.level2;
        }))))
write_of (isis_instance_interface i k x) = get_or_create_network_instance i (
    get_or_create_network_instance_protocols (
      get_or_create_protocols_isis
        (get_or_create_isis_instance k (add_or_update_isis_instance_interface x))))
write_of (ospf_instance i x) = get_or_create_network_instance i (
    get_or_create_network_instance_protocols (
      get_or_create_protocols_ospf (
        get_or_create_ospf_instance x.name (λ y. record y {
          router_id = x.router_id;
          version = x.version;
          max_ecmp_paths = x.max_ecmp_paths;
          asbr = x.asbr;
        }))))
write_of (ospf_instance_area i k x) = get_or_create_network_instance i (
    get_or_create_network_instance_protocols (
      get_or_create_protocols_ospf
        (get_or_create_ospf_instance k (add_or_update_ospf_instance_area x))))
write_of (ospf_instance_area_interface i k a x) = get_or_create_network_instance i (
    get_or_create_network_instance_protocols (
      get_or_create_protocols_ospf (
        get_or_create_ospf_instance k
          (get_or_create_ospf_instance_area a (add_or_update_ospf_area_interface x)))))
write_of (bgp_neighbor i x) = get_or_create_network_instance i (
    get_or_create_network_instance_protocols
      (get_or_create_protocols_bgp (add_or_update_bgp_neighbor (some x))))
write_of (bgp_dynamic_neighbor i x) = get_or_create_network_instance i (
    get_or_create_network_instance_protocols (
      get_or_create_protocols_bgp
        (get_or_create_bgp_dynamic_neighbors (add_or_update_bgp_dynamic_interface (some x)))))
write_of (bgp_peer_group i x) = get_or_create_network_instance i (
    get_or_create_network_instance_protocols
      (get_or_create_protocols_bgp (add_or_update_bgp_peer_group (some x))))
write_of (bgp_vpn i x) = get_or_create_network_instance i (
    get_or_create_network_instance_protocols (
      get_or_create_protocols_bgp_vpn (λ z. record z {
        export_route_target = x.export_route_target;
        import_route_target = x.import_route_target;
      })))
write_of (bgp_evpn i x) = get_or_create_network_instance i (
    get_or_create_network_instance_protocols (
      get_or_create_protocols_bgp_evpn
        (λ z. record z { ecmp = x.ecmp; evi = x.evi; vxlan_interface = x.vxlan_interface })))

perform-write_of :
    (n : String) (c : Call) (r : Devices) → perform n c r ≡ with_device n (write_of c) r
unfolding perform write_of add_provider_to add_bfd_interface add_interface add_tunnel_interface
    add_sub_interface add_tunnel_sub_interface add_network_instance_to
    add_network_instance_sub_interface add_network_instance_sub_interface_vxlan add_routing_policy
    add_system_protocols_bgp_vpn get_system_ip add_bgp_as add_bgp_router_id add_bgp_address_families
    add_isis_instance add_isis_instance_interface add_ospf_instance add_ospf_instance_area
    add_ospf_instance_area_interface add_bgp_neighbor add_bgp_dynamic_neighbor add_bgp_peer_group
    add_bgp_vpn add_bgp_evpn
perform-write_of n (provider x) r = refl
perform-write_of n (bfd_interface x) r = refl
perform-write_of n (interface x) r = refl
perform-write_of n (tunnel_interface x) r = refl
perform-write_of n (sub_interface i x) r = refl
perform-write_of n (tunnel_sub_interface i x) r = refl
perform-write_of n (network_instance x) r = refl
perform-write_of n (network_instance_sub_interface i x) r = refl
perform-write_of n (network_instance_sub_interface_vxlan i x) r = refl
perform-write_of n (routing_policy q s t) r = refl
perform-write_of n system_protocols_bgp_vpn r = refl
perform-write_of n (system_ip i k b) r = refl
perform-write_of n (bgp_as i x) r = refl
perform-write_of n (bgp_router_id i x) r = refl
perform-write_of n (bgp_address_families i x) r = refl
perform-write_of n (isis_instance i x) r = refl
perform-write_of n (isis_instance_interface i k x) r = refl
perform-write_of n (ospf_instance i x) r = refl
perform-write_of n (ospf_instance_area i k x) r = refl
perform-write_of n (ospf_instance_area_interface i k a x) r = refl
perform-write_of n (bgp_neighbor i x) r = refl
perform-write_of n (bgp_dynamic_neighbor i x) r = refl
perform-write_of n (bgp_peer_group i x) r = refl
perform-write_of n (bgp_vpn i x) r = refl
perform-write_of n (bgp_evpn i x) r = refl

lookup-upsert :
    (m n : String) (fresh : Device) (f : Device → Device) (l : List (String × Device))
    → lookup m (upsert n fresh f l)
      ≡ (if str_eq n m then some (f (get_or (lookup n l) fresh)) else lookup m l)
unfolding lookup upsert
lookup-upsert m n fresh f [] = refl
lookup-upsert m n fresh f ((k, d) ∷ l) =
    ground (arith, eq_iff n m, eq_iff k n, eq_iff k m, lookup-upsert m n fresh f l)

-- A call for node `n` writes to the device of `n`, new if there was none, and to no other.
pub get_device-perform :
    (m n : String) (c : Call) (r : Devices)
    → get_device m (perform n c r)
      ≡ (if str_eq n m then some (write_of c (device_or_new n r)) else get_device m r)
unfolding with_device
get_device-perform m n c r =
    rw (perform-write_of n c r) (lookup-upsert m n _ (write_of c) r.devices)

-- The calls for node `m`, in order.
abbrev pub own : String → List (String × Call) → List Call
own m [] = []
own m ((n, c) ∷ calls) = if str_eq n m then c ∷ own m calls else own m calls

-- What a list of calls makes of a device that there may be; the first call makes it if not.
abbrev pub replay : Device → Option Device → List Call → Option Device
replay fresh o [] = o
replay fresh o (c ∷ calls) = replay fresh (some (write_of c (get_or o fresh))) calls

perform_frame :
    (n : String) (c : Call) (r : Devices)
    → ((perform n c r).namespace ≡ r.namespace) × ((perform n c r).name ≡ r.name)
unfolding with_device
perform_frame n c r = rw (perform-write_of n c r) (refl, refl)

-- The device of a node after a sequence of calls for any nodes is what the node's own calls, in
-- their order, make of the device that it had, or of a new device.
pub get_device-run :
    (m : String) (calls : List (String × Call)) (r : Devices)
    → get_device m (run calls r)
      ≡ replay (new_device r.namespace r.name m) (get_device m r) (own m calls)
unfolding run
get_device-run m [] r = refl
get_device-run m ((n, c) ∷ calls) r =
    get_device-run m calls (perform n c r)
    ∙ rw ((perform_frame n c r).0, (perform_frame n c r).1, get_device-perform m n c r)
        (elim (Bool-cases (str_eq n m)) [
          | inr other ↦ rw other refl
          | inl mine ↦ rw mine (rw ((eq_iff n m).0 mine) refl)
        ])

pub run_frame :
    (calls : List (String × Call)) (r : Devices)
    → ((run calls r).namespace ≡ r.namespace) × ((run calls r).name ≡ r.name)
unfolding run
run_frame [] r = (refl, refl)
run_frame ((n, c) ∷ calls) r =
    let rest = run_frame calls (perform n c r) in
    let one = perform_frame n c r in (rest.0 ∙ one.0, rest.1 ∙ one.1)
