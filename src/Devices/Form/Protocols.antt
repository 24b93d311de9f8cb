-- ===== src/Devices/Form/Protocols.antt =====
-- The methods of pkg/devbuilder/devices.go on protocols keep the devices in form.
use kuidapps.Prelude.{ℕ, String, some, List}
use kuidapps.Schema.{
  Protocols, OspfAreaInterface, OspfArea, OspfInstance, IsisInterface, IsisInstance,
  BgpAddressFamily, BgpEvpn, BgpVpn, BgpPeerGroup, BgpNeighbor, BgpDynamicInterface,
}
use kuidapps.Device.Igp.{
  get_or_create_isis_instance, add_or_update_isis_instance_interface, get_or_create_ospf_instance,
  add_or_update_ospf_instance_area, get_or_create_ospf_instance_area,
  add_or_update_ospf_area_interface,
}
use kuidapps.Device.Elements.{
  network_instance_element, isis_instance_element, ospf_instance_element,
}
use kuidapps.Device.Bgp.{
  get_or_create_protocols_bgp, get_or_create_protocols_isis, get_or_create_protocols_ospf,
  add_or_update_bgp_peer_group, add_or_update_bgp_neighbor, get_or_create_bgp_dynamic_neighbors,
  add_or_update_bgp_dynamic_interface, get_or_create_protocols_bgp_vpn,
  get_or_create_protocols_bgp_evpn,
}
use kuidapps.Device.Valid.{IsValidProtocols}
use kuidapps.Device.Safe.{get_or_create_network_instance-IsSafe}
use kuidapps.Device.Writes.{
  protocols-IsValid, bgp-IsValid, isis-IsValid, ospf-IsValid, isis_instance-IsValid,
  isis_instance_interface-Keeps, ospf_instance-IsValid, ospf_area-Keeps, add_ospf_area-Keeps,
  ospf_area_interface-Keeps, peer_group-IsValid, neighbor-IsValid, dynamic_neighbors-IsValid,
  dynamic_interface-IsValid,
}
use kuidapps.Devices.Store.{Devices}
use kuidapps.Devices.Protocols.{
  with_protocols, add_bgp_as, add_bgp_router_id, add_bgp_address_families, add_isis_instance,
  add_isis_instance_interface, add_ospf_instance, add_ospf_instance_area,
  add_ospf_instance_area_interface, add_bgp_neighbor, add_bgp_dynamic_neighbor, add_bgp_peer_group,
  add_bgp_vpn, add_bgp_evpn,
}
use kuidapps.Devices.Valid.{IsValid, with_device-IsValid}

with_protocols-IsValid :
    (n ni : String) (write : Protocols → Protocols) (r : Devices)
    → ((x : Protocols) → IsValidProtocols x → IsValidProtocols (write x))
    → IsValid r
    → IsValid (with_protocols n ni write r)
unfolding with_protocols network_instance_element
with_protocols-IsValid n ni write r k v =
    with_device-IsValid n _ r
      (get_or_create_network_instance-IsSafe ni _
        (record { ident = λ y p. p; step = λ y w. protocols-IsValid write y k w }))
      v

pub add_bgp_as-IsValid :
    (n : String) (ni : String) (a : ℕ) (r : Devices) → IsValid r → IsValid (add_bgp_as n ni a r)
unfolding add_bgp_as
add_bgp_as-IsValid n ni a r v =
    with_protocols-IsValid n ni (get_or_create_protocols_bgp (λ b. record b { as_number = a })) r
      (λ x w.
        bgp-IsValid (λ b. record b { as_number = a }) x
          (λ b u. record {
            peer_groups = u.peer_groups;
            neighbors = u.neighbors;
            dynamic_neighbors = u.dynamic_neighbors;
          })
          w)
      v

pub add_bgp_router_id-IsValid :
    (n : String) (ni a : String) (r : Devices) → IsValid r → IsValid (add_bgp_router_id n ni a r)
unfolding add_bgp_router_id
add_bgp_router_id-IsValid n ni a r v =
    with_protocols-IsValid n ni (get_or_create_protocols_bgp (λ b. record b { router_id = a })) r
      (λ x w.
        bgp-IsValid (λ b. record b { router_id = a }) x
          (λ b u. record {
            peer_groups = u.peer_groups;
            neighbors = u.neighbors;
            dynamic_neighbors = u.dynamic_neighbors;
          })
          w)
      v

pub add_bgp_address_families-IsValid :
    (n : String) (ni : String) (a : List BgpAddressFamily) (r : Devices)
    → IsValid r
    → IsValid (add_bgp_address_families n ni a r)
unfolding add_bgp_address_families
add_bgp_address_families-IsValid n ni a r v =
    with_protocols-IsValid n ni
      (get_or_create_protocols_bgp (λ b. record b { address_families = a })) r
      (λ x w.
        bgp-IsValid (λ b. record b { address_families = a }) x
          (λ b u. record {
            peer_groups = u.peer_groups;
            neighbors = u.neighbors;
            dynamic_neighbors = u.dynamic_neighbors;
          })
          w)
      v

pub add_isis_instance-IsValid :
    (n : String) (ni : String) (a : IsisInstance) (r : Devices)
    → IsValid r
    → IsValid (add_isis_instance n ni a r)
unfolding add_isis_instance isis_instance_element
add_isis_instance-IsValid n ni a r v =
    let write : IsisInstance → IsisInstance = λ z. record z {
      address_families = a.address_families;
      level_capability = a.level_capability;
      max_ecmp_paths = a.max_ecmp_paths;
      net = a.net;
      level1 = a.level1;
      level2 = a.level2;
    } in
    with_protocols-IsValid n ni
      (get_or_create_protocols_isis (get_or_create_isis_instance a.name write)) r
      (λ x w.
        isis-IsValid (get_or_create_isis_instance a.name write) x
          (λ b u.
            isis_instance-IsValid a.name write b (record { ident = λ z p. p; step = λ z q. q }) u)
          w)
      v

pub add_isis_instance_interface-IsValid :
    (n : String) (ni i : String) (a : IsisInterface) (r : Devices)
    → IsValid r
    → IsValid (add_isis_instance_interface n ni i a r)
unfolding add_isis_instance_interface
add_isis_instance_interface-IsValid n ni i a r v =
    with_protocols-IsValid n ni
      (get_or_create_protocols_isis
        (get_or_create_isis_instance i (add_or_update_isis_instance_interface a)))
      r
      (λ x w.
        isis-IsValid (get_or_create_isis_instance i (add_or_update_isis_instance_interface a)) x
          (λ b u.
            isis_instance-IsValid i (add_or_update_isis_instance_interface a) b
              (isis_instance_interface-Keeps i a) u)
          w)
      v

pub add_ospf_instance-IsValid :
    (n : String) (ni : String) (a : OspfInstance) (r : Devices)
    → IsValid r
    → IsValid (add_ospf_instance n ni a r)
unfolding add_ospf_instance ospf_instance_element
add_ospf_instance-IsValid n ni a r v =
    let write : OspfInstance → OspfInstance = λ z. record z {
      router_id = a.router_id;
      version = a.version;
      max_ecmp_paths = a.max_ecmp_paths;
      asbr = a.asbr;
    } in
    with_protocols-IsValid n ni
      (get_or_create_protocols_ospf (get_or_create_ospf_instance a.name write)) r
      (λ x w.
        ospf-IsValid (get_or_create_ospf_instance a.name write) x
          (λ b u.
            ospf_instance-IsValid a.name write b (record { ident = λ z p. p; step = λ z q. q }) u)
          w)
      v

pub add_ospf_instance_area-IsValid :
    (n : String) (ni i : String) (a : OspfArea) (r : Devices)
    → IsValid r
    → IsValid (add_ospf_instance_area n ni i a r)
unfolding add_ospf_instance_area
add_ospf_instance_area-IsValid n ni i a r v =
    with_protocols-IsValid n ni
      (get_or_create_protocols_ospf
        (get_or_create_ospf_instance i (add_or_update_ospf_instance_area a)))
      r
      (λ x w.
        ospf-IsValid (get_or_create_ospf_instance i (add_or_update_ospf_instance_area a)) x
          (λ b u.
            ospf_instance-IsValid i (add_or_update_ospf_instance_area a) b (add_ospf_area-Keeps i a)
              u)
          w)
      v

pub add_ospf_instance_area_interface-IsValid :
    (n : String) (ni i k : String) (a : OspfAreaInterface) (r : Devices)
    → IsValid r
    → IsValid (add_ospf_instance_area_interface n ni i k a r)
unfolding add_ospf_instance_area_interface
add_ospf_instance_area_interface-IsValid n ni i k a r v =
    let write : OspfInstance → OspfInstance =
      get_or_create_ospf_instance_area k (add_or_update_ospf_area_interface a) in
    with_protocols-IsValid n ni (get_or_create_protocols_ospf (get_or_create_ospf_instance i write))
      r
      (λ x w.
        ospf-IsValid (get_or_create_ospf_instance i write) x
          (λ b u.
            ospf_instance-IsValid i write b
              (ospf_area-Keeps i k (add_or_update_ospf_area_interface a)
                (ospf_area_interface-Keeps k a))
              u)
          w)
      v

pub add_bgp_neighbor-IsValid :
    (n : String) (ni : String) (a : BgpNeighbor) (r : Devices)
    → IsValid r
    → IsValid (add_bgp_neighbor n ni a r)
unfolding add_bgp_neighbor
add_bgp_neighbor-IsValid n ni a r v =
    with_protocols-IsValid n ni (get_or_create_protocols_bgp (add_or_update_bgp_neighbor (some a)))
      r
      (λ x w. bgp-IsValid (add_or_update_bgp_neighbor (some a)) x (λ b u. neighbor-IsValid a b u) w)
      v

pub add_bgp_dynamic_neighbor-IsValid :
    (n : String) (ni : String) (a : BgpDynamicInterface) (r : Devices)
    → IsValid r
    → IsValid (add_bgp_dynamic_neighbor n ni a r)
unfolding add_bgp_dynamic_neighbor
add_bgp_dynamic_neighbor-IsValid n ni a r v =
    with_protocols-IsValid n ni
      (get_or_create_protocols_bgp
        (get_or_create_bgp_dynamic_neighbors (add_or_update_bgp_dynamic_interface (some a))))
      r
      (λ x w.
        bgp-IsValid
          (get_or_create_bgp_dynamic_neighbors (add_or_update_bgp_dynamic_interface (some a))) x
          (λ b u.
            dynamic_neighbors-IsValid (add_or_update_bgp_dynamic_interface (some a)) b
              (dynamic_interface-IsValid a) u)
          w)
      v

pub add_bgp_peer_group-IsValid :
    (n : String) (ni : String) (a : BgpPeerGroup) (r : Devices)
    → IsValid r
    → IsValid (add_bgp_peer_group n ni a r)
unfolding add_bgp_peer_group
add_bgp_peer_group-IsValid n ni a r v =
    with_protocols-IsValid n ni
      (get_or_create_protocols_bgp (add_or_update_bgp_peer_group (some a))) r
      (λ x w.
        bgp-IsValid (add_or_update_bgp_peer_group (some a)) x (λ b u. peer_group-IsValid a b u) w)
      v

pub add_bgp_vpn-IsValid :
    (n : String) (ni : String) (a : BgpVpn) (r : Devices)
    → IsValid r
    → IsValid (add_bgp_vpn n ni a r)
unfolding add_bgp_vpn get_or_create_protocols_bgp_vpn
add_bgp_vpn-IsValid n ni a r v =
    let write : BgpVpn → BgpVpn = λ z. record z {
      export_route_target = a.export_route_target;
      import_route_target = a.import_route_target;
    } in
    with_protocols-IsValid n ni (get_or_create_protocols_bgp_vpn write) r
      (λ x w. record { bgp = w.bgp; isis = w.isis; ospf = w.ospf }) v

pub add_bgp_evpn-IsValid :
    (n : String) (ni : String) (a : BgpEvpn) (r : Devices)
    → IsValid r
    → IsValid (add_bgp_evpn n ni a r)
unfolding add_bgp_evpn get_or_create_protocols_bgp_evpn
add_bgp_evpn-IsValid n ni a r v =
    let write : BgpEvpn → BgpEvpn =
      λ z. record z { ecmp = a.ecmp; evi = a.evi; vxlan_interface = a.vxlan_interface } in
    with_protocols-IsValid n ni (get_or_create_protocols_bgp_evpn write) r
      (λ x w. record { bgp = w.bgp; isis = w.isis; ospf = w.ospf }) v
