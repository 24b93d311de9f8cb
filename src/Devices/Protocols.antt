-- ===== src/Devices/Protocols.antt =====
-- The methods of pkg/devbuilder/devices.go on the protocols of a network instance.
use kuidapps.Prelude.{ℕ, String, some, List}
use kuidapps.Schema.{
  OspfAreaInterface, OspfArea, OspfInstance, IsisInterface, IsisInstance, BgpAddressFamily, BgpEvpn,
  BgpVpn, BgpPeerGroup, BgpNeighbor, BgpDynamicInterface, Protocols,
}
use kuidapps.Device.Igp.{
  get_or_create_isis_instance, add_or_update_isis_instance_interface, get_or_create_ospf_instance,
  add_or_update_ospf_instance_area, get_or_create_ospf_instance_area,
  add_or_update_ospf_area_interface,
}
use kuidapps.Device.Bgp.{
  get_or_create_network_instance, get_or_create_network_instance_protocols,
  get_or_create_protocols_bgp, get_or_create_protocols_bgp_evpn, get_or_create_protocols_bgp_vpn,
  get_or_create_protocols_isis, get_or_create_protocols_ospf, add_or_update_bgp_peer_group,
  add_or_update_bgp_neighbor, get_or_create_bgp_dynamic_neighbors,
  add_or_update_bgp_dynamic_interface,
}
use kuidapps.Devices.Store.{Devices, with_device}

-- `d.GetOrCreateNetworkInstance(niName).GetOrCreateNetworkInstanceProtocols()` and a write.
unfoldable pub with_protocols : String → String → (Protocols → Protocols) → Devices → Devices
unfolding with_device get_or_create_network_instance get_or_create_network_instance_protocols
with_protocols node_name ni_name write =
    with_device node_name
      (get_or_create_network_instance ni_name (get_or_create_network_instance_protocols write))

unfoldable pub add_bgp_as : String → String → ℕ → Devices → Devices
unfolding with_protocols get_or_create_protocols_bgp
add_bgp_as node_name ni_name as_number =
    with_protocols node_name ni_name
      (get_or_create_protocols_bgp (λ b. record b { as_number = as_number }))

unfoldable pub add_bgp_router_id : String → String → String → Devices → Devices
unfolding with_protocols get_or_create_protocols_bgp
add_bgp_router_id node_name ni_name router_id =
    with_protocols node_name ni_name
      (get_or_create_protocols_bgp (λ b. record b { router_id = router_id }))

unfoldable pub add_bgp_address_families :
    String → String → List BgpAddressFamily → Devices → Devices
unfolding with_protocols get_or_create_protocols_bgp
add_bgp_address_families node_name ni_name afs =
    with_protocols node_name ni_name
      (get_or_create_protocols_bgp (λ b. record b { address_families = afs }))

unfoldable pub add_isis_instance : String → String → IsisInstance → Devices → Devices
unfolding with_protocols get_or_create_protocols_isis get_or_create_isis_instance
add_isis_instance node_name ni_name new = with_protocols node_name ni_name (
    get_or_create_protocols_isis (
      get_or_create_isis_instance new.name (λ x. record x {
        address_families = new.address_families;
        level_capability = new.level_capability;
        max_ecmp_paths = new.max_ecmp_paths;
        net = new.net;
        level1 = new.level1;
        level2 = new.level2;
      })))

unfoldable pub add_isis_instance_interface :
    String → String → String → IsisInterface → Devices → Devices
unfolding with_protocols get_or_create_protocols_isis get_or_create_isis_instance
    add_or_update_isis_instance_interface
add_isis_instance_interface node_name ni_name instance_name itfce =
    with_protocols node_name ni_name (
      get_or_create_protocols_isis
        (get_or_create_isis_instance instance_name (add_or_update_isis_instance_interface itfce)))

unfoldable pub add_ospf_instance : String → String → OspfInstance → Devices → Devices
unfolding with_protocols get_or_create_protocols_ospf get_or_create_ospf_instance
add_ospf_instance node_name ni_name new = with_protocols node_name ni_name (
    get_or_create_protocols_ospf (
      get_or_create_ospf_instance new.name (λ x. record x {
        router_id = new.router_id;
        version = new.version;
        max_ecmp_paths = new.max_ecmp_paths;
        asbr = new.asbr;
      })))

unfoldable pub add_ospf_instance_area : String → String → String → OspfArea → Devices → Devices
unfolding with_protocols get_or_create_protocols_ospf get_or_create_ospf_instance
    add_or_update_ospf_instance_area
add_ospf_instance_area node_name ni_name instance_name area = with_protocols node_name ni_name (
    get_or_create_protocols_ospf
      (get_or_create_ospf_instance instance_name (add_or_update_ospf_instance_area area)))

unfoldable pub add_ospf_instance_area_interface :
    String → String → String → String → OspfAreaInterface → Devices → Devices
unfolding with_protocols get_or_create_protocols_ospf get_or_create_ospf_instance
    get_or_create_ospf_instance_area add_or_update_ospf_area_interface
add_ospf_instance_area_interface node_name ni_name instance_name area itfce =
    with_protocols node_name ni_name (
      get_or_create_protocols_ospf (
        get_or_create_ospf_instance instance_name
          (get_or_create_ospf_instance_area area (add_or_update_ospf_area_interface itfce))))

unfoldable pub add_bgp_neighbor : String → String → BgpNeighbor → Devices → Devices
unfolding with_protocols get_or_create_protocols_bgp add_or_update_bgp_neighbor
add_bgp_neighbor node_name ni_name x =
    with_protocols node_name ni_name
      (get_or_create_protocols_bgp (add_or_update_bgp_neighbor (some x)))

unfoldable pub add_bgp_dynamic_neighbor : String → String → BgpDynamicInterface → Devices → Devices
unfolding with_protocols get_or_create_protocols_bgp get_or_create_bgp_dynamic_neighbors
    add_or_update_bgp_dynamic_interface
add_bgp_dynamic_neighbor node_name ni_name new = with_protocols node_name ni_name (
    get_or_create_protocols_bgp
      (get_or_create_bgp_dynamic_neighbors (add_or_update_bgp_dynamic_interface (some new))))

unfoldable pub add_bgp_peer_group : String → String → BgpPeerGroup → Devices → Devices
unfolding with_protocols get_or_create_protocols_bgp add_or_update_bgp_peer_group
add_bgp_peer_group node_name ni_name x =
    with_protocols node_name ni_name
      (get_or_create_protocols_bgp (add_or_update_bgp_peer_group (some x)))

unfoldable pub add_bgp_vpn : String → String → BgpVpn → Devices → Devices
unfolding with_protocols get_or_create_protocols_bgp_vpn
add_bgp_vpn node_name ni_name x = with_protocols node_name ni_name (
    get_or_create_protocols_bgp_vpn (λ v. record v {
      export_route_target = x.export_route_target;
      import_route_target = x.import_route_target;
    }))

unfoldable pub add_bgp_evpn : String → String → BgpEvpn → Devices → Devices
unfolding with_protocols get_or_create_protocols_bgp_evpn
add_bgp_evpn node_name ni_name x = with_protocols node_name ni_name (
    get_or_create_protocols_bgp_evpn
      (λ v. record v { ecmp = x.ecmp; evi = x.evi; vxlan_interface = x.vxlan_interface }))
