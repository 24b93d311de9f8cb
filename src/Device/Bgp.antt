-- ===== src/Device/Bgp.antt =====
-- Network instances, their protocols, and BGP (apis/network/v1alpha1/device.go).
use text.Mathlib.Text.{◌==◌ as str_eq}
use kuidapps.Prelude.{String, Option, none, some, List, [], get_or, if◌then◌else◌}
use kuidapps.Keyed.{update}
use kuidapps.Schema.{
  NetworkInstanceInterface, Ospf, Isis, BgpEvpn, BgpVpn, BgpPeerGroup, BgpNeighbor,
  BgpDynamicInterface, BgpDynamicNeighbors, Bgp, Protocols, NetworkInstance,
}
use kuidapps.Device.Elements.{
  network_instance_element, peer_group_element, neighbor_element, dynamic_interface_element,
}
use kuidapps.Device.Root.{Device, on_spec}

unfoldable pub get_or_create_network_instance :
    String → (NetworkInstance → NetworkInstance) → Device → Device
unfolding update network_instance_element
get_or_create_network_instance name write = on_spec (λ s. record s {
  network_instances = update network_instance_element name write s.network_instances;
})

unfoldable pub add_network_instance :
    String
    → String
    → List NetworkInstanceInterface
    → Option NetworkInstanceInterface
    → Device
    → Device
unfolding get_or_create_network_instance
add_network_instance name ni_type interfaces vxlan_itfce =
    get_or_create_network_instance name
      (λ x. record x { kind = ni_type; vxlan_interface = vxlan_itfce; interfaces = interfaces })

abbrev pub no_protocols : Protocols
no_protocols = record { bgp = none; bgp_evpn = none; bgp_vpn = none; isis = none; ospf = none }

unfoldable pub get_or_create_network_instance_protocols :
    (Protocols → Protocols) → NetworkInstance → NetworkInstance
get_or_create_network_instance_protocols write r = record r {
  protocols = some (write (get_or r.protocols no_protocols));
}

abbrev pub no_bgp : Bgp
no_bgp = record {
  as_number = 0;
  router_id = "";
  peer_groups = [];
  neighbors = [];
  dynamic_neighbors = none;
  address_families = [];
}

unfoldable pub get_or_create_protocols_bgp : (Bgp → Bgp) → Protocols → Protocols
get_or_create_protocols_bgp write r = record r { bgp = some (write (get_or r.bgp no_bgp)) }

abbrev no_evpn : BgpEvpn
no_evpn = record { evi = 0; ecmp = 0; vxlan_interface = "" }

unfoldable pub get_or_create_protocols_bgp_evpn : (BgpEvpn → BgpEvpn) → Protocols → Protocols
get_or_create_protocols_bgp_evpn write r = record r {
  bgp_evpn = some (write (get_or r.bgp_evpn no_evpn));
}

abbrev no_vpn : BgpVpn
no_vpn = record { import_route_target = ""; export_route_target = "" }

unfoldable pub get_or_create_protocols_bgp_vpn : (BgpVpn → BgpVpn) → Protocols → Protocols
get_or_create_protocols_bgp_vpn write r = record r {
  bgp_vpn = some (write (get_or r.bgp_vpn no_vpn));
}

unfoldable pub get_or_create_protocols_isis : (Isis → Isis) → Protocols → Protocols
get_or_create_protocols_isis write r = record r {
  isis = some (write (get_or r.isis (record { instances = [] })));
}

unfoldable pub get_or_create_protocols_ospf : (Ospf → Ospf) → Protocols → Protocols
get_or_create_protocols_ospf write r = record r {
  ospf = some (write (get_or r.ospf (record { instances = [] })));
}

unfoldable pub get_or_create_bgp_peer_group : String → (BgpPeerGroup → BgpPeerGroup) → Bgp → Bgp
unfolding update peer_group_element
get_or_create_bgp_peer_group name write r = record r {
  peer_groups = update peer_group_element name write r.peer_groups;
}

-- The parameter may be nil, and an empty name is ignored.
unfoldable pub add_or_update_bgp_peer_group : Option BgpPeerGroup → Bgp → Bgp
unfolding get_or_create_bgp_peer_group
add_or_update_bgp_peer_group none r = r
add_or_update_bgp_peer_group (some new) r =
    if str_eq new.name ""
    then r
    else get_or_create_bgp_peer_group new.name
        (λ x. record x {
          address_families = new.address_families;
          route_reflector = new.route_reflector;
          bfd = new.bfd;
        })
        r

unfoldable pub get_or_create_bgp_neighbor : String → (BgpNeighbor → BgpNeighbor) → Bgp → Bgp
unfolding update neighbor_element
get_or_create_bgp_neighbor peer_address write r = record r {
  neighbors = update neighbor_element peer_address write r.neighbors;
}

-- The parameter may be nil, and an empty peer address is ignored.
unfoldable pub add_or_update_bgp_neighbor : Option BgpNeighbor → Bgp → Bgp
unfolding get_or_create_bgp_neighbor
add_or_update_bgp_neighbor none r = r
add_or_update_bgp_neighbor (some new) r =
    if str_eq new.peer_address ""
    then r
    else get_or_create_bgp_neighbor new.peer_address
        (λ x. record x {
          local_as = new.local_as;
          local_address = new.local_address;
          peer_as = new.peer_as;
          peer_address = new.peer_address;
          peer_group = new.peer_group;
          bfd = new.bfd;
        })
        r

unfoldable pub get_or_create_bgp_dynamic_neighbors :
    (BgpDynamicNeighbors → BgpDynamicNeighbors) → Bgp → Bgp
get_or_create_bgp_dynamic_neighbors write r = record r {
  dynamic_neighbors =
      some (write (get_or r.dynamic_neighbors (record { prefixes = []; interfaces = [] })));
}

unfoldable pub get_or_create_bgp_dynamic_interface :
    NetworkInstanceInterface
    → (BgpDynamicInterface → BgpDynamicInterface)
    → BgpDynamicNeighbors
    → BgpDynamicNeighbors
unfolding update dynamic_interface_element
get_or_create_bgp_dynamic_interface si_name write r = record r {
  interfaces = update dynamic_interface_element si_name write r.interfaces;
}

-- The parameter may be nil, and an empty name is ignored.
unfoldable pub add_or_update_bgp_dynamic_interface :
    Option BgpDynamicInterface → BgpDynamicNeighbors → BgpDynamicNeighbors
unfolding get_or_create_bgp_dynamic_interface
add_or_update_bgp_dynamic_interface none r = r
add_or_update_bgp_dynamic_interface (some new) r =
    if str_eq new.sub_interface_name.name ""
    then r
    else get_or_create_bgp_dynamic_interface new.sub_interface_name
        (λ x. record x { peer_as = new.peer_as; peer_group = new.peer_group }) r
