-- ===== src/Devices/Calls.antt =====
-- Any sequence of calls of the methods of pkg/devbuilder/devices.go: the methods as data, and
-- their execution one after the other. The lock makes every interleaving of concurrent calls
-- such a sequence.
use kuidapps.Prelude.{ℕ, String, Bool, List, [], ◌∷◌}
use kuidapps.Schema.{
  NetworkInstanceInterface, OspfAreaInterface, OspfArea, OspfInstance, IsisInterface, IsisInstance,
  BgpAddressFamily, BgpEvpn, BgpVpn, BgpPeerGroup, BgpNeighbor, BgpDynamicInterface,
  NetworkInstance, BfdInterface, SubInterface, Interface, TunnelSubInterface, TunnelInterface,
}
use kuidapps.Devices.Store.{Devices}
use kuidapps.Devices.Ops.{
  add_provider_to, add_bfd_interface, add_interface, add_tunnel_interface, add_sub_interface,
  add_tunnel_sub_interface, add_network_instance_to, add_network_instance_sub_interface,
  add_network_instance_sub_interface_vxlan, add_routing_policy, add_system_protocols_bgp_vpn,
  get_system_ip,
}
use kuidapps.Devices.Protocols.{
  add_bgp_as, add_bgp_router_id, add_bgp_address_families, add_isis_instance,
  add_isis_instance_interface, add_ospf_instance, add_ospf_instance_area,
  add_ospf_instance_area_interface, add_bgp_neighbor, add_bgp_dynamic_neighbor, add_bgp_peer_group,
  add_bgp_vpn, add_bgp_evpn,
}

-- What is done to the device of a node.
pub data Call : Type 0 where
  provider : String → Call
  bfd_interface : BfdInterface → Call
  interface : Interface → Call
  tunnel_interface : TunnelInterface → Call
  sub_interface : String → SubInterface → Call
  tunnel_sub_interface : String → TunnelSubInterface → Call
  network_instance : NetworkInstance → Call
  network_instance_sub_interface : String → NetworkInstanceInterface → Call
  network_instance_sub_interface_vxlan : String → NetworkInstanceInterface → Call
  routing_policy : String → List String → List String → Call
  system_protocols_bgp_vpn : Call
  system_ip : String → ℕ → Bool → Call
  bgp_as : String → ℕ → Call
  bgp_router_id : String → String → Call
  bgp_address_families : String → List BgpAddressFamily → Call
  isis_instance : String → IsisInstance → Call
  isis_instance_interface : String → String → IsisInterface → Call
  ospf_instance : String → OspfInstance → Call
  ospf_instance_area : String → String → OspfArea → Call
  ospf_instance_area_interface : String → String → String → OspfAreaInterface → Call
  bgp_neighbor : String → BgpNeighbor → Call
  bgp_dynamic_neighbor : String → BgpDynamicInterface → Call
  bgp_peer_group : String → BgpPeerGroup → Call
  bgp_vpn : String → BgpVpn → Call
  bgp_evpn : String → BgpEvpn → Call

-- The call, on the device of node `n`.
unfoldable pub perform : String → Call → Devices → Devices
perform n (provider x) = add_provider_to n x
perform n (bfd_interface x) = add_bfd_interface n x
perform n (interface x) = add_interface n x
perform n (tunnel_interface x) = add_tunnel_interface n x
perform n (sub_interface i x) = add_sub_interface n i x
perform n (tunnel_sub_interface i x) = add_tunnel_sub_interface n i x
perform n (network_instance x) = add_network_instance_to n x
perform n (network_instance_sub_interface ni x) = add_network_instance_sub_interface n ni x
perform n (network_instance_sub_interface_vxlan ni x) =
    add_network_instance_sub_interface_vxlan n ni x
perform n (routing_policy p ipv4 ipv6) = add_routing_policy n p ipv4 ipv6
perform n system_protocols_bgp_vpn = add_system_protocols_bgp_vpn n
perform n (system_ip i id ipv4) = λ r. (get_system_ip n i id ipv4 r).1
perform n (bgp_as ni x) = add_bgp_as n ni x
perform n (bgp_router_id ni x) = add_bgp_router_id n ni x
perform n (bgp_address_families ni x) = add_bgp_address_families n ni x
perform n (isis_instance ni x) = add_isis_instance n ni x
perform n (isis_instance_interface ni i x) = add_isis_instance_interface n ni i x
perform n (ospf_instance ni x) = add_ospf_instance n ni x
perform n (ospf_instance_area ni i x) = add_ospf_instance_area n ni i x
perform n (ospf_instance_area_interface ni i a x) = add_ospf_instance_area_interface n ni i a x
perform n (bgp_neighbor ni x) = add_bgp_neighbor n ni x
perform n (bgp_dynamic_neighbor ni x) = add_bgp_dynamic_neighbor n ni x
perform n (bgp_peer_group ni x) = add_bgp_peer_group n ni x
perform n (bgp_vpn ni x) = add_bgp_vpn n ni x
perform n (bgp_evpn ni x) = add_bgp_evpn n ni x

unfoldable pub run : List (String × Call) → Devices → Devices
unfolding perform
run [] r = r
run ((n, c) ∷ calls) r = run calls (perform n c r)
