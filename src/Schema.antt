-- ===== src/Schema.antt =====
-- The data of apis/network/v1alpha1/networkdevice_type.go. A type keeps the words of its Go name
-- after `NetworkDevice` or `NetworkDeviceNetworkInstanceProtocol`, and a pointer that may be nil
-- is an `Option`. A slice is a list: a nil slice and an empty one are not told apart, and every
-- slice field of these types is read only by loops and `len`.
mod Igp
mod Peering
mod Spec
pub use Igp.{
  NetworkInstanceInterface, OspfAreaInterface, OspfArea, OspfInstance, Ospf, IsisLevelConfig,
  IsisInterfaceLevel, IsisInterfaceAf, IsisInterface, IsisInstance, Isis,
}
pub use Peering.{
  BgpAddressFamily, BgpEvpn, BgpVpn, RouteReflector, BgpPeerGroup, BgpNeighbor, BgpDynamicInterface,
  BgpDynamicNeighbors, Bgp, Protocols, NetworkInstance,
}
pub use Spec.{
  Pointer, BfdLinkParameters, BfdInterface, Bfd, RoutingPolicy, SubInterfaceAddresses, SubInterface,
  Interface, TunnelSubInterface, TunnelInterface, SystemProtocols, System, NetworkDeviceSpec,
  NetworkDevice,
}
