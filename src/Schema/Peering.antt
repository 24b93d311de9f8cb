-- ===== src/Schema/Peering.antt =====
-- The BGP part of a network instance, and the network instance
-- (apis/network/v1alpha1/networkdevice_type.go). `as_number` is the field `AS`.
use kuidapps.Prelude.{ℕ, String, Bool, Option, List}
use kuidapps.Schema.Igp.{NetworkInstanceInterface, Ospf, Isis}

pub record BgpAddressFamily : Type 0 where
  pub name : String
  pub rfc5549 : Bool

pub record BgpEvpn : Type 0 where
  pub evi : ℕ
  pub ecmp : ℕ
  pub vxlan_interface : String

pub record BgpVpn : Type 0 where
  pub import_route_target : String
  pub export_route_target : String

pub record RouteReflector : Type 0 where
  pub cluster_id : String

pub record BgpPeerGroup : Type 0 where
  pub name : String
  pub address_families : List BgpAddressFamily
  pub route_reflector : Option RouteReflector
  pub bfd : Bool

pub record BgpNeighbor : Type 0 where
  pub peer_address : String
  pub peer_as : ℕ
  pub peer_group : String
  pub local_as : ℕ
  pub local_address : String
  pub bfd : Bool

pub record BgpDynamicInterface : Type 0 where
  pub sub_interface_name : NetworkInstanceInterface
  pub peer_as : ℕ
  pub peer_group : String

pub record BgpDynamicNeighbors : Type 0 where
  pub prefixes : List String
  pub interfaces : List BgpDynamicInterface

pub record Bgp : Type 0 where
  pub as_number : ℕ
  pub router_id : String
  pub peer_groups : List BgpPeerGroup
  pub neighbors : List BgpNeighbor
  pub dynamic_neighbors : Option BgpDynamicNeighbors
  pub address_families : List BgpAddressFamily

pub record Protocols : Type 0 where
  pub bgp : Option Bgp
  pub bgp_evpn : Option BgpEvpn
  pub bgp_vpn : Option BgpVpn
  pub isis : Option Isis
  pub ospf : Option Ospf

pub record NetworkInstance : Type 0 where
  pub name : String
  pub kind : String
  pub protocols : Option Protocols
  pub interfaces : List NetworkInstanceInterface
  pub vxlan_interface : Option NetworkInstanceInterface
