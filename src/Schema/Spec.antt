-- ===== src/Schema/Spec.antt =====
-- Interfaces, BFD, routing policies and the whole device
-- (apis/network/v1alpha1/networkdevice_type.go). `kind` is a field `Type`.
use kuidapps.Prelude.{ℕ, String, Bool, Option, List}
use kuidapps.Schema.Igp.{NetworkInstanceInterface}
use kuidapps.Schema.Peering.{NetworkInstance}

-- The address of a variable that several structs may share.
abbrev pub Pointer : Type 0
Pointer = ℕ

-- The fields of kuid's `BFDLinkParameters` that the program reads or writes: pointers, which a
-- copy of the struct shares with the original.
pub record BfdLinkParameters : Type 0 where
  pub enabled : Option Pointer
  pub min_echo_rx : Option Pointer
  pub min_rx : Option Pointer
  pub min_tx : Option Pointer
  pub multiplier : Option Pointer
  pub ttl : Option Pointer

pub record BfdInterface : Type 0 where
  pub sub_interface_name : NetworkInstanceInterface
  pub bfd_link_parameters : BfdLinkParameters

pub record Bfd : Type 0 where
  pub interfaces : List BfdInterface

pub record RoutingPolicy : Type 0 where
  pub name : String
  pub ipv4_prefixes : List String
  pub ipv6_prefixes : List String

-- The IPv4 and the IPv6 part of a subinterface, which have the same fields.
pub record SubInterfaceAddresses : Type 0 where
  pub addresses : List String

pub record SubInterface : Type 0 where
  pub peer_name : String
  pub id : ℕ
  pub kind : String
  pub vlan : Option ℕ
  pub ipv4 : Option SubInterfaceAddresses
  pub ipv6 : Option SubInterfaceAddresses

pub record Interface : Type 0 where
  pub name : String
  pub sub_interfaces : List SubInterface
  pub vlan_tagging : Bool
  pub speed : String
  pub lag_member : Bool

pub record TunnelSubInterface : Type 0 where
  pub id : ℕ
  pub kind : String

pub record TunnelInterface : Type 0 where
  pub name : String
  pub sub_interfaces : List TunnelSubInterface

-- Both fields are pointers to structs without fields.
pub record SystemProtocols : Type 0 where
  pub bgp_vpn : Option (Unit {0})
  pub bgp_evpn : Option (Unit {0})

pub record System : Type 0 where
  pub protocols : Option SystemProtocols

pub record NetworkDeviceSpec : Type 0 where
  pub topology : String
  pub provider : String
  pub interfaces : List Interface
  pub network_instances : List NetworkInstance
  pub tunnel_interfaces : List TunnelInterface
  pub routing_policies : List RoutingPolicy
  pub system : Option System
  pub bfd : Option Bfd

-- A device with the part of its object metadata that the program sets.
pub record NetworkDevice : Type 0 where
  pub name : String
  pub namespace : String
  pub spec : NetworkDeviceSpec
