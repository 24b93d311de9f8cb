-- ===== src/Design/Spec.antt =====
-- The data of apis/network/v1alpha1/networkdesign_types.go. A pointer to a struct without fields
-- is an `Option` of the unit type; embedded structs are flattened.
use kuidapps.Prelude.{ℕ, String, Bool, Option, List}
use kuidapps.Schema.{BfdLinkParameters}

-- The fields of kuid's `Prefix` that the program reads or writes.
pub record Prefix : Type 0 where
  pub prefix : String
  pub labels : List (String × String)

abbrev pub addressing_dual_stack : String
addressing_dual_stack = "dualstack"

abbrev pub addressing_ipv4_numbered : String
addressing_ipv4_numbered = "ipv4numbered"

abbrev pub addressing_ipv6_numbered : String
addressing_ipv6_numbered = "ipv6numbered"

abbrev pub addressing_ipv6_unnumbered : String
addressing_ipv6_unnumbered = "ipv6unnumbered"

abbrev pub addressing_ipv4_unnumbered : String
addressing_ipv4_unnumbered = "ipv4unnumbered"

pub record Loopback : Type 0 where
  pub prefixes : List Prefix
  pub addressing : String

pub record Underlay : Type 0 where
  pub prefixes : List Prefix
  pub addressing : String
  pub vlan_tagging : Bool
  pub bfd : Option BfdLinkParameters

pub record DesignInterfaces : Type 0 where
  pub loopback : Option Loopback
  pub underlay : Option Underlay

pub record Mpls : Type 0 where
  pub ldp : Option (Unit {0})
  pub sr : Option (Unit {0})
  pub rsvp : Option (Unit {0})

pub record Srv6 : Type 0 where
  pub micro_sid : Option (Unit {0})

pub record Encapsulation : Type 0 where
  pub vxlan : Option (Unit {0})
  pub mpls : Option Mpls
  pub srv6 : Option Srv6

pub record ProtocolsOspf : Type 0 where
  pub instance_name : Option String
  pub version : String
  pub area : String
  pub max_ecmp_paths : Option ℕ
  pub bfd : Bool

pub record ProtocolsIsis : Type 0 where
  pub instance_name : Option String
  pub level : String
  pub areas : List String
  pub max_ecmp_paths : Option ℕ
  pub bfd : Bool

pub record ProtocolsIbgp : Type 0 where
  pub as_number : Option ℕ
  pub local_as : Bool
  pub route_reflectors : List String

pub record ProtocolsEbgp : Type 0 where
  pub as_pool : Option String
  pub bfd : Bool

pub record DesignProtocols : Type 0 where
  pub ospf : Option ProtocolsOspf
  pub isis : Option ProtocolsIsis
  pub ibgp : Option ProtocolsIbgp
  pub ebgp : Option ProtocolsEbgp
  pub bgp_evpn : Option (Unit {0})
  pub bgp_vpnv4 : Option (Unit {0})
  pub bgp_vpnv6 : Option (Unit {0})
  pub bgp_route_target : Option (Unit {0})
  pub bgp_labeled_unicastv4 : Option (Unit {0})
  pub bgp_labeled_unicastv6 : Option (Unit {0})

pub record NetworkDesignSpec : Type 0 where
  pub topology : String
  pub interfaces : Option DesignInterfaces
  pub protocols : Option DesignProtocols
  pub encapsultation : Option Encapsulation

-- A design with the part of its object metadata that the program reads.
pub record NetworkDesign : Type 0 where
  pub name : String
  pub namespace : String
  pub spec : NetworkDesignSpec
