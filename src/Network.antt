-- ===== src/Network.antt =====
-- The network (apis/network/v1alpha1/network_types.go, network_interfaces.go and net_types.go):
-- its specification and what the builder asks of it.
use text.Mathlib.Text.{◌==◌ as str_eq}
use kuidapps.Prelude.{ℕ, String, Bool, true, false, Option, List, [], ◌∷◌, is_some, if◌then◌else◌}
use kuidapps.Text.{split, last_part}
use kuidapps.Infra.{NodeId}

abbrev pub default_network : String
default_network = "default"

pub record NetworkInterfaceAddress : Type 0 where
  pub address : String
  pub attribute : Option String

pub record NetworkConfigProtocolsBgp : Type 0 where
  pub local_as : ℕ
  pub peer_as : ℕ

pub record NetworkInterfaceProtocols : Type 0 where
  pub bgp : Option NetworkConfigProtocolsBgp

-- Of the selector only its presence is read.
pub record NetworkInterface : Type 0 where
  pub bridge : Option String
  pub endpoint : Option String
  pub node_id : Option NodeId
  pub addresses : List NetworkInterfaceAddress
  pub vlan_id : Option ℕ
  pub selector : Option (Unit {0})
  pub vlan_tagging : Bool
  pub protocols : Option NetworkInterfaceProtocols

pub record NetworkBridge : Type 0 where
  pub name : String
  pub network_id : ℕ
  pub interfaces : List NetworkInterface

pub record NetworkRouter : Type 0 where
  pub name : String
  pub network_id : ℕ
  pub interfaces : List NetworkInterface

pub record NetworkSpec : Type 0 where
  pub topology : String
  pub bridges : List NetworkBridge
  pub routers : List NetworkRouter

-- A network with the part of its object metadata that the program reads.
pub record Network : Type 0 where
  pub name : String
  pub namespace : String
  pub spec : NetworkSpec

unfoldable pub get_network_name : Network → String
unfolding split last_part
get_network_name r = last_part (split b'.' r.name)

unfoldable pub is_default_network : Network → Bool
unfolding get_network_name
is_default_network r = str_eq (get_network_name r) default_network

unfoldable pub is_dynamic : NetworkInterface → Bool
is_dynamic r = is_some r.selector

unfoldable pub has_bridge : String → List NetworkBridge → Bool
has_bridge name [] = false
has_bridge name (b ∷ bs) = if str_eq b.name name then true else has_bridge name bs

unfoldable pub is_bridge_present : String → Network → Bool
unfolding has_bridge
is_bridge_present name r = has_bridge name r.spec.bridges
