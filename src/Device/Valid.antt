-- ===== src/Device/Valid.antt =====
-- The form that a device's configuration is kept in: the collections that `GetOrCreate` functions
-- keep are sorted and hold no identity twice, the references of a network instance are distinct, and
-- what the code refuses to add is not there.
use text.Mathlib.Text.{◌==◌ as str_eq}
use kuidapps.Prelude.{String, ◌≡◌, refl, false, OnSome}
use kuidapps.Keyed.{Element}
use kuidapps.Keyed.Canonical.{IsCanonical, Distinct}
use kuidapps.Schema.{
  NetworkInstanceInterface, OspfArea, OspfInstance, Ospf, IsisInstance, Isis, BgpPeerGroup,
  BgpNeighbor, BgpDynamicInterface, BgpDynamicNeighbors, Bgp, Protocols, NetworkInstance,
  BfdInterface, Bfd, Interface, TunnelInterface, NetworkDeviceSpec,
}
use kuidapps.Device.Elements.{
  sub_interface_order, interface_element, sub_interface_element, tunnel_interface_element,
  tunnel_sub_interface_element, bfd_interface_element, routing_policy_element,
  network_instance_element, ospf_instance_element, ospf_area_element, ospf_area_interface_element,
  isis_instance_element, isis_interface_element, peer_group_element, neighbor_element,
  dynamic_interface_element,
}
use kuidapps.Device.Root.{Device}

abbrev pub Any {ℓ} : {A : Type ℓ} → A → Type 0
Any x = Unit

abbrev pub NotEmpty : String → Type 0
NotEmpty s = str_eq s "" ≡ false

abbrev pub IsValidInterface : Interface → Type 0
IsValidInterface x = IsCanonical sub_interface_element Any x.sub_interfaces

abbrev pub IsValidTunnelInterface : TunnelInterface → Type 0
IsValidTunnelInterface x = IsCanonical tunnel_sub_interface_element Any x.sub_interfaces

abbrev pub IsValidOspfArea : OspfArea → Type 0
IsValidOspfArea x = IsCanonical ospf_area_interface_element Any x.interfaces

abbrev pub IsValidOspfInstance : OspfInstance → Type 0
IsValidOspfInstance x = IsCanonical ospf_area_element IsValidOspfArea x.areas

abbrev pub IsValidOspf : Ospf → Type 0
IsValidOspf x = IsCanonical ospf_instance_element IsValidOspfInstance x.instances

abbrev pub IsValidIsisInstance : IsisInstance → Type 0
IsValidIsisInstance x = IsCanonical isis_interface_element Any x.interfaces

abbrev pub IsValidIsis : Isis → Type 0
IsValidIsis x = IsCanonical isis_instance_element IsValidIsisInstance x.instances

abbrev pub IsNamedGroup : BgpPeerGroup → Type 0
IsNamedGroup x = NotEmpty x.name

abbrev pub IsNamedNeighbor : BgpNeighbor → Type 0
IsNamedNeighbor x = NotEmpty x.peer_address

abbrev pub IsNamedDynamic : BgpDynamicInterface → Type 0
IsNamedDynamic x = NotEmpty x.sub_interface_name.name

abbrev pub IsValidDynamic : BgpDynamicNeighbors → Type 0
IsValidDynamic x = IsCanonical dynamic_interface_element IsNamedDynamic x.interfaces

pub record IsValidBgp (x : Bgp) : Type 0 where
  pub peer_groups : IsCanonical peer_group_element IsNamedGroup x.peer_groups
  pub neighbors : IsCanonical neighbor_element IsNamedNeighbor x.neighbors
  pub dynamic_neighbors : OnSome IsValidDynamic x.dynamic_neighbors

pub record IsValidProtocols (x : Protocols) : Type 0 where
  pub bgp : OnSome IsValidBgp x.bgp
  pub isis : OnSome IsValidIsis x.isis
  pub ospf : OnSome IsValidOspf x.ospf

-- A reference to a subinterface is its own identity.
unfoldable pub reference_element : Element NetworkInstanceInterface NetworkInstanceInterface
unfolding sub_interface_order
reference_element = record {
  order = sub_interface_order;
  ident = λ x. x;
  make = λ k. k;
  ident-make = λ k. refl;
}

-- The references of a network instance stay in the order of their calls.
pub record IsValidNetworkInstance (x : NetworkInstance) : Type 0 where
  pub protocols : OnSome IsValidProtocols x.protocols
  pub interfaces : Distinct reference_element x.interfaces

abbrev pub IsNamedBfd : BfdInterface → Type 0
IsNamedBfd x = NotEmpty x.sub_interface_name.name

abbrev pub IsValidBfd : Bfd → Type 0
IsValidBfd x = IsCanonical bfd_interface_element IsNamedBfd x.interfaces

pub record IsValidSpec (s : NetworkDeviceSpec) : Type 0 where
  pub interfaces : IsCanonical interface_element IsValidInterface s.interfaces
  pub network_instances :
      IsCanonical network_instance_element IsValidNetworkInstance s.network_instances
  pub tunnel_interfaces :
      IsCanonical tunnel_interface_element IsValidTunnelInterface s.tunnel_interfaces
  pub routing_policies : IsCanonical routing_policy_element Any s.routing_policies
  pub bfd : OnSome IsValidBfd s.bfd

-- A write to a device that keeps the form, and the name, the namespace and the topology.
pub record IsSafe (write : Device → Device) : Type 0 where
  pub valid : (d : Device) → IsValidSpec d.nd.spec → IsValidSpec (write d).nd.spec
  pub name : (d : Device) → (write d).nd.name ≡ d.nd.name
  pub namespace : (d : Device) → (write d).nd.namespace ≡ d.nd.namespace
  pub topology : (d : Device) → (write d).nd.spec.topology ≡ d.nd.spec.topology
