-- ===== src/Device/Writes.antt =====
-- The operations on the protocols of a network instance keep their form.
use text.Mathlib.Text.{◌==◌ as str_eq}
use kuidapps.Prelude.{String, refl, inl, inr, some, Bool-cases}
use kuidapps.Keyed.Canonical.{Keeps, update-Keeps, nil-IsCanonical}
use kuidapps.Schema.{
  NetworkInstance, OspfAreaInterface, OspfArea, OspfInstance, Ospf, IsisInterface, IsisInstance,
  Isis, BgpPeerGroup, BgpNeighbor, BgpDynamicInterface, BgpDynamicNeighbors, Bgp, Protocols,
}
use kuidapps.Device.Elements.{
  ospf_instance_element, ospf_area_element, ospf_area_interface_element, isis_instance_element,
  isis_interface_element, peer_group_element, neighbor_element, dynamic_interface_element,
}
use kuidapps.Device.Igp.{
  get_or_create_isis_instance, add_or_update_isis_instance_interface, get_or_create_ospf_instance,
  add_or_update_ospf_instance_area, get_or_create_ospf_instance_area,
  add_or_update_ospf_area_interface,
}
use kuidapps.Device.Bgp.{
  get_or_create_network_instance_protocols, get_or_create_protocols_bgp,
  get_or_create_protocols_isis, get_or_create_protocols_ospf, add_or_update_bgp_peer_group,
  add_or_update_bgp_neighbor, get_or_create_bgp_dynamic_neighbors,
  add_or_update_bgp_dynamic_interface,
}
use kuidapps.Device.Valid.{
  Any, IsValidOspfArea, IsValidOspfInstance, IsValidOspf, IsValidIsisInstance, IsValidIsis,
  IsNamedGroup, IsNamedNeighbor, IsNamedDynamic, IsValidDynamic, IsValidBgp, IsValidProtocols,
  IsValidNetworkInstance,
}
use kuidapps.Device.Safe.{OnSome-get_or}

pub protocols-IsValid :
    (write : Protocols → Protocols) (r : NetworkInstance)
    → ((x : Protocols) → IsValidProtocols x → IsValidProtocols (write x))
    → IsValidNetworkInstance r
    → IsValidNetworkInstance (get_or_create_network_instance_protocols write r)
unfolding get_or_create_network_instance_protocols
protocols-IsValid write r k v = record {
  protocols = k _ (
      OnSome-get_or IsValidProtocols r.protocols _ (record { bgp = tt; isis = tt; ospf = tt })
        v.protocols);
  interfaces = v.interfaces;
}

pub bgp-IsValid :
    (write : Bgp → Bgp) (r : Protocols)
    → ((x : Bgp) → IsValidBgp x → IsValidBgp (write x))
    → IsValidProtocols r
    → IsValidProtocols (get_or_create_protocols_bgp write r)
unfolding get_or_create_protocols_bgp
bgp-IsValid write r k v = record {
  bgp = k _ (
      OnSome-get_or IsValidBgp r.bgp _
        (record {
          peer_groups = nil-IsCanonical peer_group_element IsNamedGroup;
          neighbors = nil-IsCanonical neighbor_element IsNamedNeighbor;
          dynamic_neighbors = tt;
        })
        v.bgp);
  isis = v.isis;
  ospf = v.ospf;
}

pub isis-IsValid :
    (write : Isis → Isis) (r : Protocols)
    → ((x : Isis) → IsValidIsis x → IsValidIsis (write x))
    → IsValidProtocols r
    → IsValidProtocols (get_or_create_protocols_isis write r)
unfolding get_or_create_protocols_isis
isis-IsValid write r k v = record {
  bgp = v.bgp;
  isis = k _ (
      OnSome-get_or IsValidIsis r.isis _ (nil-IsCanonical isis_instance_element IsValidIsisInstance)
        v.isis);
  ospf = v.ospf;
}

pub ospf-IsValid :
    (write : Ospf → Ospf) (r : Protocols)
    → ((x : Ospf) → IsValidOspf x → IsValidOspf (write x))
    → IsValidProtocols r
    → IsValidProtocols (get_or_create_protocols_ospf write r)
unfolding get_or_create_protocols_ospf
ospf-IsValid write r k v = record {
  bgp = v.bgp;
  isis = v.isis;
  ospf = k _ (
      OnSome-get_or IsValidOspf r.ospf _ (nil-IsCanonical ospf_instance_element IsValidOspfInstance)
        v.ospf);
}

pub isis_instance-IsValid :
    (name : String) (write : IsisInstance → IsisInstance) (r : Isis)
    → Keeps isis_instance_element name IsValidIsisInstance write
    → IsValidIsis r
    → IsValidIsis (get_or_create_isis_instance name write r)
unfolding get_or_create_isis_instance
isis_instance-IsValid name write r k v =
    update-Keeps isis_instance_element name IsValidIsisInstance write r.instances
      (nil-IsCanonical isis_interface_element Any) k v

pub isis_instance_interface-Keeps :
    (name : String) (x : IsisInterface)
    → Keeps isis_instance_element name IsValidIsisInstance (add_or_update_isis_instance_interface x)
unfolding add_or_update_isis_instance_interface isis_instance_element isis_interface_element
isis_instance_interface-Keeps name x = record {
  ident = λ i p. p;
  step = λ i v.
      update-Keeps isis_interface_element x.sub_interface_name Any _ i.interfaces tt
        (record { ident = λ y p. p; step = λ y p. p }) v;
}

pub ospf_instance-IsValid :
    (name : String) (write : OspfInstance → OspfInstance) (r : Ospf)
    → Keeps ospf_instance_element name IsValidOspfInstance write
    → IsValidOspf r
    → IsValidOspf (get_or_create_ospf_instance name write r)
unfolding get_or_create_ospf_instance
ospf_instance-IsValid name write r k v =
    update-Keeps ospf_instance_element name IsValidOspfInstance write r.instances
      (nil-IsCanonical ospf_area_element IsValidOspfArea) k v

pub ospf_area-Keeps :
    (name area : String) (write : OspfArea → OspfArea)
    → Keeps ospf_area_element area IsValidOspfArea write
    → Keeps ospf_instance_element name IsValidOspfInstance
        (get_or_create_ospf_instance_area area write)
unfolding get_or_create_ospf_instance_area ospf_instance_element
ospf_area-Keeps name area write k = record {
  ident = λ i p. p;
  step = λ i v.
      update-Keeps ospf_area_element area IsValidOspfArea write i.areas
        (nil-IsCanonical ospf_area_interface_element Any) k v;
}

pub add_ospf_area-Keeps :
    (name : String) (x : OspfArea)
    → Keeps ospf_instance_element name IsValidOspfInstance (add_or_update_ospf_instance_area x)
unfolding add_or_update_ospf_instance_area ospf_area_element
add_ospf_area-Keeps name x =
    ospf_area-Keeps name x.name _ (record { ident = λ y p. p; step = λ y v. v })

pub ospf_area_interface-Keeps :
    (area : String) (x : OspfAreaInterface)
    → Keeps ospf_area_element area IsValidOspfArea (add_or_update_ospf_area_interface x)
unfolding add_or_update_ospf_area_interface ospf_area_element ospf_area_interface_element
ospf_area_interface-Keeps area x = record {
  ident = λ a p. p;
  step = λ a v.
      update-Keeps ospf_area_interface_element x.sub_interface_name Any _ a.interfaces tt
        (record { ident = λ y p. p; step = λ y p. p }) v;
}

pub peer_group-IsValid :
    (x : BgpPeerGroup) (r : Bgp)
    → IsValidBgp r
    → IsValidBgp (add_or_update_bgp_peer_group (some x) r)
unfolding add_or_update_bgp_peer_group peer_group_element
peer_group-IsValid x r v = elim (Bool-cases (str_eq x.name "")) [
  | inl empty ↦ rw empty v
  | inr named ↦ rw named (record {
    peer_groups =
        update-Keeps peer_group_element x.name IsNamedGroup _ r.peer_groups named
          (record { ident = λ y p. p; step = λ y p. p }) v.peer_groups;
    neighbors = v.neighbors;
    dynamic_neighbors = v.dynamic_neighbors;
  })
]

-- The write sets the peer address anew, to the one that the search was for.
pub neighbor-IsValid :
    (x : BgpNeighbor) (r : Bgp) → IsValidBgp r → IsValidBgp (add_or_update_bgp_neighbor (some x) r)
unfolding add_or_update_bgp_neighbor neighbor_element
neighbor-IsValid x r v = elim (Bool-cases (str_eq x.peer_address "")) [
  | inl empty ↦ rw empty v
  | inr named ↦ rw named (record {
    peer_groups = v.peer_groups;
    neighbors =
        update-Keeps neighbor_element x.peer_address IsNamedNeighbor _ r.neighbors named
          (record { ident = λ y p. refl; step = λ y p. named }) v.neighbors;
    dynamic_neighbors = v.dynamic_neighbors;
  })
]

pub dynamic_neighbors-IsValid :
    (write : BgpDynamicNeighbors → BgpDynamicNeighbors) (r : Bgp)
    → ((x : BgpDynamicNeighbors) → IsValidDynamic x → IsValidDynamic (write x))
    → IsValidBgp r
    → IsValidBgp (get_or_create_bgp_dynamic_neighbors write r)
unfolding get_or_create_bgp_dynamic_neighbors
dynamic_neighbors-IsValid write r k v = record {
  peer_groups = v.peer_groups;
  neighbors = v.neighbors;
  dynamic_neighbors = k _ (
      OnSome-get_or IsValidDynamic r.dynamic_neighbors _
        (nil-IsCanonical dynamic_interface_element IsNamedDynamic) v.dynamic_neighbors);
}

pub dynamic_interface-IsValid :
    (x : BgpDynamicInterface) (r : BgpDynamicNeighbors)
    → IsValidDynamic r
    → IsValidDynamic (add_or_update_bgp_dynamic_interface (some x) r)
unfolding add_or_update_bgp_dynamic_interface dynamic_interface_element
dynamic_interface-IsValid x r v = elim (Bool-cases (str_eq x.sub_interface_name.name "")) [
  | inl empty ↦ rw empty v
  | inr named ↦ rw named (
      update-Keeps dynamic_interface_element x.sub_interface_name IsNamedDynamic _ r.interfaces
        named (record { ident = λ y p. p; step = λ y p. p }) v)
]
