-- ===== src/Device/Elements.antt =====
-- The collections of a device (apis/network/v1alpha1/device.go): by what its loops compare, by
-- what its sorts compare, and the new element that a miss appends.
use text.Mathlib.Text.{◌==◌ as str_eq}
use kuidapps.Prelude.{
  ℕ, String, ◌≡◌, ◌↔◌, refl, Bool, true, false, ◌&&◌, none, [], arith, ltb, nat_eq, nat_eq_iff,
  eq_iff,
}
use kuidapps.Text.{str_lt, str_lt_asym, ◌⧺◌, decimal}
use kuidapps.Keyed.{KeyOrder, Element}
use kuidapps.Schema.{
  NetworkInstanceInterface, OspfAreaInterface, OspfArea, OspfInstance, IsisInterface, IsisInstance,
  BgpPeerGroup, BgpNeighbor, BgpDynamicInterface, NetworkInstance, BfdInterface, RoutingPolicy,
  SubInterface, Interface, TunnelSubInterface, TunnelInterface,
}

-- Names: the loops compare by `==` and the sorts by `<`.
unfoldable pub string_order : KeyOrder String
string_order = record { eqb = str_eq; lt = str_lt; eqb_iff = eq_iff; lt_asym = str_lt_asym }

pub ltb_asym : (a b : ℕ) → ltb a b ≡ true → ltb b a ≡ false
ltb_asym a b h = ground arith

-- The numbers of subinterfaces.
unfoldable pub nat_order : KeyOrder ℕ
nat_order = record { eqb = nat_eq; lt = ltb; eqb_iff = nat_eq_iff; lt_asym = ltb_asym }

unfoldable pub same_sub_interface : NetworkInstanceInterface → NetworkInstanceInterface → Bool
same_sub_interface a b = str_eq a.name b.name && nat_eq a.id b.id

pub same_sub_interface_iff :
    (a b : NetworkInstanceInterface) → (same_sub_interface a b ≡ true) ↔ (a ≡ b)
unfolding same_sub_interface
same_sub_interface_iff a b =
    (λ h. ground (arith, eq_iff a.name b.name), λ h. ground (arith, eq_iff a.name b.name))

-- `fmt.Sprintf("%s.%d", name, id)`, by which the sorts compare subinterfaces.
unfoldable pub sub_interface_label : NetworkInstanceInterface → String
sub_interface_label a = a.name ⧺ "." ⧺ decimal a.id

unfoldable pub sub_interface_order : KeyOrder NetworkInstanceInterface
sub_interface_order = record {
  eqb = same_sub_interface;
  lt = λ a b. str_lt (sub_interface_label a) (sub_interface_label b);
  eqb_iff = same_sub_interface_iff;
  lt_asym = λ a b. str_lt_asym (sub_interface_label a) (sub_interface_label b);
}

unfoldable pub interface_element : Element String Interface
unfolding string_order
interface_element = record {
  order = string_order;
  ident = λ x. x.name;
  make = λ k. record {
    name = k;
    sub_interfaces = [];
    vlan_tagging = false;
    speed = "";
    lag_member = false;
  };
  ident-make = λ k. refl;
}

unfoldable pub sub_interface_element : Element ℕ SubInterface
unfolding nat_order
sub_interface_element = record {
  order = nat_order;
  ident = λ x. x.id;
  make = λ k. record { id = k; peer_name = ""; kind = ""; vlan = none; ipv4 = none; ipv6 = none };
  ident-make = λ k. refl;
}

unfoldable pub tunnel_interface_element : Element String TunnelInterface
unfolding string_order
tunnel_interface_element = record {
  order = string_order;
  ident = λ x. x.name;
  make = λ k. record { name = k; sub_interfaces = [] };
  ident-make = λ k. refl;
}

unfoldable pub tunnel_sub_interface_element : Element ℕ TunnelSubInterface
unfolding nat_order
tunnel_sub_interface_element = record {
  order = nat_order;
  ident = λ x. x.id;
  make = λ k. record { id = k; kind = "" };
  ident-make = λ k. refl;
}

unfoldable pub bfd_interface_element : Element NetworkInstanceInterface BfdInterface
unfolding sub_interface_order
bfd_interface_element = record {
  order = sub_interface_order;
  ident = λ x. x.sub_interface_name;
  make = λ k. record {
    sub_interface_name = k;
    bfd_link_parameters = record {
      enabled = none;
      min_echo_rx = none;
      min_rx = none;
      min_tx = none;
      multiplier = none;
      ttl = none;
    };
  };
  ident-make = λ k. refl;
}

unfoldable pub routing_policy_element : Element String RoutingPolicy
unfolding string_order
routing_policy_element = record {
  order = string_order;
  ident = λ x. x.name;
  make = λ k. record { name = k; ipv4_prefixes = []; ipv6_prefixes = [] };
  ident-make = λ k. refl;
}

unfoldable pub network_instance_element : Element String NetworkInstance
unfolding string_order
network_instance_element = record {
  order = string_order;
  ident = λ x. x.name;
  make = λ k. record {
    name = k;
    kind = "";
    protocols = none;
    interfaces = [];
    vxlan_interface = none;
  };
  ident-make = λ k. refl;
}

unfoldable pub ospf_instance_element : Element String OspfInstance
unfolding string_order
ospf_instance_element = record {
  order = string_order;
  ident = λ x. x.name;
  make = λ k. record {
    name = k;
    version = "";
    router_id = "";
    areas = [];
    max_ecmp_paths = 0;
    asbr = false;
  };
  ident-make = λ k. refl;
}

unfoldable pub ospf_area_element : Element String OspfArea
unfolding string_order
ospf_area_element = record {
  order = string_order;
  ident = λ x. x.name;
  make = λ k. record { name = k; interfaces = []; nssa = none; stub = none };
  ident-make = λ k. refl;
}

unfoldable pub ospf_area_interface_element : Element NetworkInstanceInterface OspfAreaInterface
unfolding sub_interface_order
ospf_area_interface_element = record {
  order = sub_interface_order;
  ident = λ x. x.sub_interface_name;
  make = λ k. record { sub_interface_name = k; network_type = ""; passive = false; bfd = false };
  ident-make = λ k. refl;
}

unfoldable pub isis_instance_element : Element String IsisInstance
unfolding string_order
isis_instance_element = record {
  order = string_order;
  ident = λ x. x.name;
  make = λ k. record {
    name = k;
    net = [];
    level_capability = "";
    level1 = none;
    level2 = none;
    interfaces = [];
    max_ecmp_paths = 0;
    address_families = [];
  };
  ident-make = λ k. refl;
}

unfoldable pub isis_interface_element : Element NetworkInstanceInterface IsisInterface
unfolding sub_interface_order
isis_interface_element = record {
  order = sub_interface_order;
  ident = λ x. x.sub_interface_name;
  make = λ k. record {
    sub_interface_name = k;
    network_type = "";
    level1 = none;
    level2 = none;
    ipv4 = none;
    ipv6 = none;
    passive = false;
  };
  ident-make = λ k. refl;
}

unfoldable pub peer_group_element : Element String BgpPeerGroup
unfolding string_order
peer_group_element = record {
  order = string_order;
  ident = λ x. x.name;
  make = λ k. record { name = k; address_families = []; route_reflector = none; bfd = false };
  ident-make = λ k. refl;
}

unfoldable pub neighbor_element : Element String BgpNeighbor
unfolding string_order
neighbor_element = record {
  order = string_order;
  ident = λ x. x.peer_address;
  make = λ k. record {
    peer_address = k;
    peer_as = 0;
    peer_group = "";
    local_as = 0;
    local_address = "";
    bfd = false;
  };
  ident-make = λ k. refl;
}

unfoldable pub dynamic_interface_element : Element NetworkInstanceInterface BgpDynamicInterface
unfolding sub_interface_order
dynamic_interface_element = record {
  order = sub_interface_order;
  ident = λ x. x.sub_interface_name;
  make = λ k. record { sub_interface_name = k; peer_as = 0; peer_group = "" };
  ident-make = λ k. refl;
}
