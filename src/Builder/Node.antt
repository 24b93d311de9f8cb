-- ===== src/Builder/Node.antt =====
-- The configuration of a node (pkg/devbuilder/builder.go, `updateBaseDeviceConfig` and what it
-- calls).
use text.Mathlib.Text.{◌==◌ as str_eq}
use kuidapps.Prelude.{
  ℕ, String, true, false, not, ◌||◌, Option, none, some, List, [], ◌∷◌, map, if◌then◌else◌,
}
use kuidapps.Outcome.{ok, deref}
use kuidapps.Text.{◌⧺◌, split}
use kuidapps.Schema.{
  Interface, SubInterfaceAddresses, NetworkInstanceInterface, OspfArea, IsisLevelConfig,
}
use kuidapps.Design.Spec.{NetworkDesign, Prefix}
use kuidapps.Design.Getters.{
  loopback_of, is_vxlan_enabled, is_ospf_enabled, is_isis_enabled, is_ibgp_enabled, is_ebgp_enabled,
  is_bgp_evpn_enabled, get_ospf_instance_name, get_ospf_version, get_ospf_max_ecmp_paths,
  get_ospf_area, get_isis_instance_name, get_isis_level, get_isis_areas, get_isis_max_ecmp_paths,
}
use kuidapps.Design.Families.{get_all_enabled_address_families, get_igp_address_families}
use kuidapps.Network.{get_network_name}
use kuidapps.Infra.{Infra}
use kuidapps.Devices.Calls.{
  provider, interface, tunnel_interface, sub_interface, network_instance,
  network_instance_sub_interface, ospf_instance, ospf_instance_area, ospf_instance_area_interface,
  isis_instance, isis_instance_interface, bgp_as, bgp_router_id, bgp_address_families,
  routing_policy, system_protocols_bgp_vpn,
}
use kuidapps.Builder.State.{
  Node, DeviceBuilder, get, has, Action, call, ◌▹◌, when, with_value, reading,
}

abbrev pub vxlan_interface_name : String
vxlan_interface_name = "vxlan0"

abbrev pub irb_interface_name : String
irb_interface_name = "irb0"

abbrev pub system_interface_name : String
system_interface_name = "system0"

abbrev pub underlay_sub_interface_id : ℕ
underlay_sub_interface_id = 0

abbrev pub bgp_underlay_peer_group_name : String
bgp_underlay_peer_group_name = "underlay"

abbrev pub bgp_overlay_peer_group_name : String
bgp_overlay_peer_group_name = "overlay"

abbrev pub underlay_policy_name : String
underlay_policy_name = bgp_underlay_peer_group_name

abbrev pub overlay_policy_name : String
overlay_policy_name = bgp_overlay_peer_group_name

-- A struct with only the name set.
abbrev pub named_interface : String → Interface
named_interface name = record {
  name = name;
  sub_interfaces = [];
  vlan_tagging = false;
  speed = "";
  lag_member = false;
}

abbrev pub si_name : String → ℕ → NetworkInstanceInterface
si_name name id = record { name = name; id = id }

abbrev pub network_name_of : DeviceBuilder → String
network_name_of r = get_network_name r.network

-- `getISISNetIDs`: the parts of the system's MAC address under each area, if there are six.
unfoldable pub get_isis_net_ids : List String → String → List String
unfolding split
get_isis_net_ids areas system_id = elim (split b':' system_id) [
  | (p0 ∷ p1 ∷ p2 ∷ p3 ∷ p4 ∷ p5 ∷ []) ↦
      map (λ area. area ⧺ "." ⧺ (p0 ⧺ p1 ⧺ "." ⧺ p2 ⧺ p3 ⧺ "." ⧺ p4 ⧺ p5) ⧺ ".00") areas
  | _ ↦ []
]

-- `if v != "" { append(s, v) }`
abbrev unless_empty : String → List String
unless_empty s = if str_eq s "" then [] else s ∷ []

abbrev addresses : List String → Option SubInterfaceAddresses
addresses l = some (record { addresses = l })

unfoldable pub update_underlay_network_instance : String → Action
update_underlay_network_instance node_name = reading λ r.
    call node_name (
      network_instance (record {
        name = network_name_of r;
        kind = "default";
        protocols = none;
        interfaces = [];
        vxlan_interface = none;
      }))
    ▹ call node_name
        (network_instance_sub_interface (network_name_of r) (si_name system_interface_name 0))

abbrev pub plain_area : String → OspfArea
plain_area name = record { name = name; interfaces = []; nssa = none; stub = none }

module _ (infra : Infra) where
  unfoldable pub update_underlay_ospf_node : String → String → Action
  update_underlay_ospf_node node_name router_id = reading λ r.
      with_value (get_ospf_instance_name r.network_design) λ instance_name.
        call node_name (
          ospf_instance (network_name_of r) (record {
            name = instance_name;
            version = get_ospf_version infra.ospf_version_unknown r.network_design;
            router_id = router_id;
            areas = [];
            max_ecmp_paths = get_ospf_max_ecmp_paths r.network_design;
            asbr = false;
          }))
        ▹ call node_name (
            ospf_instance_area (network_name_of r) instance_name
              (plain_area (get_ospf_area r.network_design)))
        ▹ call node_name (
            ospf_instance_area_interface (network_name_of r) instance_name
              (get_ospf_area r.network_design)
              (record {
                sub_interface_name = si_name system_interface_name underlay_sub_interface_id;
                network_type = infra.network_type_unknown;
                passive = true;
                bfd = false;
              }))

  abbrev narrow : Option IsisLevelConfig
  narrow = some (record { metric_style = infra.isis_metric_style_narrow })

  -- The two levels, by the `switch` on the design's level.
  abbrev node_levels : String → Option IsisLevelConfig × Option IsisLevelConfig
  node_levels level =
      if str_eq level infra.isis_level_l1
      then (narrow, none)
      else if str_eq level infra.isis_level_l2
      then (none, narrow)
      else if str_eq level infra.isis_level_l1l2
      then (narrow, narrow)
      else (none, none)

  unfoldable pub update_underlay_isis_node : String → String → Action
  unfolding get_isis_net_ids
  update_underlay_isis_node node_name system_id = reading λ r.
      with_value (get_isis_instance_name r.network_design) λ instance_name.
        let level = get_isis_level infra.isis_level_unknown r.network_design in
        call node_name (
          isis_instance (network_name_of r) (record {
            name = instance_name;
            net = get_isis_net_ids (get_isis_areas r.network_design) system_id;
            level_capability = level;
            level1 = (node_levels level).0;
            level2 = (node_levels level).1;
            interfaces = [];
            max_ecmp_paths = get_isis_max_ecmp_paths r.network_design;
            address_families = get_igp_address_families r.network_design;
          }))
        ▹ call node_name (
            isis_instance_interface (network_name_of r) instance_name (record {
              sub_interface_name = si_name system_interface_name underlay_sub_interface_id;
              network_type = infra.network_type_unknown;
              level1 = none;
              level2 = none;
              ipv4 = none;
              ipv6 = none;
              passive = true;
            }))

  -- One more prefix, under its family; a text that is no prefix is left out.
  abbrev pub add_prefix : String → List String × List String → List String × List String
  add_prefix s (v4, v6) = elim (infra.new_prefix s) [
    | none ↦ (v4, v6)
    | some p ↦ if p.is_ipv4 then (s ∷ v4, v6) else (v4, s ∷ v6)
  ]

  unfoldable pub prefixes_per_af : List Prefix → List String × List String
  prefixes_per_af [] = ([], [])
  prefixes_per_af (x ∷ xs) = add_prefix x.prefix (prefixes_per_af xs)

  unfoldable pub get_loopback_prefixes_per_af : NetworkDesign → List String × List String
  unfolding prefixes_per_af
  get_loopback_prefixes_per_af r = elim (loopback_of r) [
    | none ↦ ([], [])
    | some x ↦ prefixes_per_af x.prefixes
  ]

  unfoldable pub update_underlay_bgp_node : String → String → ℕ → Action
  unfolding get_loopback_prefixes_per_af
  update_underlay_bgp_node node_name router_id as_number = reading λ r.
      let prefixes = get_loopback_prefixes_per_af r.network_design in
      call node_name (bgp_as (network_name_of r) as_number)
      ▹ call node_name (bgp_router_id (network_name_of r) router_id)
      ▹ when (is_ebgp_enabled r.network_design)
          (call node_name (routing_policy underlay_policy_name prefixes.0 prefixes.1))
      ▹ when (is_ibgp_enabled r.network_design) (
          call node_name (routing_policy overlay_policy_name [] [])
          ▹ call node_name (
              bgp_address_families (network_name_of r)
                (get_all_enabled_address_families r.network_design)))
      ▹ when (is_bgp_evpn_enabled r.network_design) (call node_name system_protocols_bgp_vpn)

  abbrev pub mark_node : String → Action
  mark_node node_name r = ok (record r { node_set = node_name ∷ r.node_set })

  -- What is done for a node that was not processed.
  unfoldable pub configure_node : String → Node → Action
  unfolding update_underlay_network_instance update_underlay_ospf_node update_underlay_isis_node
      update_underlay_bgp_node
  configure_node node_name node = reading λ r.
      let design = r.network_design in
      call node_name (provider node.provider)
      ▹ call node_name (interface (named_interface irb_interface_name))
      ▹ call node_name (interface (named_interface system_interface_name))
      ▹ call node_name (
          sub_interface system_interface_name (record {
            peer_name = "";
            id = 0;
            kind = "";
            vlan = none;
            ipv4 = addresses (unless_empty node.ipv4);
            ipv6 = addresses (unless_empty node.ipv6);
          }))
      ▹ when (is_vxlan_enabled design) (
          call node_name
            (tunnel_interface (record { name = vxlan_interface_name; sub_interfaces = [] })))
      ▹ update_underlay_network_instance node_name
      ▹ when (is_ospf_enabled design) (update_underlay_ospf_node node_name node.router_id)
      ▹ when (is_isis_enabled design) (update_underlay_isis_node node_name node.system_id)
      ▹ when (is_ibgp_enabled design || is_ebgp_enabled design)
          (update_underlay_bgp_node node_name node.router_id node.as_number)
      ▹ mark_node node_name

  -- The body of the loop of `updateBaseDeviceConfig`: a node that was not gathered is nil.
  unfoldable pub update_base_node : String → Action
  unfolding configure_node get has
  update_base_node node_name = reading λ r.
      when (not (has node_name r.node_set))
        (with_value (deref (get node_name r.nodes)) (configure_node node_name))
