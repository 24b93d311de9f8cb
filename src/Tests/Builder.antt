-- ===== src/Tests/Builder.antt =====
-- A fabric of one spine and one leaf, with one link, as the API server holds it.
use kuidapps.Prelude.{String, ◌≡◌, refl, Bool, true, false, none, some, [], ◌∷◌, All, if◌then◌else◌}
use kuidapps.Text.{◌⧺◌, split, first_part, last_part}
use kuidapps.Outcome.{Outcome, ok, panic}
use kuidapps.Design.Spec.{NetworkDesign, addressing_ipv4_numbered}
use kuidapps.Network.{Network, get_network_name, is_default_network}
use kuidapps.Infra.{Infra, Api, NodeId, InfraLink, InfraNode}
use kuidapps.Link.Ends.{get_bgp_bfd, get_as, Link}
use kuidapps.Link.Memory.{Memory}
use kuidapps.Device.Valid.{IsValidSpec}
use kuidapps.Devices.Store.{get_network_device_configs}
use kuidapps.Devices.Form.{DistinctNames}
use kuidapps.Builder.State.{DeviceBuilder, new_builder, ◌▹◌}
use kuidapps.Builder.Underlay.{build_underlay, build_link, update_base_device_config}
use kuidapps.Builder.Gather.{
  get_links, infra_links, gather_link_and_node_info, gather_link_end, index, gather_node_info,
  get_node, router_id_and_ipv4, get_ip_claim, get_as_claim, gather_end,
}
use kuidapps.Builder.State.{get, put, has, each}
use kuidapps.Builder.Node.{
  update_base_node, configure_node, update_underlay_network_instance, update_underlay_bgp_node,
}
use kuidapps.Builder.Interfaces.{
  update_underlay_interface, update_underlay_end, update_underlay_bfd_interface,
  update_underlay_ebgp_interface, update_underlay_ebgp_family,
}
use kuidapps.Link.Ends.{
  new_link, get_node_name, get_ep_name, add_node_name, add_ep_name, add_as, add_ipv4, get_ipv4,
}
use kuidapps.Design.Getters.{
  is_loopback_ipv4_enabled, is_loopback_ipv6_enabled, is_ebgp_enabled, is_ibgp_enabled,
  is_ospf_enabled, is_isis_enabled, is_vxlan_enabled, is_bgp_evpn_enabled, is_bfd_enabled,
  is_isis_bfd_enabled, is_ospf_bfd_enabled, is_ebgp_bfd_enabled, is_underlay_ipv4_enabled,
  is_underlay_ipv4_numbered, is_underlay_ipv6_enabled, is_underlay_ipv6_numbered, get_ibgp_as,
}
use kuidapps.Builder.Outcomes
use kuidapps.Builder.Overlay.{build}
use kuidapps.Builder.Sessions
use kuidapps.Builder.Sessions.{session}
use kuidapps.Devices.Neighbors.{read_neighbor}
use kuidapps.Devices.Store.{Devices}

abbrev pub infra : Infra
infra = record {
  link_type_key = "link-type";
  network_device_type_key = "device-type";
  network_type_p2p = "pointToPoint";
  network_type_unknown = "unknown";
  ospf_version_unknown = "unknown";
  isis_level_l1 = "L1";
  isis_level_l2 = "L2";
  isis_level_l1l2 = "L1L2";
  isis_level_unknown = "unknown";
  isis_metric_style_narrow = "narrow";
  get_isis_passive = λ l. false;
  get_isis_network_type = λ l. "unknown";
  get_isis_level = λ l. "unknown";
  get_isis_metric = λ l. 0;
  purpose_key = "purpose";
  prefix_type_key = "prefix-type";
  address_family_key = "address-family";
  claim_name_key = "claim-name";
  prefix_type_pool = "pool";
  prefix_type_network = "network";
  address_family_ipv4 = "ipv4";
  address_family_ipv6 = "ipv6";
  node_of_name = λ n. record { region = "region1"; site = "site1"; node = n };
  kuid_string = λ i. i.region ⧺ "." ⧺ i.site ⧺ "." ⧺ i.node;
  endpoint_kuid_string = λ e i. i.region ⧺ "." ⧺ i.site ⧺ "." ⧺ i.node ⧺ "." ⧺ e;
  new_prefix = λ s. some (record { address = first_part (split b'/' s); is_ipv4 = true });
}

abbrev pub node_id : String → NodeId
node_id n = record { region = "region1"; site = "site1"; node = n }

abbrev pub infra_link : InfraLink
infra_link = record {
  labels = ("link-type", "infra") ∷ [];
  endpoints =
      record { node_group = "topo"; node_id = node_id "spine"; endpoint = "e1-1" }
      ∷ record { node_group = "topo"; node_id = node_id "leaf"; endpoint = "e1-1" }
      ∷ [];
  bfd = none;
  ospf = none;
  isis = none;
  bgp = none;
}

-- The label of the device type is there for the nodes of a server that has it.
abbrev pub api : Bool → Api
api labelled = record {
  get_ip_claim = λ ns n. some (record { not_ready = false; address = some "10.0.0.1/32" });
  get_as_claim = λ ns n. some (record { not_ready = false; id = some 65000 });
  get_node = λ ns n. some (record {
    provider = "srlinux.nokia.com";
    labels = if labelled then ("device-type", "edge") ∷ [] else [];
    system_id = some "00:11:22:33:44:55";
  });
  get_endpoint = λ ns n. none;
  list_links = λ ns. some (infra_link ∷ []);
}

abbrev spine : InfraNode
spine = record { provider = "srlinux.nokia.com"; labels = []; system_id = some "00:11:22:33:44:55" }

abbrev addressed : String → String → Link
unfolding new_link add_ipv4
addressed a b = add_ipv4 1 b (add_ipv4 0 a (new_link infra_link))

abbrev pub design : NetworkDesign
design = record {
  name = "topo.default";
  namespace = "ns";
  spec = record {
    topology = "topo";
    interfaces = some (record {
      loopback = some (record { prefixes = []; addressing = addressing_ipv4_numbered });
      underlay = some (record {
        prefixes = [];
        addressing = addressing_ipv4_numbered;
        vlan_tagging = false;
        bfd = none;
      });
    });
    protocols = some (record {
      ospf = none;
      isis = none;
      ibgp = none;
      ebgp = some (record { as_pool = none; bfd = false });
      bgp_evpn = none;
      bgp_vpnv4 = none;
      bgp_vpnv6 = none;
      bgp_route_target = none;
      bgp_labeled_unicastv4 = none;
      bgp_labeled_unicastv6 = none;
    });
    encapsultation = none;
  };
}

abbrev pub network : Network
network = record {
  name = "topo.default";
  namespace = "ns";
  spec = record { topology = "topo"; bridges = []; routers = [] };
}

abbrev pub memory : Memory
memory = record { next = 0; flags = λ p. false; numbers = λ p. 0 }

abbrev pub start : DeviceBuilder
start = new_builder network design memory

abbrev pub returned : Outcome DeviceBuilder → DeviceBuilder
returned o = elim o [ ok s ↦ s | _ ↦ start ]

pub builds : build infra (api true) start ≡ ok (returned (build infra (api true) start))
unfolding build is_default_network get_network_name split last_part build_underlay build_link
    update_base_device_config get_links infra_links gather_link_and_node_info gather_link_end index
    gather_node_info get_node router_id_and_ipv4 get_ip_claim get_as_claim gather_end get put has
    each update_base_node configure_node update_underlay_network_instance update_underlay_bgp_node
    update_underlay_interface update_underlay_end update_underlay_bfd_interface
    update_underlay_ebgp_interface update_underlay_ebgp_family new_link get_node_name get_ep_name
    add_node_name add_ep_name add_as add_ipv4 get_ipv4 is_loopback_ipv4_enabled
    is_loopback_ipv6_enabled is_ebgp_enabled is_ibgp_enabled is_ospf_enabled is_isis_enabled
    is_vxlan_enabled is_bgp_evpn_enabled is_bfd_enabled is_isis_bfd_enabled is_ospf_bfd_enabled
    is_ebgp_bfd_enabled is_underlay_ipv4_enabled is_underlay_ipv4_numbered is_underlay_ipv6_enabled
    is_underlay_ipv6_numbered get_ibgp_as new_builder
builds = refl

build-get_network_device_configs_example :
    All
      (λ nd.
        IsValidSpec nd.spec
        × (nd.namespace ≡ "ns")
        × (nd.spec.topology ≡ first_part (split b'.' "topo.default")))
      (get_network_device_configs (returned (build infra (api true) start)).devices)
    × DistinctNames (get_network_device_configs (returned (build infra (api true) start)).devices)
build-get_network_device_configs_example =
    Outcomes.build-get_network_device_configs infra (api true) network design memory
      (returned (build infra (api true) start)) builds

gathers : gather_node_info infra (api false) (node_id "spine") start ≡ ok start
unfolding build_underlay build_link update_base_device_config get_links infra_links
    gather_link_and_node_info gather_link_end index gather_node_info get_node router_id_and_ipv4
    get_ip_claim get_as_claim gather_end get put has each update_base_node configure_node
    update_underlay_network_instance update_underlay_bgp_node update_underlay_interface
    update_underlay_end update_underlay_bfd_interface update_underlay_ebgp_interface
    update_underlay_ebgp_family new_link get_node_name get_ep_name add_node_name add_ep_name add_as
    add_ipv4 get_ipv4 is_loopback_ipv4_enabled is_loopback_ipv6_enabled is_ebgp_enabled
    is_ibgp_enabled is_ospf_enabled is_isis_enabled is_vxlan_enabled is_bgp_evpn_enabled
    is_bfd_enabled is_isis_bfd_enabled is_ospf_bfd_enabled is_ebgp_bfd_enabled
    is_underlay_ipv4_enabled is_underlay_ipv4_numbered is_underlay_ipv6_enabled
    is_underlay_ipv6_numbered get_ibgp_as new_builder
gathers = refl

update_base_node-gather_node_info_example : update_base_node infra "spine" start ≡ panic
unfolding new_builder get has
update_base_node-gather_node_info_example =
    Sessions.update_base_node-gather_node_info infra (api false) (node_id "spine") spine start start
      refl refl refl refl gathers

abbrev numbered : Link
unfolding add_ipv4 new_link
numbered = addressed "10.0.0.0/31" "10.0.0.1/31"

read_neighbor-update_underlay_ebgp_family_example :
    (devices : Devices) × ((update_underlay_ebgp_family infra true true "spine" "e1-1" numbered 0
            get_ipv4
          ▹ update_underlay_ebgp_family infra true true "leaf" "e1-1" numbered 1 get_ipv4)
        start
      ≡ ok (record start { devices = devices }))
    × (read_neighbor "spine" "default" "10.0.0.1" devices
        ≡ some (
            session "10.0.0.0" "10.0.0.1"
              (get_as 0 numbered)
              (get_as 1 numbered)
              (get_bgp_bfd design numbered)))
unfolding add_ipv4 get_ipv4 new_link split first_part addressed get_network_name last_part
    new_builder
read_neighbor-update_underlay_ebgp_family_example =
    Sessions.read_neighbor-update_underlay_ebgp_family infra "spine" "leaf" "e1-1" "e1-1" numbered
      get_ipv4 (record { address = "10.0.0.0"; is_ipv4 = true })
      (record { address = "10.0.0.1"; is_ipv4 = true }) start "spine" "default" "10.0.0.1" refl refl
      refl refl
