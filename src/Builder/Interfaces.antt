-- ===== src/Builder/Interfaces.antt =====
-- The configuration of the two ends of a link (pkg/devbuilder/builder.go,
-- `updateUnderlayInterfaceDeviceConfig` and what it calls).
use kuidapps.Prelude.{ℕ, String, Bool, false, Option, none, some, if◌then◌else◌}
use kuidapps.Outcome.{Outcome, ok, deref, ◌>>=◌}
use kuidapps.Schema.{BfdLinkParameters, BgpNeighbor}
use kuidapps.Design.Getters.{
  is_bfd_enabled, is_ospf_enabled, is_isis_enabled, is_ebgp_enabled, is_underlay_ipv4_enabled,
  is_underlay_ipv4_numbered, is_underlay_ipv6_enabled, is_underlay_ipv6_numbered,
  get_ospf_instance_name, get_isis_instance_name,
}
use kuidapps.Design.Families.{get_underlay_address_families_to_be_disabled}
use kuidapps.Network.{default_network}
use kuidapps.Infra.{Infra}
use kuidapps.Link.Ends.{
  Link, get_node_name, get_ep_name, get_as, get_ipv4, get_ipv6, other_end,
  get_underlay_sub_interface, get_bgp_bfd,
}
use kuidapps.Link.Igp.{
  get_ospf_area, get_ospf_passive, get_ospf_network_type, get_ospf_bfd, get_isis_interface,
}
use kuidapps.Link.Memory.{flag_at}
use kuidapps.Link.Bfd.{get_bfd_link_parameters}
use kuidapps.Devices.Calls.{
  interface, sub_interface, network_instance_sub_interface, bfd_interface, ospf_instance_area,
  ospf_instance_area_interface, isis_instance_interface, bgp_neighbor, bgp_dynamic_neighbor,
  bgp_peer_group,
}
use kuidapps.Builder.State.{DeviceBuilder, Action, call, ◌▹◌, when, with_value, reading}
use kuidapps.Builder.Node.{
  named_interface, si_name, plain_area, network_name_of, underlay_sub_interface_id,
  bgp_underlay_peer_group_name,
}

-- `b != nil && *b`
abbrev pub is_set : Option Bool → Bool
is_set none = false
is_set (some b) = b

-- The BFD parameters, with the design and the variables as the call leaves them.
abbrev pub with_bfd_parameters : Link → (BfdLinkParameters → Action) → Action
with_bfd_parameters l k r = get_bfd_link_parameters r.network_design l r.memory >>= λ x.
    k x.0 (record r { network_design = x.1; memory = x.2 })

unfoldable pub update_underlay_bfd_interface : String → String → Link → Action
unfolding flag_at
update_underlay_bfd_interface node_name ep_name l = reading λ r.
    when (is_bfd_enabled r.network_design) (
      with_bfd_parameters l λ b. reading λ s. when (is_set (flag_at b.enabled s.memory)) (
        call node_name (
          bfd_interface (record {
            sub_interface_name = si_name ep_name underlay_sub_interface_id;
            bfd_link_parameters = b;
          }))))

module _ (infra : Infra) where
  -- `pi, _ := iputil.New(prefix)` and `pi.GetIPAddress().String()`, where `pi` may be nil.
  abbrev pub address_of : String → Outcome String
  address_of prefix = deref (infra.new_prefix prefix) >>= λ p. ok p.address

  -- One session of the underlay, between the addresses of the two ends in one family.
  unfoldable pub ebgp_neighbor : ℕ → DeviceBuilder → Link → String → String → BgpNeighbor
  unfolding get_as get_bgp_bfd
  ebgp_neighbor i r l local peer = record {
    peer_address = peer;
    peer_as = get_as (other_end i) l;
    peer_group = bgp_underlay_peer_group_name;
    local_as = get_as i l;
    local_address = local;
    bfd = get_bgp_bfd r.network_design l;
  }

  -- The neighbours of one family: a session where it is numbered, else a dynamic neighbour.
  unfoldable pub update_underlay_ebgp_family :
      Bool → Bool → String → String → Link → ℕ → (ℕ → Link → String) → Action
  unfolding ebgp_neighbor
  update_underlay_ebgp_family enabled numbered node_name if_name l i address = reading λ r.
      when enabled (
        if numbered
        then (with_value (address_of (address i l)) λ local.
            with_value (address_of (address (other_end i) l)) λ peer.
              call node_name (bgp_neighbor (network_name_of r) (ebgp_neighbor i r l local peer)))
        else call node_name (
            bgp_dynamic_neighbor (network_name_of r) (record {
              sub_interface_name = si_name if_name underlay_sub_interface_id;
              peer_as = get_as (other_end i) l;
              peer_group = bgp_underlay_peer_group_name;
            })))

  unfoldable pub update_underlay_ebgp_interface : String → String → Link → ℕ → Action
  unfolding update_underlay_ebgp_family
  update_underlay_ebgp_interface node_name if_name l i = reading λ r.
      update_underlay_ebgp_family (is_underlay_ipv4_enabled r.network_design)
        (is_underlay_ipv4_numbered r.network_design) node_name if_name l i get_ipv4
      ▹ update_underlay_ebgp_family (is_underlay_ipv6_enabled r.network_design)
          (is_underlay_ipv6_numbered r.network_design) node_name if_name l i get_ipv6
      ▹ call node_name (
          bgp_peer_group (network_name_of r) (record {
            name = bgp_underlay_peer_group_name;
            address_families = get_underlay_address_families_to_be_disabled r.network_design;
            route_reflector = none;
            bfd = get_bgp_bfd r.network_design l;
          }))

  unfoldable pub update_underlay_ospf_interface : String → String → Link → Action
  update_underlay_ospf_interface node_name if_name l = reading λ r.
      with_value (get_ospf_instance_name r.network_design) λ instance_name.
        let area = get_ospf_area r.network_design l in
        call node_name (ospf_instance_area (network_name_of r) instance_name (plain_area area))
        ▹ call node_name (
            ospf_instance_area_interface (network_name_of r) instance_name area (record {
              sub_interface_name = si_name if_name underlay_sub_interface_id;
              network_type =
                  if get_ospf_passive l
                  then infra.network_type_unknown
                  else get_ospf_network_type infra l;
              passive = get_ospf_passive l;
              bfd = get_ospf_bfd r.network_design l;
            }))

  unfoldable pub update_underlay_isis_interface : String → Link → ℕ → Action
  update_underlay_isis_interface node_name l i = reading λ r.
      with_value (get_isis_instance_name r.network_design) λ instance_name. call node_name (
        isis_instance_interface (network_name_of r) instance_name
          (get_isis_interface infra i r.network_design underlay_sub_interface_id l))

  -- One end: the body of the loop.
  unfoldable pub update_underlay_end : Link → ℕ → Action
  unfolding update_underlay_bfd_interface update_underlay_ospf_interface
      update_underlay_isis_interface update_underlay_ebgp_interface
  update_underlay_end l i =
      let node_name = get_node_name i l in
      let ep_name = get_ep_name i l in
      reading λ r.
        call node_name (interface (named_interface ep_name))
        ▹ call node_name (
            sub_interface ep_name
              (get_underlay_sub_interface i r.network_design underlay_sub_interface_id l))
        ▹ call node_name (
            network_instance_sub_interface default_network
              (si_name ep_name underlay_sub_interface_id))
        ▹ update_underlay_bfd_interface node_name ep_name l
        ▹ when (is_ospf_enabled r.network_design)
            (update_underlay_ospf_interface node_name ep_name l)
        ▹ when (is_isis_enabled r.network_design) (update_underlay_isis_interface node_name l i)
        ▹ when (is_ebgp_enabled r.network_design)
            (update_underlay_ebgp_interface node_name ep_name l i)

  unfoldable pub update_underlay_interface : Link → Action
  unfolding update_underlay_end
  update_underlay_interface l = update_underlay_end l 0 ▹ update_underlay_end l 1
