-- ===== src/Tests/Design.antt =====
-- A design of a fabric: BGP underlay on IPv6 only, loopbacks of both families, and EVPN.
use kuidapps.Prelude.{All, if◌then◌else◌, ◌≡◌, true, false, not, ◌&&◌, ◌||◌, none, some, []}
use kuidapps.Design.Spec.{NetworkDesign, addressing_dual_stack, addressing_ipv6_numbered}
use kuidapps.Design.Getters.{
  is_isis_enabled, is_ospf_enabled, is_underlay_ipv4_only, is_underlay_ipv6_only,
  is_underlay_ipv4_enabled, is_underlay_ipv4_numbered, is_underlay_ipv4_unnumbered,
  is_underlay_ipv6_enabled, is_underlay_ipv6_numbered, is_underlay_ipv6_unnumbered,
  is_loopback_ipv4_enabled, is_loopback_ipv6_enabled, is_bgp_evpn_enabled,
}
use kuidapps.Design.Families.{
  get_underlay_address_families_to_be_disabled, get_overlay_address_families_to_be_disabled,
  get_all_enabled_address_families,
}
use text.Mathlib.Text.{◌==◌ as str_eq}
use kuidapps.Design.Laws
use kuidapps.Design.Enabled
use kuidapps.Design.Enabled.{count, gives, IsFlagged}
use kuidapps.Design.Laws.{has}

abbrev fabric : NetworkDesign
fabric = record {
  name = "default";
  namespace = "default";
  spec = record {
    topology = "topo";
    interfaces = some (record {
      loopback = some (record { prefixes = []; addressing = addressing_dual_stack });
      underlay = some (record {
        prefixes = [];
        addressing = addressing_ipv6_numbered;
        vlan_tagging = false;
        bfd = none;
      });
    });
    protocols = some (record {
      ospf = none;
      isis = none;
      ibgp = none;
      ebgp = some (record { as_pool = none; bfd = true });
      bgp_evpn = some tt;
      bgp_vpnv4 = none;
      bgp_vpnv6 = none;
      bgp_route_target = none;
      bgp_labeled_unicastv4 = none;
      bgp_labeled_unicastv6 = none;
    });
    encapsultation = none;
  };
}

underlay_partition_example :
    (is_underlay_ipv4_enabled fabric
      ≡ (is_underlay_ipv4_numbered fabric || is_underlay_ipv4_unnumbered fabric))
    × (is_underlay_ipv6_enabled fabric
        ≡ (is_underlay_ipv6_numbered fabric || is_underlay_ipv6_unnumbered fabric))
    × ((is_underlay_ipv4_numbered fabric && is_underlay_ipv4_unnumbered fabric) ≡ false)
    × ((is_underlay_ipv6_numbered fabric && is_underlay_ipv6_unnumbered fabric) ≡ false)
    × ((is_underlay_ipv4_enabled fabric && is_underlay_ipv6_enabled fabric)
        ≡ (is_underlay_ipv4_numbered fabric && is_underlay_ipv6_numbered fabric))
    × ((is_underlay_ipv4_only fabric && is_underlay_ipv6_enabled fabric) ≡ false)
    × ((is_underlay_ipv6_only fabric && is_underlay_ipv4_enabled fabric) ≡ false)
underlay_partition_example = Laws.underlay_partition fabric

get_all_enabled_address_families_lem_example :
    (count "evpn" (get_all_enabled_address_families fabric)
      ≡ (if gives fabric "evpn" then 1 else 0))
    × All (IsFlagged fabric) (get_all_enabled_address_families fabric)
get_all_enabled_address_families_lem_example =
    Enabled.get_all_enabled_address_families_lem fabric "evpn"

get_overlay_address_families_to_be_disabled_lem_example :
    has "evpn" (get_overlay_address_families_to_be_disabled fabric) ≡ (
      has "evpn" (get_all_enabled_address_families fabric)
      && ((str_eq "ipv4-unicast" "evpn" || str_eq "ipv6-unicast" "evpn")))
get_overlay_address_families_to_be_disabled_lem_example =
    Laws.get_overlay_address_families_to_be_disabled_lem fabric "evpn"

get_underlay_address_families_to_be_disabled_lem_example :
    (has "ipv4-unicast" (get_underlay_address_families_to_be_disabled fabric) ≡ (
      not (is_isis_enabled fabric || is_ospf_enabled fabric)
      && not (is_underlay_ipv4_enabled fabric)
      && not (is_loopback_ipv4_enabled fabric)))
    × (has "ipv6-unicast" (get_underlay_address_families_to_be_disabled fabric) ≡ (
        not (is_isis_enabled fabric || is_ospf_enabled fabric)
        && not (is_underlay_ipv6_enabled fabric)
        && is_loopback_ipv6_enabled fabric))
    × ((has "ipv4-unicast" (get_underlay_address_families_to_be_disabled fabric)
          && has "ipv4-unicast" (get_all_enabled_address_families fabric))
        ≡ false)
    × ((has "ipv6-unicast" (get_underlay_address_families_to_be_disabled fabric)
          && has "ipv6-unicast" (get_all_enabled_address_families fabric))
        ≡ (not (is_isis_enabled fabric || is_ospf_enabled fabric)
            && not (is_underlay_ipv6_enabled fabric)
            && is_loopback_ipv6_enabled fabric))
    × (has "evpn" (get_underlay_address_families_to_be_disabled fabric)
        ≡ is_bgp_evpn_enabled fabric)
get_underlay_address_families_to_be_disabled_lem_example =
    Laws.get_underlay_address_families_to_be_disabled_lem fabric
