-- ===== src/Design/Families.antt =====
-- The address families of a design (apis/network/v1alpha1/networkdesign_interfaces.go): which of
-- them BGP is given, and which of them the underlay and the overlay peer group are to disable.
use kuidapps.Prelude.{String, Bool, true, false, not, ◌||◌, List, [], ◌∷◌, ◌++◌, if◌then◌else◌}
use kuidapps.Schema.{BgpAddressFamily}
use kuidapps.Design.Spec.{NetworkDesign}
use kuidapps.Design.Getters.{
  is_isis_enabled, is_ospf_enabled, is_underlay_ipv4_enabled, is_underlay_ipv6_enabled,
  is_underlay_ipv6_only, is_loopback_ipv4_enabled, is_loopback_ipv6_enabled, is_bgp_evpn_enabled,
  is_bgp_ip_vpnv4_enabled, is_bgp_ip_vpnv6_enabled, is_bgp_route_target_enabled,
  is_bgp_label_unicastv4_enabled, is_bgp_label_unicastv6_enabled,
}

-- `if b { afs = append(afs, x) }`
unfoldable pub append_if {ℓ} : {A : Type ℓ} → Bool → A → List A → List A
append_if b x xs = if b then xs ++ x ∷ [] else xs

abbrev pub family : String → Bool → BgpAddressFamily
family name rfc5549 = record { name = name; rfc5549 = rfc5549 }

-- The tests on the service families, which two of the functions below repeat.
abbrev with_services : NetworkDesign → List BgpAddressFamily → List BgpAddressFamily
unfolding append_if
with_services r afs =
    append_if (is_bgp_label_unicastv6_enabled r) (family "ipv6-labeled-unicast" false) (
      append_if (is_bgp_label_unicastv4_enabled r) (family "ipv4-labeled-unicast" false) (
        append_if (is_bgp_route_target_enabled r) (family "route-target" false) (
          append_if (is_bgp_ip_vpnv6_enabled r) (family "l3vpn-ipv6-unicast" false) (
            append_if (is_bgp_ip_vpnv4_enabled r) (family "l3vpn-ipv4-unicast" false)
              (append_if (is_bgp_evpn_enabled r) (family "evpn" false) afs)))))

unfoldable pub get_underlay_address_families_to_be_disabled : NetworkDesign → List BgpAddressFamily
unfolding append_if
get_underlay_address_families_to_be_disabled r =
    let igp = is_isis_enabled r || is_ospf_enabled r in
    let unicast =
      if not igp
      then append_if (not (is_underlay_ipv6_enabled r || not (is_loopback_ipv6_enabled r)))
          (family "ipv6-unicast" false)
          (append_if (not (is_underlay_ipv4_enabled r || is_loopback_ipv4_enabled r))
            (family "ipv4-unicast" false) [])
      else [] in
    with_services r unicast

unfoldable pub get_overlay_address_families_to_be_disabled : NetworkDesign → List BgpAddressFamily
unfolding append_if
get_overlay_address_families_to_be_disabled r =
    let igp = is_isis_enabled r || is_ospf_enabled r in
    if not igp
    then append_if (is_underlay_ipv6_enabled r || is_loopback_ipv6_enabled r)
        (family "ipv6-unicast" false)
        (append_if (is_underlay_ipv4_enabled r || is_loopback_ipv4_enabled r)
          (family "ipv4-unicast" false) [])
    else []

unfoldable pub get_all_enabled_address_families : NetworkDesign → List BgpAddressFamily
unfolding append_if
get_all_enabled_address_families r =
    let igp = is_isis_enabled r || is_ospf_enabled r in
    let rfc5549 = if is_underlay_ipv6_only r then true else false in
    let unicast =
      if not igp
      then append_if (is_underlay_ipv6_enabled r || is_loopback_ipv6_enabled r)
          (family "ipv6-unicast" false)
          (append_if (is_underlay_ipv4_enabled r || is_loopback_ipv4_enabled r)
            (family "ipv4-unicast" rfc5549) [])
      else [] in
    with_services r unicast

unfoldable pub get_igp_address_families : NetworkDesign → List String
unfolding append_if
get_igp_address_families r =
    append_if (is_underlay_ipv6_enabled r || is_loopback_ipv6_enabled r) "ipv6-unicast"
      (append_if (is_underlay_ipv4_enabled r || is_loopback_ipv4_enabled r) "ipv4-unicast" [])
