-- ===== src/Design/Getters.antt =====
-- The readers of apis/network/v1alpha1/networkdesign_interfaces.go: which parts of a design are
-- there and what they say. A chain of nil checks is a bind of options.
use text.Mathlib.Text.{◌==◌ as str_eq}
use kuidapps.Prelude.{
  ℕ, String, Bool, true, false, ◌||◌, Option, none, some, List, [], map, if◌then◌else◌, get_or,
  is_some,
}
use kuidapps.Outcome.{Outcome, ok, deref, ◌>>=◌}
use kuidapps.Schema.{BfdLinkParameters}
use kuidapps.Design.Spec.{
  Prefix, addressing_dual_stack, addressing_ipv4_numbered, addressing_ipv6_numbered,
  addressing_ipv6_unnumbered, addressing_ipv4_unnumbered, Loopback, Underlay, NetworkDesign,
}

-- `x != nil` and then a further pointer of it.
infixl 5 ◌>?◌
abbrev pub ◌>?◌ : {A B : Type 0} → Option A → (A → Option B) → Option B
none >? f = none
some x >? f = f x

-- `x != nil && f(*x)`
abbrev pub holds : {A : Type 0} → Option A → (A → Bool) → Bool
holds none f = false
holds (some x) f = f x

-- `r.Spec.Interfaces != nil && r.Spec.Interfaces.Loopback != nil`, and the like.
abbrev pub loopback_of : NetworkDesign → Option Loopback
loopback_of r = r.spec.interfaces >? λ i. i.loopback

abbrev pub underlay_of : NetworkDesign → Option Underlay
underlay_of r = r.spec.interfaces >? λ i. i.underlay

unfoldable pub is_loopback_ipv4_enabled : NetworkDesign → Bool
is_loopback_ipv4_enabled r =
    holds (loopback_of r) (λ x.
      str_eq x.addressing addressing_dual_stack || str_eq x.addressing addressing_ipv4_numbered)

unfoldable pub is_loopback_ipv6_enabled : NetworkDesign → Bool
is_loopback_ipv6_enabled r =
    holds (loopback_of r) (λ x.
      str_eq x.addressing addressing_dual_stack || str_eq x.addressing addressing_ipv6_numbered)

unfoldable pub is_underlay_ipv6_only : NetworkDesign → Bool
is_underlay_ipv6_only r = holds (underlay_of r) (λ x.
    str_eq x.addressing addressing_ipv6_numbered || str_eq x.addressing addressing_ipv6_unnumbered)

unfoldable pub is_underlay_ipv4_only : NetworkDesign → Bool
is_underlay_ipv4_only r = holds (underlay_of r) (λ x.
    str_eq x.addressing addressing_ipv4_numbered || str_eq x.addressing addressing_ipv4_unnumbered)

unfoldable pub is_underlay_ipv4_enabled : NetworkDesign → Bool
is_underlay_ipv4_enabled r = holds (underlay_of r) (λ x.
    str_eq x.addressing addressing_dual_stack
    || str_eq x.addressing addressing_ipv4_numbered
    || str_eq x.addressing addressing_ipv4_unnumbered)

unfoldable pub is_underlay_ipv4_numbered : NetworkDesign → Bool
is_underlay_ipv4_numbered r =
    holds (underlay_of r) (λ x.
      str_eq x.addressing addressing_dual_stack || str_eq x.addressing addressing_ipv4_numbered)

unfoldable pub is_underlay_ipv4_unnumbered : NetworkDesign → Bool
is_underlay_ipv4_unnumbered r =
    holds (underlay_of r) (λ x. str_eq x.addressing addressing_ipv4_unnumbered)

unfoldable pub is_underlay_ipv6_enabled : NetworkDesign → Bool
is_underlay_ipv6_enabled r = holds (underlay_of r) (λ x.
    str_eq x.addressing addressing_dual_stack
    || str_eq x.addressing addressing_ipv6_numbered
    || str_eq x.addressing addressing_ipv6_unnumbered)

unfoldable pub is_underlay_ipv6_numbered : NetworkDesign → Bool
is_underlay_ipv6_numbered r =
    holds (underlay_of r) (λ x.
      str_eq x.addressing addressing_dual_stack || str_eq x.addressing addressing_ipv6_numbered)

unfoldable pub is_underlay_ipv6_unnumbered : NetworkDesign → Bool
is_underlay_ipv6_unnumbered r =
    holds (underlay_of r) (λ x. str_eq x.addressing addressing_ipv6_unnumbered)

unfoldable pub is_isis_enabled : NetworkDesign → Bool
is_isis_enabled r = is_some (r.spec.protocols >? λ p. p.isis)

unfoldable pub is_ospf_enabled : NetworkDesign → Bool
is_ospf_enabled r = is_some (r.spec.protocols >? λ p. p.ospf)

unfoldable pub is_ebgp_enabled : NetworkDesign → Bool
is_ebgp_enabled r = is_some (r.spec.protocols >? λ p. p.ebgp)

unfoldable pub is_ibgp_enabled : NetworkDesign → Bool
is_ibgp_enabled r = is_some (r.spec.protocols >? λ p. p.ibgp)

unfoldable pub is_vxlan_enabled : NetworkDesign → Bool
is_vxlan_enabled r = is_some (r.spec.encapsultation >? λ e. e.vxlan)

unfoldable pub is_mpls_ldp_enabled : NetworkDesign → Bool
is_mpls_ldp_enabled r = is_some (r.spec.encapsultation >? λ e. e.mpls >? λ m. m.ldp)

unfoldable pub is_mpls_sr_enabled : NetworkDesign → Bool
is_mpls_sr_enabled r = is_some (r.spec.encapsultation >? λ e. e.mpls >? λ m. m.sr)

unfoldable pub is_mpls_rsvp_enabled : NetworkDesign → Bool
is_mpls_rsvp_enabled r = is_some (r.spec.encapsultation >? λ e. e.mpls >? λ m. m.rsvp)

unfoldable pub is_srv6_enabled : NetworkDesign → Bool
is_srv6_enabled r = is_some (r.spec.encapsultation >? λ e. e.srv6)

unfoldable pub is_srv6_usid_enabled : NetworkDesign → Bool
is_srv6_usid_enabled r = is_some (r.spec.encapsultation >? λ e. e.srv6 >? λ s. s.micro_sid)

unfoldable pub is_bgp_evpn_enabled : NetworkDesign → Bool
is_bgp_evpn_enabled r = is_some (r.spec.protocols >? λ p. p.bgp_evpn)

unfoldable pub is_bgp_ip_vpnv4_enabled : NetworkDesign → Bool
is_bgp_ip_vpnv4_enabled r = is_some (r.spec.protocols >? λ p. p.bgp_vpnv4)

unfoldable pub is_bgp_ip_vpnv6_enabled : NetworkDesign → Bool
is_bgp_ip_vpnv6_enabled r = is_some (r.spec.protocols >? λ p. p.bgp_vpnv6)

unfoldable pub is_bgp_route_target_enabled : NetworkDesign → Bool
is_bgp_route_target_enabled r = is_some (r.spec.protocols >? λ p. p.bgp_route_target)

unfoldable pub is_bgp_label_unicastv4_enabled : NetworkDesign → Bool
is_bgp_label_unicastv4_enabled r = is_some (r.spec.protocols >? λ p. p.bgp_labeled_unicastv4)

unfoldable pub is_bgp_label_unicastv6_enabled : NetworkDesign → Bool
is_bgp_label_unicastv6_enabled r = is_some (r.spec.protocols >? λ p. p.bgp_labeled_unicastv6)

unfoldable pub is_isis_bfd_enabled : NetworkDesign → Bool
is_isis_bfd_enabled r = holds (r.spec.protocols >? λ p. p.isis) (λ x. x.bfd)

unfoldable pub is_ospf_bfd_enabled : NetworkDesign → Bool
is_ospf_bfd_enabled r = holds (r.spec.protocols >? λ p. p.ospf) (λ x. x.bfd)

unfoldable pub is_ebgp_bfd_enabled : NetworkDesign → Bool
is_ebgp_bfd_enabled r = holds (r.spec.protocols >? λ p. p.ebgp) (λ x. x.bfd)

unfoldable pub is_bfd_enabled : NetworkDesign → Bool
unfolding is_isis_bfd_enabled is_ospf_bfd_enabled is_ebgp_bfd_enabled
is_bfd_enabled r =
    if is_isis_bfd_enabled r
    then true
    else if is_ospf_bfd_enabled r
    then true
    else if is_ebgp_bfd_enabled r
    then true
    else false

unfoldable pub get_ibgp_as : NetworkDesign → ℕ
get_ibgp_as r = get_or (r.spec.protocols >? (λ p. p.ibgp) >? λ x. x.as_number) 0

abbrev pub no_bfd : BfdLinkParameters
no_bfd = record {
  enabled = none;
  min_echo_rx = none;
  min_rx = none;
  min_tx = none;
  multiplier = none;
  ttl = none;
}

-- The values behind the returned pointer. The source returns the design's own struct.
unfoldable pub get_underlay_bfd_parameters : NetworkDesign → BfdLinkParameters
get_underlay_bfd_parameters r = get_or (underlay_of r >? λ u. u.bfd) no_bfd

abbrev pub default_igp_instance : String
default_igp_instance = "i1"

unfoldable pub get_ospf_version : String → NetworkDesign → String
get_ospf_version unknown r = elim (r.spec.protocols >? λ p. p.ospf) [
  | none ↦ unknown
  | some x ↦ x.version
]

unfoldable pub get_ospf_max_ecmp_paths : NetworkDesign → ℕ
get_ospf_max_ecmp_paths r = get_or (r.spec.protocols >? (λ p. p.ospf) >? λ x. x.max_ecmp_paths) 1

unfoldable pub get_ospf_area : NetworkDesign → String
get_ospf_area r = elim (r.spec.protocols >? λ p. p.ospf) [ none ↦ "" | some x ↦ x.area ]

unfoldable pub get_isis_level : String → NetworkDesign → String
get_isis_level unknown r = elim (r.spec.protocols >? λ p. p.isis) [
  | none ↦ unknown
  | some x ↦ x.level
]

unfoldable pub get_isis_areas : NetworkDesign → List String
get_isis_areas r = elim (r.spec.protocols >? λ p. p.isis) [ none ↦ [] | some x ↦ x.areas ]

unfoldable pub get_isis_max_ecmp_paths : NetworkDesign → ℕ
get_isis_max_ecmp_paths r = get_or (r.spec.protocols >? (λ p. p.isis) >? λ x. x.max_ecmp_paths) 1

unfoldable pub get_loopback_prefixes : NetworkDesign → List String
get_loopback_prefixes r = elim (loopback_of r) [
  | none ↦ []
  | some x ↦ map (λ (p : Prefix). p.prefix) x.prefixes
]

-- `*r.Spec.Protocols.ISIS`, without a nil check on the way.
unfoldable pub get_isis_instance_name : NetworkDesign → Outcome String
get_isis_instance_name r = do
  x ← deref (r.spec.protocols >? λ p. p.isis)
  ok (get_or x.instance_name default_igp_instance)

unfoldable pub get_ospf_instance_name : NetworkDesign → Outcome String
get_ospf_instance_name r = do
  x ← deref (r.spec.protocols >? λ p. p.ospf)
  ok (get_or x.instance_name default_igp_instance)
