-- ===== src/Design/Enabled.antt =====
-- Which address families BGP is given (`GetAllEnabledAddressFamilies` of
-- apis/network/v1alpha1/networkdesign_interfaces.go).
use mathlib.Core.Path.{subst}
use text.Mathlib.Text.{◌==◌ as str_eq}
use kuidapps.Prelude.{
  ℕ, ◌+◌, All, All-append, String, ◌≡◌, refl, inl, inr, Bool, true, false, not, ◌&&◌, ◌||◌, List,
  [], ◌∷◌, arith, if◌then◌else◌, eq_iff, Bool-cases,
}
use kuidapps.Schema.{BgpAddressFamily}
use kuidapps.Design.Spec.{NetworkDesign}
use kuidapps.Design.Getters.{
  is_bgp_ip_vpnv4_enabled, is_bgp_ip_vpnv6_enabled, is_bgp_evpn_enabled, is_loopback_ipv4_enabled,
  is_bgp_route_target_enabled, is_underlay_ipv4_enabled, is_loopback_ipv6_enabled,
  is_bgp_label_unicastv4_enabled, is_underlay_ipv6_only, is_underlay_ipv6_enabled, is_ospf_enabled,
  is_bgp_label_unicastv6_enabled, is_isis_enabled,
}
use kuidapps.Design.Families.{append_if, family, get_all_enabled_address_families}

-- How many families have that name?
abbrev pub count : String → List BgpAddressFamily → ℕ
count n [] = 0
count n (x ∷ xs) = (if str_eq x.name n then 1 else 0) + count n xs

count-append_if :
    (n : String) (b : Bool) (x : BgpAddressFamily) (xs : List BgpAddressFamily)
    → count n (append_if b x xs) ≡ count n xs + (if b && str_eq x.name n then 1 else 0)
unfolding append_if
count-append_if n false x xs = omega arith
count-append_if n true x [] = omega arith
count-append_if n true x (y ∷ ys) = omega (arith, count-append_if n true x ys)

count-if :
    (n : String) (b : Bool) (xs : List BgpAddressFamily)
    → count n (if b then xs else []) ≡ (if b then count n xs else 0)
count-if n true xs = refl
count-if n false xs = refl

ruleset count_laws = (count-append_if, count-if)

-- The names that BGP is given by the design: the unicast families if no IGP carries them and the
-- underlay or the loopbacks have them, and each service that the design names.
abbrev pub gives : NetworkDesign → String → Bool
gives r n =
    (str_eq "ipv4-unicast" n
      && (not (is_isis_enabled r || is_ospf_enabled r)
          && (is_underlay_ipv4_enabled r || is_loopback_ipv4_enabled r)))
    || ((str_eq "ipv6-unicast" n
          && (not (is_isis_enabled r || is_ospf_enabled r)
              && (is_underlay_ipv6_enabled r || is_loopback_ipv6_enabled r)))
        || ((str_eq "evpn" n && is_bgp_evpn_enabled r)
            || ((str_eq "l3vpn-ipv4-unicast" n && is_bgp_ip_vpnv4_enabled r)
                || ((str_eq "l3vpn-ipv6-unicast" n && is_bgp_ip_vpnv6_enabled r)
                    || ((str_eq "route-target" n && is_bgp_route_target_enabled r)
                        || ((str_eq "ipv4-labeled-unicast" n && is_bgp_label_unicastv4_enabled r)
                            || (str_eq "ipv6-labeled-unicast" n
                                && is_bgp_label_unicastv6_enabled r)))))))

-- A property of texts holds of `n` if it holds of `m`, and of `n` where that is another.
by_name : (P : String → Type 0) (m n : String) → P m → (str_eq m n ≡ false → P n) → P n
by_name P m n here other = elim (Bool-cases (str_eq m n)) [
  | inl same ↦ subst P ((eq_iff m n).0 same) here
  | inr apart ↦ other apart
]

abbrev Counts : NetworkDesign → String → Type 0
Counts r n = count n (get_all_enabled_address_families r) ≡ (if gives r n then 1 else 0)

families_count : (r : NetworkDesign) (n : String) → Counts r n
unfolding get_all_enabled_address_families
families_count r n = by_name (Counts r) "ipv4-unicast" n (simp count_laws (ground arith)) λ no0.
    by_name (Counts r) "ipv6-unicast" n (simp count_laws (ground arith)) λ no1.
      by_name (Counts r) "evpn" n (simp count_laws (ground arith)) λ no2.
        by_name (Counts r) "l3vpn-ipv4-unicast" n (simp count_laws (ground arith)) λ no3.
          by_name (Counts r) "l3vpn-ipv6-unicast" n (simp count_laws (ground arith)) λ no4.
            by_name (Counts r) "route-target" n (simp count_laws (ground arith)) λ no5.
              by_name (Counts r) "ipv4-labeled-unicast" n (simp count_laws (ground arith)) λ no6.
                by_name (Counts r) "ipv6-labeled-unicast" n (simp count_laws (ground arith))
                  λ no7. simp (count_laws, no0, no1, no2, no3, no4, no5, no6, no7) (ground arith)

-- Has the family the flag of RFC 5549 just where it is IPv4 unicast and the underlay has IPv6 only?
abbrev pub IsFlagged : NetworkDesign → BgpAddressFamily → Type 0
IsFlagged r x = x.rfc5549 ≡ (str_eq x.name "ipv4-unicast" && is_underlay_ipv6_only r)

append_if-IsFlagged :
    (r : NetworkDesign) (b : Bool) (x : BgpAddressFamily) (xs : List BgpAddressFamily)
    → IsFlagged r x
    → All (IsFlagged r) xs
    → All (IsFlagged r) (append_if b x xs)
unfolding append_if
append_if-IsFlagged r true x xs h k = All-append (IsFlagged r) xs (x ∷ []) k (h, tt)
append_if-IsFlagged r false x xs h k = k

unicast-IsFlagged :
    (r : NetworkDesign) (b : Bool)
    → All (IsFlagged r) (
        if b
        then append_if
            (is_underlay_ipv6_enabled r || is_loopback_ipv6_enabled r)
            (family "ipv6-unicast" false)
            (append_if
              (is_underlay_ipv4_enabled r || is_loopback_ipv4_enabled r)
              (family "ipv4-unicast" (if is_underlay_ipv6_only r then true else false))
              [])
        else [])
unicast-IsFlagged r true =
    append_if-IsFlagged r (is_underlay_ipv6_enabled r || is_loopback_ipv6_enabled r) _ _ refl (
      append_if-IsFlagged r (is_underlay_ipv4_enabled r || is_loopback_ipv4_enabled r) _ []
        (ground arith) tt)
unicast-IsFlagged r false = tt

families-IsFlagged : (r : NetworkDesign) → All (IsFlagged r) (get_all_enabled_address_families r)
unfolding get_all_enabled_address_families
families-IsFlagged r = append_if-IsFlagged r (is_bgp_label_unicastv6_enabled r) _ _ refl (
    append_if-IsFlagged r (is_bgp_label_unicastv4_enabled r) _ _ refl (
      append_if-IsFlagged r (is_bgp_route_target_enabled r) _ _ refl (
        append_if-IsFlagged r (is_bgp_ip_vpnv6_enabled r) _ _ refl (
          append_if-IsFlagged r (is_bgp_ip_vpnv4_enabled r) _ _ refl (
            append_if-IsFlagged r (is_bgp_evpn_enabled r) _ _ refl
              (unicast-IsFlagged r (not (is_isis_enabled r || is_ospf_enabled r))))))))

-- BGP is given exactly the families of the design, whatever the name: the unicast families, each
-- where no IGP runs and the underlay or the loopbacks have it, and each service that the design
-- names; each once, and no other. The flag of RFC 5549 is set on IPv4 unicast where the underlay
-- has IPv6 only, and nowhere else.
pub get_all_enabled_address_families_lem :
    (r : NetworkDesign) (n : String)
    → (count n (get_all_enabled_address_families r) ≡ (if gives r n then 1 else 0))
      × All (IsFlagged r) (get_all_enabled_address_families r)
get_all_enabled_address_families_lem r n = (families_count r n, families-IsFlagged r)
