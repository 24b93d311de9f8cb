-- ===== src/Design/Laws.antt =====
-- What the readers of a design (apis/network/v1alpha1/networkdesign_interfaces.go) say together.
use text.Mathlib.Text.{◌==◌ as str_eq}
use kuidapps.Prelude.{
  String, ◌≡◌, refl, inl, inr, Bool, true, false, not, ◌&&◌, ◌||◌, List, [], ◌∷◌, arith,
  if◌then◌else◌, eq_iff, Option-cases, Bool-cases,
}
use kuidapps.Schema.{BgpAddressFamily}
use kuidapps.Design.Spec.{
  addressing_dual_stack, addressing_ipv4_numbered, addressing_ipv6_numbered,
  addressing_ipv6_unnumbered, addressing_ipv4_unnumbered, NetworkDesign,
}
use kuidapps.Design.Getters.{
  underlay_of, is_isis_enabled, is_ospf_enabled, is_underlay_ipv4_only, is_underlay_ipv6_only,
  is_underlay_ipv4_enabled, is_underlay_ipv4_numbered, is_underlay_ipv4_unnumbered,
  is_underlay_ipv6_enabled, is_underlay_ipv6_numbered, is_underlay_ipv6_unnumbered,
  is_loopback_ipv4_enabled, is_loopback_ipv6_enabled, is_bgp_evpn_enabled,
}
use kuidapps.Design.Families.{
  append_if, get_underlay_address_families_to_be_disabled,
  get_overlay_address_families_to_be_disabled, get_all_enabled_address_families,
}

-- A text equals one of two different texts at most.
exclusive : (a c d : String) → str_eq c d ≡ false → str_eq a c ≡ true → str_eq a d ≡ false
exclusive a c d h p = rw ((eq_iff a c).0 p) h

-- In each family the underlay is numbered or unnumbered, where it is enabled, and not both; it is
-- enabled in both families only where it is numbered in both; and an underlay of one family only
-- is not enabled in the other.
pub underlay_partition :
    (r : NetworkDesign)
    → (is_underlay_ipv4_enabled r ≡ (is_underlay_ipv4_numbered r || is_underlay_ipv4_unnumbered r))
      × (is_underlay_ipv6_enabled r
          ≡ (is_underlay_ipv6_numbered r || is_underlay_ipv6_unnumbered r))
      × ((is_underlay_ipv4_numbered r && is_underlay_ipv4_unnumbered r) ≡ false)
      × ((is_underlay_ipv6_numbered r && is_underlay_ipv6_unnumbered r) ≡ false)
      × ((is_underlay_ipv4_enabled r && is_underlay_ipv6_enabled r)
          ≡ (is_underlay_ipv4_numbered r && is_underlay_ipv6_numbered r))
      × ((is_underlay_ipv4_only r && is_underlay_ipv6_enabled r) ≡ false)
      × ((is_underlay_ipv6_only r && is_underlay_ipv4_enabled r) ≡ false)
unfolding is_underlay_ipv4_enabled is_underlay_ipv4_numbered is_underlay_ipv4_unnumbered
    is_underlay_ipv6_enabled is_underlay_ipv6_numbered is_underlay_ipv6_unnumbered
    is_underlay_ipv4_only is_underlay_ipv6_only
underlay_partition r = elim (Option-cases (underlay_of r)) [
  | inl missing ↦ rw missing (refl, refl, refl, refl, refl, refl, refl)
  | inr (u, found) ↦ rw found (
      ground (
        arith,
        exclusive u.addressing addressing_dual_stack addressing_ipv4_numbered refl,
        exclusive u.addressing addressing_dual_stack addressing_ipv6_numbered refl,
        exclusive u.addressing addressing_dual_stack addressing_ipv6_unnumbered refl,
        exclusive u.addressing addressing_dual_stack addressing_ipv4_unnumbered refl,
        exclusive u.addressing addressing_ipv4_numbered addressing_ipv6_numbered refl,
        exclusive u.addressing addressing_ipv4_numbered addressing_ipv6_unnumbered refl,
        exclusive u.addressing addressing_ipv4_numbered addressing_ipv4_unnumbered refl,
        exclusive u.addressing addressing_ipv6_numbered addressing_ipv6_unnumbered refl,
        exclusive u.addressing addressing_ipv6_numbered addressing_ipv4_unnumbered refl,
        exclusive u.addressing addressing_ipv6_unnumbered addressing_ipv4_unnumbered refl,
      ))
]

-- Is there a family of that name?
abbrev pub has : String → List BgpAddressFamily → Bool
has n [] = false
has n (x ∷ xs) = str_eq x.name n || has n xs

has-append_if :
    (n : String) (b : Bool) (x : BgpAddressFamily) (xs : List BgpAddressFamily)
    → has n (append_if b x xs) ≡ (has n xs || (b && str_eq x.name n))
unfolding append_if
has-append_if n true x [] = ground arith
has-append_if n false x [] = refl
has-append_if n true x (y ∷ ys) = ground (arith, has-append_if n true x ys)
has-append_if n false x (y ∷ ys) = ground arith

has-if :
    (n : String) (b : Bool) (xs : List BgpAddressFamily)
    → has n (if b then xs else []) ≡ (b && has n xs)
has-if n true xs = refl
has-if n false xs = refl

and_false : (b : Bool) → (b && false) ≡ false
and_false b = ground arith

or_false : (b : Bool) → (b || false) ≡ b
or_false b = ground arith

ruleset has_laws = (has-append_if, has-if, and_false, or_false)

-- The overlay peer group is to disable just the unicast families that BGP is given.
pub get_overlay_address_families_to_be_disabled_lem :
    (r : NetworkDesign) (n : String)
    → has n (get_overlay_address_families_to_be_disabled r) ≡ (
        has n (get_all_enabled_address_families r)
        && ((str_eq "ipv4-unicast" n || str_eq "ipv6-unicast" n)))
unfolding get_overlay_address_families_to_be_disabled get_all_enabled_address_families
get_overlay_address_families_to_be_disabled_lem r n = elim (Bool-cases (str_eq "ipv4-unicast" n)) [
  | inl v4 ↦ rw (← (eq_iff "ipv4-unicast" n).0 v4) (simp has_laws (ground arith))
  | inr not_v4 ↦ elim (Bool-cases (str_eq "ipv6-unicast" n)) [
    | inl v6 ↦ rw (← (eq_iff "ipv6-unicast" n).0 v6) (simp has_laws (ground arith))
    | inr not_v6 ↦ simp (has_laws, not_v4, not_v6) (ground arith)
  ]
]

-- The underlay peer group is to disable evpn where the design has it, and of the unicast families
-- IPv4 where no IGP runs and neither the underlay nor the loopbacks have it, but IPv6 where no IGP runs and the
-- loopbacks have it and the underlay does not. So IPv4 is never both given to BGP and disabled in
-- the underlay, and IPv6 is both just in that case.
pub get_underlay_address_families_to_be_disabled_lem :
    (r : NetworkDesign)
    → (has "ipv4-unicast" (get_underlay_address_families_to_be_disabled r) ≡ (
        not (is_isis_enabled r || is_ospf_enabled r)
        && not (is_underlay_ipv4_enabled r)
        && not (is_loopback_ipv4_enabled r)))
      × (has "ipv6-unicast" (get_underlay_address_families_to_be_disabled r) ≡ (
          not (is_isis_enabled r || is_ospf_enabled r)
          && not (is_underlay_ipv6_enabled r)
          && is_loopback_ipv6_enabled r))
      × ((has "ipv4-unicast" (get_underlay_address_families_to_be_disabled r)
            && has "ipv4-unicast" (get_all_enabled_address_families r))
          ≡ false)
      × ((has "ipv6-unicast" (get_underlay_address_families_to_be_disabled r)
            && has "ipv6-unicast" (get_all_enabled_address_families r))
          ≡ (not (is_isis_enabled r || is_ospf_enabled r)
              && not (is_underlay_ipv6_enabled r)
              && is_loopback_ipv6_enabled r))
      × (has "evpn" (get_underlay_address_families_to_be_disabled r) ≡ is_bgp_evpn_enabled r)
unfolding get_underlay_address_families_to_be_disabled get_all_enabled_address_families
get_underlay_address_families_to_be_disabled_lem r = (
  simp has_laws (ground arith),
  simp has_laws (ground arith),
  simp has_laws (ground arith),
  simp has_laws (ground arith),
  simp has_laws (ground arith),
)
