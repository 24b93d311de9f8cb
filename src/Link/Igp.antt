-- ===== src/Link/Igp.antt =====
-- OSPF and ISIS of a link (pkg/devbuilder/link.go): the link's own settings, where it has them,
-- and the design's.
use text.Mathlib.Text.{◌==◌ as str_eq}
use kuidapps.Prelude.{ℕ, String, Bool, true, false, not, none, if◌then◌else◌, nat_eq}
use kuidapps.Schema.{IsisInterface}
use kuidapps.Device.Igp.{
  get_or_create_isis_interface_ipv4, get_or_create_isis_interface_ipv6,
  get_or_create_isis_interface_level1, get_or_create_isis_interface_level2,
}
use kuidapps.Design.Spec.{NetworkDesign}
use kuidapps.Design.Getters.{
  is_ospf_bfd_enabled, is_isis_bfd_enabled, is_underlay_ipv4_enabled, is_underlay_ipv6_enabled,
  get_ospf_area as design_ospf_area, get_isis_level as design_isis_level,
}
use kuidapps.Infra.{Infra}
use kuidapps.Link.Ends.{Link, get_ep_name, setting}

unfoldable pub get_ospf_area : NetworkDesign → Link → String
get_ospf_area design r = setting r.l.ospf (λ x. x.area) (design_ospf_area design)

unfoldable pub get_ospf_passive : Link → Bool
get_ospf_passive r = setting r.l.ospf (λ x. x.passive) false

unfoldable pub get_ospf_bfd : NetworkDesign → Link → Bool
get_ospf_bfd design r =
    if is_ospf_bfd_enabled design then setting r.l.ospf (λ x. x.bfd) true else false

unfoldable pub get_isis_bfd : NetworkDesign → Link → Bool
get_isis_bfd design r =
    if is_isis_bfd_enabled design then setting r.l.isis (λ x. x.bfd) true else false

module _ (infra : Infra) where
  unfoldable pub get_ospf_network_type : Link → String
  get_ospf_network_type r = setting r.l.ospf (λ x. x.network_type) infra.network_type_p2p

  -- `…Level1().Disable = true`, and the two metrics.
  abbrev disable_level1 : IsisInterface → IsisInterface
  unfolding get_or_create_isis_interface_level1
  disable_level1 = get_or_create_isis_interface_level1 (λ x. record x { disable = true })

  abbrev disable_level2 : IsisInterface → IsisInterface
  unfolding get_or_create_isis_interface_level2
  disable_level2 = get_or_create_isis_interface_level2 (λ x. record x { disable = true })

  abbrev metric_level1 : ℕ → IsisInterface → IsisInterface
  unfolding get_or_create_isis_interface_level1
  metric_level1 metric =
      get_or_create_isis_interface_level1
        (λ x. record x { metric = metric; metric_ipv6_unicast = metric })

  abbrev metric_level2 : ℕ → IsisInterface → IsisInterface
  unfolding get_or_create_isis_interface_level2
  metric_level2 metric =
      get_or_create_isis_interface_level2
        (λ x. record x { metric = metric; metric_ipv6_unicast = metric })

  abbrev when_then : Bool → (IsisInterface → IsisInterface) → IsisInterface → IsisInterface
  when_then b f x = if b then f x else x

  -- The `switch` on the design's level.
  unfoldable pub isis_levels : String → String → ℕ → IsisInterface → IsisInterface
  unfolding disable_level1 disable_level2 metric_level1 metric_level2
  isis_levels level link_level metric x =
      if str_eq level infra.isis_level_l1
      then when_then (not (nat_eq metric 0)) (metric_level1 metric)
          (when_then (str_eq link_level infra.isis_level_l2) disable_level1 x)
      else if str_eq level infra.isis_level_l2
      then when_then (not (nat_eq metric 0)) (metric_level2 metric)
          (when_then (str_eq link_level infra.isis_level_l1) disable_level2 x)
      else if str_eq level infra.isis_level_l1l2
      then when_then (not (nat_eq metric 0)) (λ y. metric_level2 metric (metric_level1 metric y))
          (when_then (str_eq link_level infra.isis_level_l2) disable_level1
            (when_then (str_eq link_level infra.isis_level_l1) disable_level2 x))
      else x

  unfoldable pub get_isis_interface : ℕ → NetworkDesign → ℕ → Link → IsisInterface
  unfolding get_ep_name isis_levels get_isis_bfd get_or_create_isis_interface_ipv4
      get_or_create_isis_interface_ipv6
  get_isis_interface idx design id r =
      let passive = infra.get_isis_passive r.l in
      let link_type = infra.get_isis_network_type r.l in
      let start : IsisInterface = record {
        sub_interface_name = record { name = get_ep_name idx r; id = id };
        network_type =
            if passive
            then infra.network_type_unknown
            else if str_eq link_type infra.network_type_unknown
            then infra.network_type_p2p
            else link_type;
        level1 = none;
        level2 = none;
        ipv4 = none;
        ipv6 = none;
        passive = passive;
      } in
      let levelled =
        isis_levels (design_isis_level infra.isis_level_unknown design) (infra.get_isis_level r.l)
          (infra.get_isis_metric r.l) start in
      let with_ipv4 =
        when_then (is_underlay_ipv4_enabled design)
          (get_or_create_isis_interface_ipv4 (λ x. record x { bfd = get_isis_bfd design r }))
          levelled in
      when_then (is_underlay_ipv6_enabled design)
        (get_or_create_isis_interface_ipv6 (λ x. record x { bfd = get_isis_bfd design r }))
        with_ipv4
