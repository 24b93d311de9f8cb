-- ===== src/Builder/Result.antt =====
-- `BuildUnderlay` of pkg/devbuilder/builder.go writes to the devices by calls of their methods
-- only: the parts that depend on what was gathered, and the whole.
use kuidapps.Prelude.{ℕ, refl, Option, none, some, List, []}
use kuidapps.Outcome.{ok}
use kuidapps.Infra.{Infra, Api, InfraLink, NodeId}
use kuidapps.Link.Ends.{Link, new_link, add_node_name, add_ep_name}
use kuidapps.Devices.Calls.{run}
use kuidapps.Builder.State.{Node, DeviceBuilder, get}
use kuidapps.Builder.Interfaces.{update_underlay_interface}
use kuidapps.Builder.Gather.{
  index, gather_unless, gather_end, gather_link_end, gather_link_and_node_info, get_links,
}
use kuidapps.Builder.Underlay.{update_base_device_config, build_link, build_links, build_underlay}
use kuidapps.Builder.Leads.{
  Leads, Leads-value, Leads-bind, IsLeading, then-IsLeading, leading_steps,
}
use kuidapps.Builder.Leading.{update_underlay_interface-IsLeading}
use kuidapps.Builder.Building.{
  gather_node_info-Leads, update_base_device_config-IsLeading, update_underlay_rr_config-IsLeading,
}

module _ (infra : Infra) (api : Api) where
  gather_unless-Leads :
      (i : NodeId) (o : Option Node) (r : DeviceBuilder)
      → Leads (λ s. s) r (gather_unless infra api i o r)
  unfolding run
  gather_unless-Leads i none r = gather_node_info-Leads infra api i r
  gather_unless-Leads i (some node) r = (([], refl), refl)

  gather_link_end-Leads :
      (k : ℕ) (x : Link × DeviceBuilder) → Leads (λ y. y.1) x.1 (gather_link_end infra api k x)
  unfolding gather_link_end run
  gather_link_end-Leads k (l, r) =
      Leads-value (λ y. y.1) r (index k l.l.endpoints) _
        λ e.
          Leads-bind (λ s. s) (λ y. y.1) r
            (gather_unless infra api e.node_id (get e.node_id.node r.nodes) r) _
            (gather_unless-Leads e.node_id (get e.node_id.node r.nodes) r)
            λ s.
              Leads-value (λ y. y.1) s
                (gather_end infra api s k e.node_id.node e.endpoint
                  (add_ep_name k e.endpoint (add_node_name k e.node_id.node l)))
                (λ l'. ok (l', s)) λ l'. (([], refl), refl)

  gather_link_and_node_info-Leads :
      (l : InfraLink) (r : DeviceBuilder)
      → Leads (λ y. y.1) r (gather_link_and_node_info infra api l r)
  unfolding gather_link_and_node_info
  gather_link_and_node_info-Leads l r =
      Leads-bind (λ y. y.1) (λ y. y.1) r (gather_link_end infra api 0 (new_link l, r))
        (gather_link_end infra api 1) (gather_link_end-Leads 0 (new_link l, r))
        (gather_link_end-Leads 1)

  build_link-IsLeading : (l : InfraLink) → IsLeading (build_link infra api l)
  unfolding build_link
  build_link-IsLeading l = record {
    leads = λ r.
        Leads-bind (λ y. y.1) (λ s. s) r (gather_link_and_node_info infra api l r) _
          (gather_link_and_node_info-Leads l r)
          λ x.
            (then-IsLeading (update_base_device_config infra api x.0)
                (update_underlay_interface infra x.0)
                (update_base_device_config-IsLeading infra api x.0)
                (update_underlay_interface-IsLeading infra x.0)).leads
              x.1;
  }

  links-IsLeading : (l : List InfraLink) → IsLeading (build_links infra api l)
  links-IsLeading l =
      search (leading_steps, build_link-IsLeading, update_underlay_rr_config-IsLeading)

  pub build_underlay-IsLeading : IsLeading (build_underlay infra api)
  unfolding build_underlay
  build_underlay-IsLeading = record {
    leads = λ r.
        Leads-value (λ s. s) r (get_links infra api r) _ λ links. (links-IsLeading links).leads r;
  }
