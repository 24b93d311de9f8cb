-- ===== src/Builder/Building.antt =====
-- The whole build of the underlay (pkg/devbuilder/builder.go) is a sequence of calls on the
-- devices, so that what holds of every such sequence holds of what the builder returns.
use kuidapps.Prelude.{
  String, refl, Option, none, some, List, [], ◌∷◌, map, ◌++◌, get_or, Bool-cases, inl, inr,
}
use kuidapps.Outcome.{ok}
use kuidapps.Infra.{Infra, Api, NodeId}
use kuidapps.Link.Ends.{Link}
use kuidapps.Devices.Calls.{run, perform, bgp_neighbor, bgp_peer_group}
use kuidapps.Builder.State.{Node, Rr, DeviceBuilder, get, put, each, call}
use kuidapps.Builder.Node.{network_name_of}
use kuidapps.Builder.Interfaces.{address_of}
use kuidapps.Builder.Gather.{gather_node_info, add_node}
use kuidapps.Builder.Underlay.{
  EdgeIps, system_prefix, overlay_neighbor, overlay_peer_group, edge_neighbor, edge_session,
  edge_sessions, edges_sessions, reflector_session, reflector_node, gather_rr, gather_rr_info,
  add_rr, update_underlay_rr_config, update_base_device_config,
}
use kuidapps.Builder.Leads.{
  Leads, Leads-value, Leads-bind, IsLeading, call-IsLeading, each-IsLeading, leading_steps,
}
use kuidapps.Builder.Leading.{update_base_node-IsLeading}

module _ (infra : Infra) (api : Api) where
  add_node-Leads :
      (i : NodeId) (n : Node) (o : Option String) (r : DeviceBuilder)
      → Leads (λ s. s) r (add_node infra api i n o r)
  unfolding run
  add_node-Leads i n none r = (([], refl), refl)
  add_node-Leads i n (some t) r = (([], refl), refl)

  pub gather_node_info-Leads :
      (i : NodeId) (r : DeviceBuilder) → Leads (λ s. s) r (gather_node_info infra api i r)
  unfolding gather_node_info
  gather_node_info-Leads i r = search (Leads-value, add_node-Leads) depth 8

  pub update_base_device_config-IsLeading :
      (l : Link) → IsLeading (update_base_device_config infra api l)
  unfolding update_base_device_config
  update_base_device_config-IsLeading l = search (leading_steps, update_base_node-IsLeading)

  add_rr-IsLeading : (n : String) (x : Rr) → IsLeading (add_rr infra api n x)
  unfolding run
  add_rr-IsLeading n x = record { leads = λ r. (([], refl), refl) }

  gather_rr_info-IsLeading : IsLeading (gather_rr_info infra api)
  unfolding gather_rr_info gather_rr
  gather_rr_info-IsLeading = search (leading_steps, add_rr-IsLeading) depth 8

  reflector_node-IsLeading :
      (ips : EdgeIps) (x : String × Rr) (n : Node) → IsLeading (reflector_node infra ips x n)
  unfolding reflector_node reflector_session
  reflector_node-IsLeading ips x n = search leading_steps depth 12

  edge_neighbor-Leads :
      (n : Node) (x : String × Rr) (ips : EdgeIps) (r : DeviceBuilder)
      → Leads (λ s. s.1) r (edge_neighbor infra n x ips r)
  unfolding edge_neighbor run
  edge_neighbor-Leads n (rr_name, rr) ips r =
      Leads-value (λ s. s.1) r (address_of infra (system_prefix rr n))
        (λ local. ok (
          put rr_name (get_or (get rr_name ips) [] ++ local ∷ []) ips,
          record r {
            devices =
                perform n.node_id.node
                  (bgp_neighbor (network_name_of r) (overlay_neighbor local rr.ip r)) r.devices;
          },
        ))
        (λ local. (
          (
            (n.node_id.node, bgp_neighbor (network_name_of r) (overlay_neighbor local rr.ip r))
                ∷ [],
            refl,
          ),
          refl,
        ))

  edge_session-Leads :
      (n : Node) (x : String × Rr) (s : EdgeIps × DeviceBuilder)
      → Leads (λ t. t.1) s.1 (edge_session infra n x s)
  unfolding edge_session run
  edge_session-Leads n x (ips, r) = elim (Bool-cases n.edge) [
    | inr not_edge ↦ rw not_edge (([], refl), refl)
    | inl is_edge ↦ rw is_edge (
        Leads-bind (λ s. s) (λ t. t.1) r
          (call n.node_id.node (bgp_peer_group (network_name_of r) (overlay_peer_group none r)) r)
          (edge_neighbor infra n x ips)
          ((call-IsLeading n.node_id.node
              (bgp_peer_group (network_name_of r) (overlay_peer_group none r))).leads
            r)
          (edge_neighbor-Leads n x ips))
  ]

  edge_sessions-Leads :
      (n : Node) (l : List (String × Rr)) (s : EdgeIps × DeviceBuilder)
      → Leads (λ t. t.1) s.1 (edge_sessions infra n l s)
  unfolding edge_sessions run
  edge_sessions-Leads n [] s = (([], refl), refl)
  edge_sessions-Leads n (x ∷ l) s =
      Leads-bind (λ t. t.1) (λ t. t.1) s.1 (edge_session infra n x s) (edge_sessions infra n l)
        (edge_session-Leads n x s) (edge_sessions-Leads n l)

  edges_sessions-Leads :
      (ns : List Node) (l : List (String × Rr)) (s : EdgeIps × DeviceBuilder)
      → Leads (λ t. t.1) s.1 (edges_sessions infra ns l s)
  unfolding edges_sessions run
  edges_sessions-Leads [] l s = (([], refl), refl)
  edges_sessions-Leads (n ∷ ns) l s =
      Leads-bind (λ t. t.1) (λ t. t.1) s.1 (edge_sessions infra n l s) (edges_sessions infra ns l)
        (edge_sessions-Leads n l s) (edges_sessions-Leads ns l)

  reflectors-IsLeading :
      (ips : EdgeIps) (ns : List Node) (l : List (String × Rr))
      → IsLeading (each (λ rr. each (reflector_node infra ips rr) ns) l)
  reflectors-IsLeading ips ns l = search (each-IsLeading, reflector_node-IsLeading)

  pub update_underlay_rr_config-IsLeading : IsLeading (update_underlay_rr_config infra api)
  unfolding update_underlay_rr_config
  update_underlay_rr_config-IsLeading = record {
    leads = λ r.
        Leads-bind (λ s. s) (λ s. s) r (gather_rr_info infra api r) _
          (gather_rr_info-IsLeading.leads r)
          λ s.
            Leads-bind (λ t. t.1) (λ s. s) s
              (edges_sessions infra (map (λ e. e.1) s.nodes) s.rrs ([], s)) _
              (edges_sessions-Leads (map (λ e. e.1) s.nodes) s.rrs ([], s))
              λ x. (reflectors-IsLeading x.0 (map (λ e. e.1) s.nodes) s.rrs).leads x.1;
  }
