-- ===== src/Builder/Underlay.antt =====
-- The whole build of the underlay (pkg/devbuilder/builder.go): `BuildUnderlay`, with the mesh of
-- the route reflectors.
use text.Mathlib.Text.{◌==◌ as str_eq}
use kuidapps.Prelude.{
  String, false, ◌||◌, Option, none, some, List, [], ◌∷◌, ◌++◌, map, if◌then◌else◌, get_or,
}
use kuidapps.Outcome.{Outcome, ok, deref, ◌>>=◌}
use kuidapps.Text.{◌⧺◌}
use kuidapps.Schema.{BgpPeerGroup, RouteReflector, BgpNeighbor}
use kuidapps.Design.Getters.{◌>?◌, is_ibgp_enabled, get_ibgp_as}
use kuidapps.Design.Families.{get_overlay_address_families_to_be_disabled}
use kuidapps.Infra.{Infra, Api, InfraLink}
use kuidapps.Link.Ends.{Link, get_node_name}
use kuidapps.Devices.Calls.{bgp_peer_group, bgp_neighbor}
use kuidapps.Builder.State.{
  Node, Rr, DeviceBuilder, get, put, Action, call, ◌▹◌, when, with_value, reading, each,
}
use kuidapps.Builder.Node.{network_name_of, bgp_overlay_peer_group_name, update_base_node}
use kuidapps.Builder.Interfaces.{address_of, update_underlay_interface}
use kuidapps.Builder.Gather.{get_ip_claim, get_links, gather_link_and_node_info}

-- The overlay peer group of a node, and a session with a route reflector.
unfoldable pub overlay_peer_group : Option RouteReflector → DeviceBuilder → BgpPeerGroup
overlay_peer_group rr r = record {
  name = bgp_overlay_peer_group_name;
  address_families = get_overlay_address_families_to_be_disabled r.network_design;
  route_reflector = rr;
  bfd = false;
}

unfoldable pub overlay_neighbor : String → String → DeviceBuilder → BgpNeighbor
overlay_neighbor local peer r = record {
  peer_address = peer;
  peer_as = get_ibgp_as r.network_design;
  peer_group = bgp_overlay_peer_group_name;
  local_as = get_ibgp_as r.network_design;
  local_address = local;
  bfd = false;
}

-- The addresses of the edges by the route reflector's name.
abbrev pub EdgeIps : Type 0
EdgeIps = List (String × List String)

-- The system prefix of a node in the family of a route reflector.
abbrev pub system_prefix : Rr → Node → String
system_prefix rr n = if rr.ipv4 then n.ipv4 else n.ipv6

module _ (infra : Infra) where
  -- The session of an edge with a route reflector, for which the address is noted.
  unfoldable pub edge_neighbor :
      Node → String × Rr → EdgeIps → DeviceBuilder → Outcome (EdgeIps × DeviceBuilder)
  unfolding overlay_neighbor get put
  edge_neighbor n (rr_name, rr) ips r = address_of infra (system_prefix rr n) >>= λ local.
      let ips' = put rr_name (get_or (get rr_name ips) [] ++ local ∷ []) ips in
      call n.node_id.node (bgp_neighbor (network_name_of r) (overlay_neighbor local rr.ip r)) r
      >>= λ s. ok (ips', s)

  -- One edge and one route reflector.
  unfoldable pub edge_session :
      Node → String × Rr → EdgeIps × DeviceBuilder → Outcome (EdgeIps × DeviceBuilder)
  unfolding overlay_peer_group edge_neighbor
  edge_session n x (ips, r) =
      if n.edge
      then (call n.node_id.node (bgp_peer_group (network_name_of r) (overlay_peer_group none r)) r
          >>= edge_neighbor n x ips)
      else ok (ips, r)

  unfoldable pub edge_sessions :
      Node → List (String × Rr) → EdgeIps × DeviceBuilder → Outcome (EdgeIps × DeviceBuilder)
  unfolding edge_session
  edge_sessions n [] s = ok s
  edge_sessions n (x ∷ xs) s = edge_session n x s >>= edge_sessions n xs

  unfoldable pub edges_sessions :
      List Node → List (String × Rr) → EdgeIps × DeviceBuilder → Outcome (EdgeIps × DeviceBuilder)
  unfolding edge_sessions
  edges_sessions [] rrs s = ok s
  edges_sessions (n ∷ ns) rrs s = edge_sessions n rrs s >>= edges_sessions ns rrs

  -- The session of a route reflector with an edge.
  unfoldable pub reflector_session : Rr → Node → String → Action
  unfolding overlay_neighbor
  reflector_session rr n peer_ip = with_value (address_of infra (system_prefix rr n)) λ local.
      reading λ r.
        call n.node_id.node (bgp_neighbor (network_name_of r) (overlay_neighbor local peer_ip r))

  -- One route reflector and one node: the node is the one that it names, in either family.
  unfoldable pub reflector_node : EdgeIps → String × Rr → Node → Action
  unfolding overlay_peer_group reflector_session get each
  reflector_node ips (rr_name, rr) n = reading λ r.
      when
        (str_eq rr_name (r.network.name ⧺ "." ⧺ n.node_id.node ⧺ ".ipv4")
          || str_eq rr_name (r.network.name ⧺ "." ⧺ n.node_id.node ⧺ ".ipv6"))
        (call n.node_id.node (
            bgp_peer_group (network_name_of r)
              (overlay_peer_group (some (record { cluster_id = rr.ip })) r))
          ▹ each (reflector_session rr n) (get_or (get rr_name ips) []))

  module _ (api : Api) where
    abbrev pub add_rr : String → Rr → Action
    add_rr name rr r = ok (record r { rrs = put name rr r.rrs })

    unfoldable pub gather_rr : String → Action
    unfolding get_ip_claim put
    gather_rr name = reading λ r. with_value (get_ip_claim infra api r.network.namespace name) λ ip.
        with_value (deref (infra.new_prefix ip))
          λ p. add_rr name (record { ip = p.address; ipv4 = p.is_ipv4 })

    unfoldable pub gather_rr_info : Action
    unfolding gather_rr each
    gather_rr_info = reading λ r.
        with_value (deref (r.network_design.spec.protocols >? λ p. p.ibgp))
          λ ibgp. each gather_rr ibgp.route_reflectors

    unfoldable pub update_underlay_rr_config : Action
    unfolding gather_rr_info edges_sessions reflector_node each
    update_underlay_rr_config r = gather_rr_info r >>= λ s.
        edges_sessions (map (λ e. e.1) s.nodes) s.rrs ([], s) >>= λ x.
        each (λ rr. each (reflector_node x.0 rr) (map (λ e. e.1) s.nodes)) s.rrs x.1

    unfoldable pub update_base_device_config : Link → Action
    unfolding update_base_node get_node_name
    update_base_device_config l =
        update_base_node infra (get_node_name 0 l) ▹ update_base_node infra (get_node_name 1 l)

    -- One link: the body of the loop.
    unfoldable pub build_link : InfraLink → Action
    unfolding gather_link_and_node_info update_base_device_config update_underlay_interface
    build_link link r = gather_link_and_node_info infra api link r >>= λ x.
        (update_base_device_config x.0 ▹ update_underlay_interface infra x.0) x.1

    -- The links, and then the mesh.
    abbrev pub build_links : List InfraLink → Action
    build_links links =
        each build_link links
        ▹ reading λ s. when (is_ibgp_enabled s.network_design) update_underlay_rr_config

    unfoldable pub build_underlay : Action
    unfolding get_links build_link update_underlay_rr_config each
    build_underlay r = get_links infra api r >>= λ links. build_links links r
