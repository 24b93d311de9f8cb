-- ===== src/Builder/Overlay.antt =====
-- The build of an overlay network (pkg/devbuilder/builder.go, `BuildOverlay`): its bridges and
-- its routers, whose interfaces are those that no selector chooses.
use kuidapps.Prelude.{
  ℕ, ◌%◌, String, not, ◌||◌, Option, none, some, List, [], ◌∷◌, if◌then◌else◌, get_or, is_some,
}
use kuidapps.Outcome.{
  Outcome, ok, deref, ◌>>=◌, bridge_without_endpoint, bridge_without_node,
  router_without_bridge_or_endpoint, router_without_node, bridge_not_present,
}
use kuidapps.Text.{◌⧺◌, decimal}
use kuidapps.Schema.{SubInterface, NetworkInstance}
use kuidapps.Design.Getters.{is_vxlan_enabled, get_ibgp_as}
use kuidapps.Network.{
  Network, NetworkInterface, NetworkInterfaceAddress, NetworkBridge, NetworkRouter, is_dynamic,
  is_bridge_present, is_default_network,
}
use kuidapps.Infra.{Infra, Api, InfraEndpoint, NodeId}
use kuidapps.Devices.Calls.{
  provider, sub_interface, network_instance, network_instance_sub_interface, tunnel_sub_interface,
  network_instance_sub_interface_vxlan, bgp_evpn, bgp_vpn,
}
use kuidapps.Builder.State.{Action, call, ◌▹◌, when, with_value, reading, each}
use kuidapps.Builder.Node.{
  network_name_of, si_name, vxlan_interface_name, irb_interface_name, add_prefix,
}
use kuidapps.Builder.Underlay.{build_underlay}
use kuidapps.Builder.Gather.{required, ensure, found, get_node}

-- `uint32(id)`
abbrev pub uint32 : ℕ → ℕ
uint32 id = id % 4294967296

-- A network instance of the overlay: itself, its VXLAN interface and its BGP services.
unfoldable pub plain_instance : String → String → NetworkInstance
plain_instance name kind = record {
  name = name;
  kind = kind;
  protocols = none;
  interfaces = [];
  vxlan_interface = none;
}

unfoldable pub add_vxlan : String → String → String → ℕ → Action
add_vxlan node_name ni_name kind id = reading λ r. when (is_vxlan_enabled r.network_design) (
    call node_name (tunnel_sub_interface vxlan_interface_name (record { id = id; kind = kind }))
    ▹ call node_name
        (network_instance_sub_interface_vxlan ni_name (si_name vxlan_interface_name id)))

abbrev pub route_target : ℕ → ℕ → String
route_target as_number id = "target:" ⧺ decimal as_number ⧺ ":" ⧺ decimal id

unfoldable pub add_services : String → String → ℕ → Action
add_services node_name ni_name id = reading λ r.
    call node_name
      (bgp_evpn ni_name (record { evi = id; ecmp = 2; vxlan_interface = vxlan_interface_name }))
    ▹ call node_name (
        bgp_vpn ni_name (record {
          import_route_target = route_target (get_ibgp_as r.network_design) id;
          export_route_target = route_target (get_ibgp_as r.network_design) id;
        }))

module _ (infra : Infra) (api : Api) where
  unfoldable pub get_endpoint : Network → String → NodeId → Outcome InfraEndpoint
  get_endpoint network endpoint node_id =
      let name = network.spec.topology ⧺ "." ⧺ infra.endpoint_kuid_string endpoint node_id in
      found name (api.get_endpoint network.namespace name)

  -- A static interface of a bridge.
  unfoldable pub bridge_static_interface : String → ℕ → NetworkInterface → Action
  unfolding get_endpoint plain_instance add_vxlan add_services
  bridge_static_interface bd_name id itfce = reading λ r.
      with_value (required bridge_without_endpoint itfce.endpoint) λ endpoint.
        with_value (required bridge_without_node itfce.node_id) λ node_id.
          with_value (get_endpoint r.network endpoint node_id) λ ep.
            call node_id.node (provider ep.provider)
            ▹ call node_id.node (
                sub_interface ep.endpoint (record {
                  peer_name = "customer";
                  id = id;
                  kind = "bridged";
                  vlan = some (get_or itfce.vlan_id id);
                  ipv4 = none;
                  ipv6 = none;
                }))
            ▹ call node_id.node (network_instance (plain_instance bd_name "mac-vrf"))
            ▹ call node_id.node (network_instance_sub_interface bd_name (si_name ep.endpoint id))
            ▹ add_vxlan node_id.node bd_name "bridged" id
            ▹ add_services node_id.node bd_name id

  -- The sets of nodes that the source collects for each bridge are read by nothing.
  unfoldable pub build_bridge : NetworkBridge → Action
  unfolding bridge_static_interface each
  build_bridge bridge = reading λ r.
      each
        (λ itfce. when (not (is_dynamic itfce)) (
          bridge_static_interface (network_name_of r ⧺ "." ⧺ bridge.name) (uint32 bridge.network_id)
            itfce))
        bridge.interfaces

  -- The provider of a router interface's node: by its endpoint where it has no bridge.
  unfoldable pub router_provider : NetworkInterface → NodeId → Network → Outcome String
  unfolding get_endpoint get_node
  router_provider itfce node_id network = elim itfce.bridge [
    | none ↦ deref itfce.endpoint >>= λ endpoint.
        get_endpoint network endpoint node_id >>= λ ep. ok ep.provider
    | some bridge ↦
        get_node infra api network.namespace
          (network.spec.topology ⧺ "." ⧺ infra.kuid_string node_id)
        >>= λ n. ok n.provider
  ]

  unfoldable pub addresses_per_af : List NetworkInterfaceAddress → List String × List String
  addresses_per_af [] = ([], [])
  addresses_per_af (x ∷ xs) = add_prefix infra x.address (addresses_per_af xs)

  unfoldable pub router_sub_interface :
      ℕ → String → Option ℕ → List NetworkInterfaceAddress → SubInterface
  unfolding addresses_per_af
  router_sub_interface id kind vlan l = record {
    peer_name = "customer";
    id = id;
    kind = kind;
    vlan = vlan;
    ipv4 = some (record { addresses = (addresses_per_af l).0 });
    ipv6 = some (record { addresses = (addresses_per_af l).1 });
  }

  -- The subinterface: on the endpoint, or on the IRB interface of a bridge that is there.
  unfoldable pub router_attachment :
      String → String → ℕ → NetworkInterface → Option String → Option String → Action
  unfolding router_sub_interface
  router_attachment node_name ni_name id itfce none endpoint = with_value (deref endpoint) λ e.
      call node_name (
        sub_interface e
          (router_sub_interface id "routed" (some (get_or itfce.vlan_id id)) itfce.addresses))
      ▹ call node_name (network_instance_sub_interface ni_name (si_name e id))
  router_attachment node_name ni_name id itfce (some bridge) endpoint = reading λ r.
      with_value (ensure bridge_not_present (is_bridge_present bridge r.network)) λ _.
        call node_name
          (sub_interface irb_interface_name (router_sub_interface id "" none itfce.addresses))
        ▹ call node_name (network_instance_sub_interface ni_name (si_name irb_interface_name id))
        ▹ call node_name (
            network_instance_sub_interface (network_name_of r ⧺ "." ⧺ bridge)
              (si_name irb_interface_name id))

  -- A static interface of a router.
  unfoldable pub router_static_interface : String → ℕ → NetworkInterface → Action
  unfolding router_provider plain_instance add_vxlan add_services router_attachment
  router_static_interface ni_name id itfce = reading λ r.
      with_value
        (ensure router_without_bridge_or_endpoint (is_some itfce.bridge || is_some itfce.endpoint))
        λ _. with_value (required router_without_node itfce.node_id) λ node_id.
          with_value (router_provider itfce node_id r.network) λ p.
            call node_id.node (provider p)
            ▹ call node_id.node (network_instance (plain_instance ni_name "ip-vrf"))
            ▹ add_vxlan node_id.node ni_name "routed" id
            ▹ add_services node_id.node ni_name id
            ▹ router_attachment node_id.node ni_name id itfce itfce.bridge itfce.endpoint

  unfoldable pub build_router : NetworkRouter → Action
  unfolding router_static_interface each
  build_router router = reading λ r.
      each
        (λ itfce. when (not (is_dynamic itfce)) (
          router_static_interface (network_name_of r ⧺ "." ⧺ router.name) (uint32 router.network_id)
            itfce))
        router.interfaces

  unfoldable pub build_overlay : Action
  unfolding build_bridge build_router each
  build_overlay =
      reading
        λ r. each build_bridge r.network.spec.bridges ▹ each build_router r.network.spec.routers

  -- The default network is the underlay, every other one an overlay.
  unfoldable pub build : Action
  unfolding build_overlay
  build =
      reading λ r. if is_default_network r.network then build_underlay infra api else build_overlay
