-- ===== src/Builder/Outcomes.antt =====
-- `BuildOverlay` and `Build` of pkg/devbuilder/builder.go write to the devices by calls of their
-- methods only, and what follows for what the builder returns.
use kuidapps.Devices.Calls.{run, Call}
use kuidapps.Prelude.{List, ℕ, String, ◌≡◌, Option, none, some, All}
use kuidapps.Text.{split, first_part}
use kuidapps.Outcome.{ok}
use kuidapps.Design.Spec.{NetworkDesign}
use kuidapps.Network.{Network, NetworkInterface, NetworkBridge, NetworkRouter}
use kuidapps.Infra.{Infra, Api}
use kuidapps.Link.Memory.{Memory}
use kuidapps.Device.Valid.{IsValidSpec}
use kuidapps.Devices.Store.{new_devices, get_network_device_configs}
use kuidapps.Devices.Form.{DistinctNames, run-get_network_device_configs}
use kuidapps.Builder.State.{DeviceBuilder, new_builder}
use kuidapps.Builder.Overlay.{
  add_vxlan, add_services, bridge_static_interface, build_bridge, router_attachment,
  router_static_interface, build_router, build_overlay, build,
}
use kuidapps.Builder.Leads.{IsLeading, Leads-ok, leading_steps}
use kuidapps.Builder.Result.{build_underlay-IsLeading}

add_vxlan-IsLeading : (n i k : String) (id : ℕ) → IsLeading (add_vxlan n i k id)
unfolding add_vxlan
add_vxlan-IsLeading n i k id = search leading_steps depth 8

add_services-IsLeading : (n i : String) (id : ℕ) → IsLeading (add_services n i id)
unfolding add_services
add_services-IsLeading n i id = search leading_steps depth 8

module _ (infra : Infra) (api : Api) where
  ruleset overlay_steps = (leading_steps, add_vxlan-IsLeading, add_services-IsLeading)

  bridge_static_interface-IsLeading :
      (b : String) (id : ℕ) (x : NetworkInterface)
      → IsLeading (bridge_static_interface infra api b id x)
  unfolding bridge_static_interface
  bridge_static_interface-IsLeading b id x = search overlay_steps depth 16

  build_bridge-IsLeading : (b : NetworkBridge) → IsLeading (build_bridge infra api b)
  unfolding build_bridge
  build_bridge-IsLeading b = search (leading_steps, bridge_static_interface-IsLeading)

  router_attachment-IsLeading :
      (n i : String) (id : ℕ) (x : NetworkInterface) (b e : Option String)
      → IsLeading (router_attachment infra api n i id x b e)
  unfolding router_attachment
  router_attachment-IsLeading n i id x none e = search leading_steps depth 10
  router_attachment-IsLeading n i id x (some b) e = search leading_steps depth 10

  router_static_interface-IsLeading :
      (i : String) (id : ℕ) (x : NetworkInterface)
      → IsLeading (router_static_interface infra api i id x)
  unfolding router_static_interface
  router_static_interface-IsLeading i id x =
      search (overlay_steps, router_attachment-IsLeading) depth 16

  build_router-IsLeading : (b : NetworkRouter) → IsLeading (build_router infra api b)
  unfolding build_router
  build_router-IsLeading b = search (leading_steps, router_static_interface-IsLeading)

  build_overlay-IsLeading : IsLeading (build_overlay infra api)
  unfolding build_overlay
  build_overlay-IsLeading =
      search (leading_steps, build_bridge-IsLeading, build_router-IsLeading) depth 8

  build-IsLeading : IsLeading (build infra api)
  unfolding build
  build-IsLeading =
      search (leading_steps, build_underlay-IsLeading, build_overlay-IsLeading) depth 8

  -- The build of a network only calls methods on a new collection of devices.
  pub build-calls :
      (network : Network) (design : NetworkDesign) (m : Memory) (s : DeviceBuilder)
      → build infra api (new_builder network design m) ≡ ok s
      → (calls : List (String × Call)) × (s.devices
          ≡ run calls (new_devices network.namespace network.name))
  unfolding new_builder
  build-calls network design m s h =
      (Leads-ok (λ x. x) (new_builder network design m)
        (build infra api (new_builder network design m)) s
        (build-IsLeading.leads (new_builder network design m)) h).0

  -- If the build of a network returns, whatever the API server holds, then in each configuration
  -- that the builder hands out the interfaces, the tunnel interfaces and their subinterfaces, the
  -- network instances, the routing policies and the BFD interfaces, the instances, areas and
  -- interfaces of OSPF, the instances and interfaces of ISIS, and the peer groups, the neighbours
  -- and the interfaces of the dynamic neighbours of BGP are each sorted and hold no identity twice;
  -- no network instance refers to a subinterface twice; no BGP neighbour, group, dynamic neighbour
  -- or BFD interface has an empty name; and the namespace is that of the network and the topology
  -- the first part of its name. No two configurations have the same name.
  pub build-get_network_device_configs :
      (network : Network) (design : NetworkDesign) (m : Memory) (s : DeviceBuilder)
      → build infra api (new_builder network design m) ≡ ok s
      → All
          (λ nd.
            IsValidSpec nd.spec
            × (nd.namespace ≡ network.namespace)
            × (nd.spec.topology ≡ first_part (split b'.' network.name)))
          (get_network_device_configs s.devices)
        × DistinctNames (get_network_device_configs s.devices)
  build-get_network_device_configs network design m s h =
      let (calls, e) = build-calls network design m s h in
      rw e (run-get_network_device_configs network.namespace network.name calls)
