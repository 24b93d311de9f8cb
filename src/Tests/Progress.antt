-- ===== src/Tests/Progress.antt =====
-- The rounds of the reconcilers of a network, at a network that the API server serves.
use kuidapps.Devices.Store.{get_network_device_configs}
use kuidapps.Reconcile.System.{param_round, device_round, network_round}
use kuidapps.Builder.State.{get}
use kuidapps.Reconcile.Progress.{IsServed, serve}
use kuidapps.Reconcile.Owned.{get_node_name, are_all_device_configs_ready}
use kuidapps.Conditions.{is_true, condition_false}
use kuidapps.Reconcile.{get_default_design, Cluster}
use kuidapps.Conditions.Stored.{are_child_conditions_ready, get_condition, StoredNetwork}
use kuidapps.Tests.Reconcile.{Conditions}
use kuidapps.Tests.Builder.{design, memory}
use kuidapps.Reconcile.Params.{
  default_network_claims, get_nodes, get_links, nodes_of_topology, node_claims, link_claims,
}
use kuidapps.Reconcile.Device.{built_devices}
use kuidapps.Reconcile.Deploy.{deployed_configs, configs, owned_devices}
use kuidapps.Builder.Gather.{infra_links}
use kuidapps.Design.Claims.{get_node_ip_claims, get_node_as_claim, get_link_ip_claims}
use kuidapps.Builder.Overlay.{build}
use kuidapps.Prelude.{◌≡◌, refl, true}
use kuidapps.Tests.Reconcile.{kuid, laws, codec, cluster, stored}
use kuidapps.Tests.Builder.{infra, api, builds, returned, start}
use kuidapps.Reconcile.Progress.Ready

abbrev s : StoredNetwork Conditions
s = stored condition_false

served : IsServed infra codec kuid (cluster condition_false) s
unfolding get_default_design default_network_claims get_nodes get_links nodes_of_topology
    infra_links node_claims link_claims get_node_ip_claims get_node_as_claim get_link_ip_claims
    built_devices deployed_configs configs owned_devices are_all_device_configs_ready get
    get_node_name
served = record {
  alive = refl;
  unmanaged = refl;
  accepts = λ q. refl;
  nd = record { design = design; memory = memory; resource_version = "1" };
  designed = refl;
  hash = "hash";
  hashed = refl;
  claims = _;
  claimed = refl;
  devices = get_network_device_configs (returned (build infra (api true) start)).devices;
  built = rw builds refl;
  nds = _;
  devices_listed = refl;
  devices_ready = refl;
  configs = _;
  deployed = refl;
  os = _;
  configs_listed = refl;
  configs_ready = refl;
}

rounds-ready_example :
    let round =
      λ (f : Cluster Conditions → StoredNetwork Conditions → StoredNetwork Conditions)
          (t : StoredNetwork Conditions).
        f (serve (cluster condition_false) t) t in
    let t = round (network_round infra codec kuid "ns" "topo.default") (
      round (device_round infra codec kuid "ns" "topo.default") (
        round
          (param_round infra codec kuid "ns" "topo.default")
          (round (network_round infra codec kuid "ns" "topo.default") s))) in
    (is_true (get_condition kuid "Ready" t).status ≡ true)
    × (are_child_conditions_ready kuid t ≡ true)
rounds-ready_example =
    Ready.rounds-ready infra codec kuid laws "ns" "topo.default" (cluster condition_false) s served
