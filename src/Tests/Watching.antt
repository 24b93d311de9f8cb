-- ===== src/Tests/Watching.antt =====
-- Events of the objects of a small fabric, and the requests that they add.
use kuidapps.Watching.Endpoints.{Concerns}
use kuidapps.Devices.Store.{get_network_device_configs}
use kuidapps.Network.{Network}
use kuidapps.Builder.Overlay.{build}
use kuidapps.Conditions.{condition_false}
use kuidapps.Builder.State.{DeviceBuilder}
use kuidapps.Watching.{
  endpoint_object, deleted, updated, add_node, add_device, network_key, add_endpoint, on_event,
  node_object, device_object, link_key, WatchedEndpoint, ListedLink,
}
use kuidapps.Reconcile.Params.{nodes_of_topology, get_nodes}
use kuidapps.Reconcile.{StoredNode}
use kuidapps.Outcome.{ok, Outcome}
use kuidapps.Conditions.Stored.{StoredNetwork}
use mathlib.Core.List.{Memᴰ}
use mathlib.Core.List.Memᴰ.{head}
use text.Mathlib.Text.{◌==◌ as str_eq}
use kuidapps.Tests.Reconcile.{Conditions, kuid, stored, cluster}
use kuidapps.Tests.Builder.{infra, api, network, design, memory, start, returned, builds, node_id}
use kuidapps.Prelude.{
  ◌⊎◌, ◌↔◌, refl, [], ◌∷◌, true, ◌≡◌, none, false, some, List, Bool, Option, All, String,
}
use kuidapps.Watching.Requeues
use kuidapps.Watching.Endpoints

abbrev list_networks : String → Outcome (List Network)
list_networks namespace = ok (network ∷ [])

abbrev end_of : Outcome DeviceBuilder
end_of = build infra (api true) start

build-requeues_example :
    All
      (λ nd.
        let d = device_object nd.namespace nd.name in
        Memᴰ (network_key network) (on_event (add_device list_networks) (deleted d))
        × Memᴰ
            (network_key network)
            (on_event (add_device list_networks) (updated (device_object "ns" "other") d)))
      (get_network_device_configs (returned end_of).devices)
build-requeues_example =
    Requeues.build-requeues infra (api true) list_networks network design memory (returned end_of)
      (network ∷ []) (device_object "ns" "other") builds refl (head refl)

abbrev here : StoredNetwork Conditions
here = stored condition_false

abbrev spine : StoredNode
spine = record { object = record { name = "spine"; namespace = "ns" }; node_group = "topo" }

spines : get_nodes infra kuid (cluster condition_false) here ≡ ok (spine ∷ [])
unfolding get_nodes nodes_of_topology
spines = refl

get_nodes-requeues_example :
    All
      (λ n.
        let w = node_object "ns" n.node_group in
        Memᴰ (network_key network) (on_event (add_node list_networks) (deleted w))
        × Memᴰ
            (network_key network)
            (on_event (add_node list_networks) (updated (node_object "ns" "dc2") w)))
      (spine ∷ [])
get_nodes-requeues_example =
    Requeues.get_nodes-requeues infra kuid (cluster condition_false) list_networks here (spine ∷ [])
      (network ∷ []) (node_object "ns" "dc2") spines refl (head refl)

abbrev endpoint : String → Option String → WatchedEndpoint
endpoint name owner = record {
  namespace = "ns";
  id = record { node_group = "topo"; node_id = node_id "spine"; endpoint = name };
  owner = owner;
}

abbrev link : String → ListedLink
link name = record {
  namespace = "ns";
  name = name;
  endpoint_a = some (record { node_group = "topo"; node_id = node_id "spine"; endpoint = name });
  endpoint_b = none;
}

abbrev owns : WatchedEndpoint → ListedLink → Bool
owns e l = elim e.owner [ some n ↦ str_eq n l.name | none ↦ false ]

abbrev list_links : String → Outcome (List ListedLink)
list_links namespace = ok (link "e1" ∷ link "e2" ∷ [])

-- The endpoint `e1`, which the link `e2` releases.
add_endpoint-Concerns_example :
    Memᴰ (link_key (link "e2")) (
      on_event (add_endpoint owns list_links) (
        updated
          (endpoint_object (endpoint "e1" (some "e2")))
          (endpoint_object (endpoint "e1" none))))
    ↔ ((l : ListedLink) × Memᴰ l (link "e1" ∷ link "e2" ∷ [])
        × (link_key (link "e2") ≡ link_key l)
        × (Concerns owns (endpoint "e1" (some "e2")) l ⊎ Concerns owns (endpoint "e1" none) l))
add_endpoint-Concerns_example =
    Endpoints.add_endpoint-Concerns owns list_links (endpoint "e1" (some "e2")) (endpoint "e1" none)
      (link "e1" ∷ link "e2" ∷ []) (link_key (link "e2")) refl refl
