-- ===== src/Watching/Requeues.antt =====
-- That changes of what a reconciler made or reads come back to it as requests
-- (pkg/reconcilers/eventhandler).
use kuidapps.Link.Reading.{ok-injective}
use kuidapps.Devices.Form.{run-devices}
use kuidapps.Builder.Outcomes.{build-calls}
use kuidapps.Builder.Overlay.{build}
use kuidapps.Builder.State.{new_builder, DeviceBuilder}
use kuidapps.Text.{◌⧺◌}
use kuidapps.Link.Memory.{Memory}
use kuidapps.Schema.{NetworkDevice}
use kuidapps.Design.Spec.{NetworkDesign}
use kuidapps.Devices.Valid.{IsDeviceOf}
use kuidapps.Conditions.Stored.{StoredNetwork}
use kuidapps.Devices.Store.{get_network_device_configs}
use kuidapps.Reconcile.{Cluster, StoredNode}
use kuidapps.Network.{Network}
use kuidapps.Device.Root.{Device}
use kuidapps.Conditions.{Kuid}
use kuidapps.Reconcile.Params.{get_nodes, nodes_of_topology}
use kuidapps.Outcome.{err, ◌>>=◌, ok, Outcome}
use kuidapps.Infra.{Api, Infra}
use text.Mathlib.Text.{starts_with}
use text.Mathlib.TextEquality.{starts_with_iff}
use mathlib.Core.Path.{subst}
use mathlib.Core.List.{Memᴰ}
use mathlib.Core.List.Memᴰ.{head, tail, append_right}
use kuidapps.Prelude.{
  All-mono, ◌∙◌, inr, inl, ap, [], sym, Bool-cases, ◌∷◌, map, true, ◌≡◌, All, Bool, List, String,
}
use kuidapps.Watching.{
  updated, device_object, deleted, node_object, network_key, Watched, str_eq, queued_of, on_event,
  add_node, add_device, Key, queued,
}

module _ {I : Type 0} (key : I → Key) (test : I → Bool) where
  -- A listed object that passes the test is queued.
  pub Memᴰ-queued :
      (i : I) (is : List I) → Memᴰ i is → test i ≡ true → Memᴰ (key i) (queued key test is)
  unfolding queued
  Memᴰ-queued i [] m h = elim m [ ]
  Memᴰ-queued i (x ∷ xs) (head e) h = rw (sym (ap test e) ∙ h) (head (ap key e))
  Memᴰ-queued i (x ∷ xs) (tail m) h = elim (Bool-cases (test x)) [
    | inl passed ↦ rw passed (tail (Memᴰ-queued i xs m h))
    | inr failed ↦ rw failed (Memᴰ-queued i xs m h)
  ]

-- What the name of a network device begins with.
configs_named :
    (namespace name : String) (l : List (String × Device))
    → All (λ e. IsDeviceOf namespace name e.0 e.1) l
    → All
        (λ nd. (nd.namespace ≡ namespace) × (starts_with nd.name name ≡ true))
        (map (λ e. e.1.nd) l)
configs_named namespace name [] h = tt
configs_named namespace name (e ∷ l) (v, h) = (
  (v.namespaced, (starts_with_iff e.1.nd.name name).1 ("." ⧺ e.0, sym v.named)),
  configs_named namespace name l h,
)

module _ (list : String → Outcome (List Network)) where
  device_requeues :
      (network : Network) (networks : List Network) (nd : NetworkDevice)
      → list network.namespace ≡ ok networks
      → Memᴰ network networks
      → nd.namespace ≡ network.namespace
      → starts_with nd.name network.name ≡ true
      → Memᴰ (network_key network) (add_device list (device_object nd.namespace nd.name))
  unfolding add_device queued_of
  device_requeues network networks nd listed mem space named =
      rw (space, listed) (Memᴰ-queued network_key _ network networks mem named)

  node_requeues :
      (network : Network) (networks : List Network) (node_group : String)
      → list network.namespace ≡ ok networks
      → Memᴰ network networks
      → str_eq network.spec.topology node_group ≡ true
      → Memᴰ (network_key network) (add_node list (node_object network.namespace node_group))
  unfolding add_node queued_of
  node_requeues network networks node_group listed mem same =
      rw listed (Memᴰ-queued network_key _ network networks mem same)

module _ (infra : Infra) (api : Api) (list : String → Outcome (List Network)) where
  -- A network that the client lists in its namespace: if the build of the network returns, then the
  -- deletion of any network device of that build, and any update that ends with it, adds a request
  -- for the network.
  pub build-requeues :
      (network : Network) (design : NetworkDesign) (m : Memory) (s : DeviceBuilder)
      (networks : List Network) (o : Watched)
      → build infra api (new_builder network design m) ≡ ok s
      → list network.namespace ≡ ok networks
      → Memᴰ network networks
      → All
          (λ nd.
            let d = device_object nd.namespace nd.name in
            Memᴰ (network_key network) (on_event (add_device list) (deleted d))
            × Memᴰ (network_key network) (on_event (add_device list) (updated o d)))
          (get_network_device_configs s.devices)
  unfolding get_network_device_configs on_event
  build-requeues network design m s networks o built listed mem =
      let (calls, e) = build-calls infra api network design m s built in
      All-mono
        {P = λ nd. (nd.namespace ≡ network.namespace) × (starts_with nd.name network.name ≡ true)} _
        (λ nd p.
          let m = device_requeues list network networks nd listed mem p.0 p.1 in
          (m, append_right _ m))
        (rw e (
          configs_named network.namespace network.name _
            (run-devices network.namespace network.name calls)))

nodes_of_topology_lem :
    (topology : String) (ns : List StoredNode)
    → All (λ n. str_eq topology n.node_group ≡ true) (nodes_of_topology topology ns)
unfolding nodes_of_topology
nodes_of_topology_lem topology [] = tt
nodes_of_topology_lem topology (n ∷ ns) = elim (Bool-cases (str_eq topology n.node_group)) [
  | inl same ↦ rw same (same, nodes_of_topology_lem topology ns)
  | inr other ↦ rw other (nodes_of_topology_lem topology ns)
]

module _ (infra : Infra) {S : Type 0} (k : Kuid S) (cl : Cluster S)
    (list : String → Outcome (List Network)) where
  abbrev Requeues : StoredNetwork S → Watched → StoredNode → Type 0
  Requeues cr o n =
      let w = node_object cr.network.namespace n.node_group in
      Memᴰ (network_key cr.network) (on_event (add_node list) (deleted w))
      × Memᴰ (network_key cr.network) (on_event (add_node list) (updated o w))

  nodes_requeue :
      (cr : StoredNetwork S) (networks : List Network) (o : Watched)
      → list cr.network.namespace ≡ ok networks
      → Memᴰ cr.network networks
      → (r : Outcome (List StoredNode)) (ns : List StoredNode)
      → (r >>= λ l. ok (nodes_of_topology cr.network.spec.topology l)) ≡ ok ns
      → All (Requeues cr o) ns
  unfolding on_event
  nodes_requeue cr networks o listed mem (ok l) ns read =
      subst (All (Requeues cr o)) (ok-injective _ _ read) (
        All-mono {P = λ n. str_eq cr.network.spec.topology n.node_group ≡ true} _
          (λ n same.
            let m = node_requeues list cr.network networks n.node_group listed mem same in
            (m, append_right _ m))
          (nodes_of_topology_lem cr.network.spec.topology l))
  nodes_requeue cr networks o listed mem (err e) ns read = cc
  nodes_requeue cr networks o listed mem Outcome.panic ns read = cc

  -- A network that the client lists in its namespace: the deletion of any node that the reconciler
  -- of the parameters reads for it, and any update that ends with such a node, adds a request for
  -- the network.
  pub get_nodes-requeues :
      (cr : StoredNetwork S) (ns : List StoredNode) (networks : List Network) (o : Watched)
      → get_nodes infra k cl cr ≡ ok ns
      → list cr.network.namespace ≡ ok networks
      → Memᴰ cr.network networks
      → All
          (λ n.
            let w = node_object cr.network.namespace n.node_group in
            Memᴰ (network_key cr.network) (on_event (add_node list) (deleted w))
            × Memᴰ (network_key cr.network) (on_event (add_node list) (updated o w)))
          ns
  unfolding get_nodes on_event
  get_nodes-requeues cr ns networks o read listed mem =
      nodes_requeue cr networks o listed mem (cl.list_nodes cr.network.namespace) ns read
