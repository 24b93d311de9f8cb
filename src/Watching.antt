-- ===== src/Watching.antt =====
-- The event handlers (pkg/reconcilers/eventhandler): which requests an event of an object adds to
-- the queue of a reconciler. What the client lists in a namespace is a parameter.
pub mod Requeues
pub mod Endpoints
use text.Mathlib.Text.{◌==◌ as str_eq, starts_with}
use kuidapps.Prelude.{
  String, Bool, true, false, ◌&&◌, Option, none, some, List, [], ◌∷◌, ◌++◌, if◌then◌else◌,
}
use kuidapps.Outcome.{Outcome, ok}
use kuidapps.Infra.{EndpointId}
use kuidapps.Design.Spec.{NetworkDesign}
use kuidapps.Network.{Network}

-- `types.NamespacedName`
pub record Key : Type 0 where
  pub namespace : String
  pub name : String

-- kuid's `Endpoint` and `Link`: the parts that the handlers read. `owner` is what the
-- endpoint says of its owner.
pub record WatchedEndpoint : Type 0 where
  pub namespace : String
  pub id : EndpointId
  pub owner : Option String

pub record ListedLink : Type 0 where
  pub namespace : String
  pub name : String
  pub endpoint_a : Option EndpointId
  pub endpoint_b : Option EndpointId

-- An object of an event, by its type: its namespace, and what the handlers read.
pub data Watched : Type 0 where
  topology_object : String → String → Watched
  design_object : String → String → Watched
  device_object : String → String → Watched
  node_object : String → String → Watched
  link_object : String → List EndpointId → Watched
  endpoint_object : WatchedEndpoint → Watched

-- Controller-runtime's events; an update has the old object and the new one.
pub data Event : Type 0 where
  created : Watched → Event
  updated : Watched → Watched → Event
  deleted : Watched → Event
  generic : Watched → Event

-- `Create`, `Update`, `Delete` and `Generic` of each handler.
unfoldable pub on_event : (Watched → List Key) → Event → List Key
on_event add (created o) = add o
on_event add (updated o p) = add o ++ add p
on_event add (deleted o) = add o
on_event add (generic o) = add o

module _ {I : Type 0} (key : I → Key) (test : I → Bool) where
  -- The loop of each handler: the keys of the objects that pass the test.
  unfoldable pub queued : List I → List Key
  queued [] = []
  queued (i ∷ is) = let rest = queued is in if test i then key i ∷ rest else rest

  -- Nothing is added where the list cannot be read.
  unfoldable pub queued_of : Outcome (List I) → List Key
  unfolding queued
  queued_of (ok is) = queued is
  queued_of _ = []

abbrev pub network_key : Network → Key
network_key n = record { namespace = n.namespace; name = n.name }

abbrev pub design_key : NetworkDesign → Key
design_key d = record { namespace = d.namespace; name = d.name }

abbrev pub link_key : ListedLink → Key
link_key l = record { namespace = l.namespace; name = l.name }

-- `==` of endpoint identities: field by field.
abbrev pub same_id : EndpointId → EndpointId → Bool
same_id a b =
    str_eq a.node_group b.node_group
    && (str_eq a.node_id.region b.node_id.region
        && (str_eq a.node_id.site b.node_id.site
            && (str_eq a.node_id.node b.node_id.node && str_eq a.endpoint b.endpoint)))

abbrev pub is_id : Option EndpointId → EndpointId → Bool
is_id none b = false
is_id (some a) b = same_id a b

-- Does an endpoint lie in the topology? The loop stops at the first.
abbrev pub any_end_in : String → List EndpointId → Bool
any_end_in topology [] = false
any_end_in topology (e ∷ es) = if str_eq topology e.node_group then true else any_end_in topology es

module _ (list : String → Outcome (List Network)) where
  unfoldable pub add_node : Watched → List Key
  unfolding queued_of
  add_node (node_object namespace node_group) =
      queued_of network_key (λ n. str_eq n.spec.topology node_group) (list namespace)
  add_node _ = []

  unfoldable pub add_link : Watched → List Key
  unfolding queued_of
  add_link (link_object namespace es) =
      queued_of network_key (λ n. any_end_in n.spec.topology es) (list namespace)
  add_link _ = []

  unfoldable pub add_network_endpoint : Watched → List Key
  unfolding queued_of
  add_network_endpoint (endpoint_object e) =
      queued_of network_key (λ n. str_eq n.spec.topology e.id.node_group) (list e.namespace)
  add_network_endpoint _ = []

  unfoldable pub add_design : Watched → List Key
  unfolding queued_of
  add_design (design_object namespace topology) =
      queued_of network_key (λ n. str_eq n.spec.topology topology) (list namespace)
  add_design _ = []

  unfoldable pub add_device : Watched → List Key
  unfolding queued_of
  add_device (device_object namespace name) =
      queued_of network_key (λ n. starts_with name n.name) (list namespace)
  add_device _ = []

unfoldable pub add_topology : (String → Outcome (List NetworkDesign)) → Watched → List Key
unfolding queued_of
add_topology list (topology_object namespace name) =
    queued_of design_key (λ d. str_eq d.spec.topology name) (list namespace)
add_topology list _ = []

-- Kuid's `IsOwnedBy` of an endpoint, for a link, is a parameter.
module _ (is_owned_by : WatchedEndpoint → ListedLink → Bool) where
  abbrev pub is_concerned : WatchedEndpoint → ListedLink → Bool
  is_concerned e l =
      if is_id l.endpoint_a e.id
      then true
      else if is_id l.endpoint_b e.id
      then true
      else is_owned_by e l

  unfoldable pub add_endpoint : (String → Outcome (List ListedLink)) → Watched → List Key
  unfolding queued_of
  add_endpoint list (endpoint_object e) = queued_of link_key (is_concerned e) (list e.namespace)
  add_endpoint list _ = []
