-- ===== src/Clab/Objects.antt =====
-- The nodes, links and endpoints that `GetNodes`, `GetLinks` and `GetEndpoints` make of a topology
-- (pkg/clab/clabkuid.go).
use kuidapps.Infra.{NodeId, EndpointId}
use kuidapps.Text.{◌⧺◌, split}
use kuidapps.Outcome.{deref, ◌>>=◌, ok, Outcome}
use kuidapps.Prelude.{[], ◌∷◌, ◌++◌, none, get_or, if◌then◌else◌, Option, List, String}
use kuidapps.LabelMap.{set_labels, find, Labels}
use kuidapps.Clab.{
  is_excluded, has_two, get_location, some, get_site, get_position, NodeDefinition, ClabNode,
  get_region, get_rack, get_provider, LinkDefinition, ClabLink, ClabEndpoint, ClabInfra, SiteId,
  ClabConfig,
}

module _ (infra : ClabInfra) (site_id : SiteId) (cfg : ClabConfig) where
  -- `getNodeGroupNodeID`; the node group is the name of the topology.
  unfoldable pub get_node_id : String → Labels → NodeId
  unfolding get_region get_site
  get_node_id node_name labels = record {
    region = get_region infra site_id labels;
    site = get_site infra site_id labels;
    node = node_name;
  }

  unfoldable pub build_node : String → Labels → ClabNode
  unfolding get_node_id get_rack get_position get_location get_provider set_labels
  build_node node_name labels =
      let (kind, type) = infra.node_kind_type cfg node_name in
      let id = get_node_id node_name labels in
      record {
        name = infra.node_string cfg.name id;
        node_group = cfg.name;
        node_id = id;
        rack = get_rack infra site_id labels;
        position = get_position infra site_id labels;
        location = get_location infra site_id labels;
        provider = get_provider kind;
        labels = set_labels labels ((infra.node_type_key, type) ∷ []);
      }

  unfoldable pub add_node : String → Labels → List ClabNode → List ClabNode
  unfolding build_node
  add_node node_name labels nodes =
      if is_excluded infra site_id labels then nodes else build_node node_name labels ∷ nodes

  unfoldable pub nodes_of : List (String × Option NodeDefinition) → Outcome (List ClabNode)
  unfolding add_node
  nodes_of [] = ok []
  nodes_of ((node_name, n) ∷ rest) =
      deref n >>= λ d. nodes_of rest >>= λ nodes. ok (add_node node_name d.labels nodes)

  unfoldable pub get_nodes : Outcome (List ClabNode)
  unfolding nodes_of
  get_nodes = nodes_of cfg.nodes

  unfoldable pub endpoint_spec : String → String → Labels → ClabEndpoint
  unfolding get_node_id get_provider
  endpoint_spec node_name ep_name labels =
      let id : EndpointId = record {
        node_group = cfg.name;
        node_id = get_node_id node_name labels;
        endpoint = ep_name;
      } in
      record {
        name = infra.endpoint_string id;
        provider = get_provider (infra.node_kind_type cfg node_name).0;
        id = id;
      }

  -- `nil` is returned for a node that the topology has not.
  abbrev pub end_at :
      String → String → Option (Option NodeDefinition) → Outcome (Option ClabEndpoint)
  end_at node_name ep_name none = ok none
  end_at node_name ep_name (some n) =
      deref n >>= λ d. ok (some (endpoint_spec node_name ep_name d.labels))

  unfoldable pub end_of_parts : List String → Outcome (Option ClabEndpoint)
  unfolding find
  end_of_parts (node_name ∷ ep_name ∷ []) = end_at node_name ep_name (find node_name cfg.nodes)
  end_of_parts _ = ok none

  abbrev pub add_end : ClabEndpoint → Option (List ClabEndpoint) → Option (List ClabEndpoint)
  add_end e none = none
  add_end e (some es) = some (e ∷ es)

  abbrev pub ends_next :
      Option ClabEndpoint
      → Outcome (Option (List ClabEndpoint))
      → Outcome (Option (List ClabEndpoint))
  ends_next none rest = ok none
  ends_next (some e) rest = rest >>= λ es. ok (add_end e es)

  -- The loop of `getEndpoints`, which ends at the first that fails.
  unfoldable pub ends_of : List String → Outcome (Option (List ClabEndpoint))
  unfolding split end_of_parts
  ends_of [] = ok (some [])
  ends_of (name ∷ names) =
      let rest = ends_of names in end_of_parts (split b':' name) >>= λ e. ends_next e rest

  unfoldable pub get_link_ends : LinkDefinition → Outcome (Option (List ClabEndpoint))
  unfolding ends_of
  get_link_ends l = if has_two l.endpoints then ends_of l.endpoints else ok none

  abbrev pub link_of : LinkDefinition → List ClabEndpoint → Option ClabLink
  link_of l (a ∷ b ∷ []) = some (record {
    name = infra.endpoint_string a.id ⧺ "." ⧺ infra.endpoint_string b.id;
    end_a = a.id;
    end_b = b.id;
    labels = l.labels;
  })
  link_of l _ = none

  abbrev pub add_link : ClabLink → Option (List ClabLink) → Option (List ClabLink)
  add_link l none = none
  add_link l (some ls) = some (l ∷ ls)

  -- A link without two ends makes the loop of `GetLinks` return `nil`, the `none` here.
  abbrev pub links_next :
      Option ClabLink → Outcome (Option (List ClabLink)) → Outcome (Option (List ClabLink))
  links_next none rest = ok none
  links_next (some l) rest = rest >>= λ ls. ok (add_link l ls)

  abbrev pub link_of_ends : LinkDefinition → Option (List ClabEndpoint) → Option ClabLink
  link_of_ends l none = none
  link_of_ends l (some es) = link_of l es

  unfoldable pub links_of : List (Option LinkDefinition) → Outcome (Option (List ClabLink))
  unfolding get_link_ends
  links_of [] = ok (some [])
  links_of (l ∷ ls) =
      let rest = links_of ls in
      deref l >>= λ d.
      if is_excluded infra site_id d.labels
      then rest
      else get_link_ends d >>= λ es. links_next (link_of_ends d es) rest

  unfoldable pub get_links : Outcome (List ClabLink)
  unfolding links_of
  get_links = links_of cfg.links >>= λ ls. ok (get_or ls [])

  abbrev pub add_ends : List ClabEndpoint → Option (List ClabEndpoint) → Option (List ClabEndpoint)
  add_ends es none = none
  add_ends es (some fs) = some (es ++ fs)

  abbrev pub endpoints_next :
      Option (List ClabEndpoint)
      → Outcome (Option (List ClabEndpoint))
      → Outcome (Option (List ClabEndpoint))
  endpoints_next none rest = ok none
  endpoints_next (some es) rest =
      if has_two es then (rest >>= λ fs. ok (add_ends es fs)) else ok none

  unfoldable pub endpoints_of : List (Option LinkDefinition) → Outcome (Option (List ClabEndpoint))
  unfolding get_link_ends
  endpoints_of [] = ok (some [])
  endpoints_of (l ∷ ls) =
      let rest = endpoints_of ls in
      deref l >>= λ d.
      if is_excluded infra site_id d.labels
      then rest
      else get_link_ends d >>= λ es. endpoints_next es rest

  unfoldable pub get_endpoints : Outcome (List ClabEndpoint)
  unfolding endpoints_of
  get_endpoints = endpoints_of cfg.links >>= λ es. ok (get_or es [])
