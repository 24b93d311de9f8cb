-- ===== src/Tests/Clab.antt =====
-- A containerlab topology of two nodes and a link, and a node that is excluded.
use kuidapps.Clab.Ready.{OnReady}
use kuidapps.Clab.Ready
use kuidapps.Clab.Topology.{
  ready, update_status, objects_of, apply_text, reconcile_topology, with_topology, TopologyServer,
  reconcile, Request, update_and_return, attempt, apply,
}
use kuidapps.Reconcile.{found}
use kuidapps.Clab.Ends.{ends, ids}
use kuidapps.Clab.Nodes.{IsOnNode}
use kuidapps.Text.{split, ◌⧺◌}
use kuidapps.Outcome.{ok, ◌>>=◌, Outcome}
use kuidapps.Prelude.{false, none, map, some, refl, ◌≡◌, ◌∷◌, [], Option, List, All}
use kuidapps.Clab.Ready
use kuidapps.Clab.Topology.{reconcile, Request, update_and_return, attempt, apply}
use kuidapps.Reconcile.{found}
use kuidapps.Clab.Ends
use kuidapps.Clab.Nodes
use kuidapps.LabelMap.{find, Labels}
use kuidapps.Clab.{is_excluded, NodeDefinition, SiteId, ClabConfig, ClabInfra}
use kuidapps.Clab.Objects.{
  end_of_parts, add_node, endpoint_spec, ends_of, get_link_ends, nodes_of, links_of, get_nodes,
  get_links, get_endpoints,
}

abbrev infra : ClabInfra
infra = record {
  node_kind_type = λ cfg n. ("nokia_srlinux", "ixrd3");
  exclude_key = "exclude";
  node_type_key = "type";
  site_key = "site";
  region_key = "region";
  position_key = "position";
  location_key = "location";
  node_string = λ group id. group ⧺ "." ⧺ id.node;
  endpoint_string = λ id. id.node_group ⧺ "." ⧺ id.node_id.node ⧺ "." ⧺ id.endpoint;
}

abbrev site_id : SiteId
site_id = record { region = "region1"; site = "site1" }

abbrev node : Labels → Option NodeDefinition
node labels = some (record { labels = labels })

abbrev cfg : ClabConfig
cfg = record {
  name = "topo";
  nodes =
      ("spine", node [])
      ∷ ("leaf", node (("site", "site2") ∷ []))
      ∷ ("server", node (("exclude", "true") ∷ []))
      ∷ [];
  links =
      some (record { endpoints = "spine:e1" ∷ "leaf:e1" ∷ []; labels = [] })
      ∷ some (record { endpoints = "leaf:e2" ∷ "server:e1" ∷ []; labels = [] })
      ∷ [];
}

abbrev returned {ℓ} : {A : Type ℓ} → Outcome (List A) → List A
returned (ok xs) = xs
returned _ = []

get_endpoints-get_links_example :
    (get_endpoints infra site_id cfg >>= λ es. ok (ids es))
    ≡ (get_links infra site_id cfg >>= λ ls. ok (ends ls))
get_endpoints-get_links_example = Ends.get_endpoints-get_links infra site_id cfg

nodes : get_nodes infra site_id cfg ≡ ok (returned (get_nodes infra site_id cfg))
unfolding get_nodes nodes_of is_excluded add_node find
nodes = refl

links : get_links infra site_id cfg ≡ ok (returned (get_links infra site_id cfg))
unfolding get_links links_of get_link_ends ends_of split find endpoint_spec is_excluded end_of_parts
links = refl

-- Both links are made.
link_names :
    map (λ l. l.name) (returned (get_links infra site_id cfg))
    ≡ "topo.spine.e1.topo.leaf.e1" ∷ "topo.leaf.e2.topo.server.e1" ∷ []
unfolding get_links links_of get_link_ends ends_of split find endpoint_spec is_excluded end_of_parts
link_names = refl

get_links-IsOnNode_example :
    All
      (λ l.
        IsOnNode infra site_id cfg (returned (get_nodes infra site_id cfg)) l.end_a
        × IsOnNode infra site_id cfg (returned (get_nodes infra site_id cfg)) l.end_b)
      (returned (get_links infra site_id cfg))
get_links-IsOnNode_example =
    Nodes.get_links-IsOnNode infra site_id cfg (returned (get_nodes infra site_id cfg))
      (returned (get_links infra site_id cfg)) nodes links

-- A link with a wrong name of an end is the end of all links.
broken :
    get_links infra site_id (record cfg {
      links = some (record { endpoints = "spine" ∷ "leaf:e1" ∷ []; labels = [] }) ∷ cfg.links;
    })
    ≡ ok []
unfolding get_links links_of get_link_ends ends_of split find is_excluded end_of_parts
broken = refl

abbrev server : TopologyServer
server = record {
  get_topology = λ namespace n. found (record {
    name = "topo";
    namespace = "ns";
    deleted = false;
    site_id = site_id;
    container_lab = some "text";
  });
  load_config = λ text. ok cfg;
  refuses = λ q. none;
}

reconcile-AreApplied_example :
    All (OnReady infra server "ns" "topo") (reconcile infra server "ns" "topo").requests
reconcile-AreApplied_example = Ready.reconcile-AreApplied infra server "ns" "topo"

abbrev last_request : List Request → Option Request
last_request [] = none
last_request (q ∷ []) = some q
last_request (q ∷ r ∷ qs) = last_request (r ∷ qs)

reports_ready :
    last_request (reconcile infra server "ns" "topo").requests ≡ some (update_status ready)
unfolding reconcile with_topology reconcile_topology apply_text apply attempt update_and_return
    objects_of get_nodes get_links nodes_of links_of get_link_ends ends_of split find is_excluded
    end_of_parts add_node
reports_ready = refl
