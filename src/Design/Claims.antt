-- ===== src/Design/Claims.antt =====
-- The claims that a design makes for the nodes and links of a network
-- (apis/network/v1alpha1/networkdesign_interfaces.go). An owner is the object that the owner
-- reference is made from.
use kuidapps.Prelude.{
  ℕ, String, Bool, true, Option, none, some, List, [], ◌∷◌, ◌++◌, map, if◌then◌else◌,
}
use kuidapps.Text.{◌⧺◌}
use kuidapps.Design.Spec.{NetworkDesign}
use kuidapps.Design.Getters.{
  ◌>?◌, is_loopback_ipv4_enabled, is_loopback_ipv6_enabled, is_underlay_ipv4_numbered,
  is_underlay_ipv6_numbered,
}
use kuidapps.Infra.{Infra, InfraLink, EndpointId}

-- `GetName` and `GetNamespace` of a client object.
pub record Object : Type 0 where
  pub name : String
  pub namespace : String

-- kuid's `IPClaim` and `ASClaim`, as far as they are filled in.
pub record IpClaimRequest : Type 0 where
  pub namespace : String
  pub name : String
  pub index : String
  pub prefix_type : String
  pub address_family : Option String
  pub create_prefix : Option Bool
  pub prefix_length : Option ℕ
  pub owner : Object
  pub selector : List (String × String)

pub record AsClaimRequest : Type 0 where
  pub namespace : String
  pub name : String
  pub index : String
  pub owner : Object
  pub selector : List (String × String)

-- The name of a link below the network's.
unfoldable pub link_parts : List EndpointId → String
link_parts [] = ""
link_parts (e ∷ es) = "." ⧺ e.node_id.node ⧺ "." ⧺ e.endpoint ⧺ link_parts es

unfoldable pub get_reduced_link_name : Object → InfraLink → String
unfolding link_parts
get_reduced_link_name cr link = elim link.endpoints [
  | [] ↦ ""
  | e ∷ es ↦ cr.name ⧺ link_parts (e ∷ es)
]

abbrev pub endpoint_claim_name : Object → EndpointId → String → String
endpoint_claim_name cr e family = cr.name ⧺ "." ⧺ e.node_id.node ⧺ "." ⧺ e.endpoint ⧺ "." ⧺ family

module _ (infra : Infra) where
  -- The claim of an address of a loopback, or of a router's identity.
  unfoldable pub node_claim : String → String → String → Object → Object → IpClaimRequest
  node_claim namespace name family owner cr = record {
    namespace = namespace;
    name = name;
    index = cr.name;
    prefix_type = infra.prefix_type_pool;
    address_family = none;
    create_prefix = none;
    prefix_length = none;
    owner = owner;
    selector = (infra.purpose_key, "loopback") ∷ (infra.address_family_key, family) ∷ [];
  }

  -- The IPv6 claim is made in the namespace of the node and owned by it, the others in that of
  -- the network.
  unfoldable pub get_node_ip_claims : NetworkDesign → Object → Object → List IpClaimRequest
  unfolding node_claim
  get_node_ip_claims r cr o =
      let node = (infra.node_of_name o.name).node in
      let v6 : List IpClaimRequest =
        if is_loopback_ipv6_enabled r
        then node_claim o.namespace (cr.name ⧺ "." ⧺ node ⧺ ".ipv6") "ipv6" o cr ∷ []
        else [] in
      (if is_loopback_ipv4_enabled r
        then node_claim cr.namespace (cr.name ⧺ "." ⧺ node ⧺ ".ipv4") "ipv4" cr cr
        else node_claim cr.namespace (cr.name ⧺ "." ⧺ node ⧺ ".routerid") "ipv4" cr cr)
      ∷ v6

  unfoldable pub get_node_as_claim : NetworkDesign → Object → Object → Option AsClaimRequest
  get_node_as_claim r cr o = elim (r.spec.protocols >? (λ p. p.ebgp) >? λ e. e.as_pool) [
    | none ↦ none
    | some as_pool ↦ some (record {
      namespace = r.namespace;
      name = cr.name ⧺ "." ⧺ (infra.node_of_name o.name).node;
      index = cr.name;
      owner = record { name = r.name; namespace = r.namespace };
      selector = (infra.claim_name_key, cr.name ⧺ ".aspool") ∷ [];
    })
  ]

  -- The claim of an endpoint's address, out of the link's prefix.
  unfoldable pub endpoint_claim : Object → String → String → EndpointId → IpClaimRequest
  endpoint_claim cr link_name family e = record {
    namespace = cr.namespace;
    name = endpoint_claim_name cr e family;
    index = cr.name;
    prefix_type = infra.prefix_type_network;
    address_family = none;
    create_prefix = none;
    prefix_length = none;
    owner = cr;
    selector = (infra.claim_name_key, link_name) ∷ (infra.address_family_key, family) ∷ [];
  }

  -- The claims of one family: the link's prefix, and an address for each endpoint.
  unfoldable pub link_family_claims : Object → InfraLink → String → String → ℕ → List IpClaimRequest
  unfolding get_reduced_link_name endpoint_claim
  link_family_claims cr link family address_family prefix_length =
      let link_name = get_reduced_link_name cr link ⧺ "." ⧺ family in
      record {
        namespace = cr.namespace;
        name = link_name;
        index = cr.name;
        prefix_type = infra.prefix_type_network;
        address_family = some address_family;
        create_prefix = some true;
        prefix_length = some prefix_length;
        owner = cr;
        selector = (infra.purpose_key, "underlay") ∷ (infra.address_family_key, family) ∷ [];
      }
      ∷ map (endpoint_claim cr link_name family) link.endpoints

  unfoldable pub get_link_ip_claims : NetworkDesign → Object → InfraLink → List IpClaimRequest
  unfolding link_family_claims
  get_link_ip_claims r cr link =
      (if is_underlay_ipv4_numbered r
        then link_family_claims cr link "ipv4" infra.address_family_ipv4 31
        else [])
      ++ (if is_underlay_ipv6_numbered r
          then link_family_claims cr link "ipv6" infra.address_family_ipv6 127
          else [])
