-- ===== src/Infra.antt =====
-- What the program takes from kuid's API packages and from iputil, which are not part of the
-- repository. The records hold the fields that the program reads; `Infra` holds constants,
-- methods and functions of those packages, as a parameter of the definitions that use them.
use kuidapps.Prelude.{ℕ, String, Bool, Option, List}

pub record NodeId : Type 0 where
  pub region : String
  pub site : String
  pub node : String

-- kuid's `NodeGroupEndpointID`.
pub record EndpointId : Type 0 where
  pub node_group : String
  pub node_id : NodeId
  pub endpoint : String

pub record LinkBfd : Type 0 where
  pub enabled : Option Bool
  pub min_echo_rx : Option ℕ
  pub min_rx : Option ℕ
  pub min_tx : Option ℕ
  pub multiplier : Option ℕ
  pub ttl : Option ℕ

pub record LinkOspf : Type 0 where
  pub area : Option String
  pub passive : Option Bool
  pub network_type : Option String
  pub bfd : Option Bool

pub record LinkProtocol : Type 0 where
  pub bfd : Option Bool

-- kuid's `Link`: the parts of its specification that the program reads.
pub record InfraLink : Type 0 where
  pub labels : List (String × String)
  pub endpoints : List EndpointId
  pub bfd : Option LinkBfd
  pub ospf : Option LinkOspf
  pub isis : Option LinkProtocol
  pub bgp : Option LinkProtocol

-- What `iputil.New` returns for a text that it can parse.
pub record PrefixInfo : Type 0 where
  pub address : String
  pub is_ipv4 : Bool

-- kuid's `Node`: the parts that the program reads.
pub record InfraNode : Type 0 where
  pub provider : String
  pub labels : List (String × String)
  pub system_id : Option String

-- kuid's `Endpoint`: the parts that the program reads.
pub record InfraEndpoint : Type 0 where
  pub provider : String
  pub endpoint : String

-- kuid's `IPClaim` and `ASClaim`: is the ready condition false, and what is claimed.
pub record IpClaim : Type 0 where
  pub not_ready : Bool
  pub address : Option String

pub record AsClaim : Type 0 where
  pub not_ready : Bool
  pub id : Option ℕ

-- What the API server's client finds under a namespace and a name, and in a namespace; nothing
-- beside an error.
pub record Api : Type 0 where
  pub get_ip_claim : String → String → Option IpClaim
  pub get_as_claim : String → String → Option AsClaim
  pub get_node : String → String → Option InfraNode
  pub get_endpoint : String → String → Option InfraEndpoint
  pub list_links : String → Option (List InfraLink)

pub record Infra : Type 0 where
  pub link_type_key : String
  pub network_device_type_key : String
  pub network_type_p2p : String
  pub network_type_unknown : String
  pub ospf_version_unknown : String
  pub isis_level_l1 : String
  pub isis_level_l2 : String
  pub isis_level_l1l2 : String
  pub isis_level_unknown : String
  pub isis_metric_style_narrow : String
  -- methods of `Link`
  pub get_isis_passive : InfraLink → Bool
  pub get_isis_network_type : InfraLink → String
  pub get_isis_level : InfraLink → String
  pub get_isis_metric : InfraLink → ℕ
  pub purpose_key : String
  pub prefix_type_key : String
  pub address_family_key : String
  pub claim_name_key : String
  pub prefix_type_pool : String
  pub prefix_type_network : String
  pub address_family_ipv4 : String
  pub address_family_ipv6 : String
  -- `String2NodeGroupNodeID`: the node's identity in the name of a node
  pub node_of_name : String → NodeId
  -- `KuidString` of a node's identity
  pub kuid_string : NodeId → String
  -- `KuidString` of an endpoint's identity: the endpoint's name and its node
  pub endpoint_kuid_string : String → NodeId → String
  -- `iputil.New`; nil beside the error
  pub new_prefix : String → Option PrefixInfo
