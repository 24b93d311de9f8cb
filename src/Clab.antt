-- ===== src/Clab.antt =====
-- A containerlab topology as kuid's objects (pkg/clab/clabkuid.go). The parsed topology, the kind and
-- the type of its nodes, and kuid's label keys and names are parameters.
pub mod Objects
pub mod Found
pub mod Topology
pub mod Ready
pub mod Ends
pub mod Nodes
use kuidapps.LabelMap.{Labels, find}
use text.Mathlib.Text.{◌==◌ as str_eq}
use kuidapps.Prelude.{
  ◌++◌, String, Bool, true, false, Option, none, some, List, [], ◌∷◌, if◌then◌else◌, is_some,
  get_or,
}
use kuidapps.Outcome.{Outcome, ok, deref, ◌>>=◌}
use kuidapps.Text.{◌⧺◌, split}
use kuidapps.Infra.{NodeId, EndpointId}

-- Containerlab's configuration: the parts that are read. The map of nodes has each name once; an
-- entry that is empty in the text is a nil pointer.
pub record NodeDefinition : Type 0 where
  pub labels : Labels

pub record LinkDefinition : Type 0 where
  pub endpoints : List String
  pub labels : Labels

pub record ClabConfig : Type 0 where
  pub name : String
  pub nodes : List (String × Option NodeDefinition)
  pub links : List (Option LinkDefinition)

-- Containerlab's `GetNodeKindType`, and kuid's label keys and `KuidString`s.
pub record ClabInfra : Type 0 where
  pub node_kind_type : ClabConfig → String → String × String
  pub exclude_key : String
  pub node_type_key : String
  pub site_key : String
  pub region_key : String
  pub position_key : String
  pub location_key : String
  pub node_string : String → NodeId → String
  pub endpoint_string : EndpointId → String

pub record SiteId : Type 0 where
  pub region : String
  pub site : String

-- What is filled into kuid's `Node`, `Link` and `Endpoint`. Their namespace is `default`.
pub record ClabNode : Type 0 where
  pub name : String
  pub node_group : String
  pub node_id : NodeId
  pub rack : Option String
  pub position : Option String
  pub location : Option (String × String)
  pub provider : String
  pub labels : Labels

pub record ClabLink : Type 0 where
  pub name : String
  pub end_a : EndpointId
  pub end_b : EndpointId
  pub labels : Labels

pub record ClabEndpoint : Type 0 where
  pub name : String
  pub provider : String
  pub id : EndpointId

unfoldable pub get_provider : String → String
get_provider kind =
    if str_eq kind "nokia_srlinux"
    then "srlinux.nokia.com"
    else if str_eq kind "nokia_sros"
    then "sros.nokia.com"
    else ""

abbrev pub location_of_parts : List String → Option (String × String)
location_of_parts (longitude ∷ latitude ∷ []) = some (longitude, latitude)
location_of_parts _ = none

abbrev pub has_two {ℓ} : {A : Type ℓ} → List A → Bool
has_two (a ∷ b ∷ []) = true
has_two _ = false

module _ (infra : ClabInfra) (site_id : SiteId) where
  unfoldable pub is_excluded : Labels → Bool
  unfolding find
  is_excluded labels = is_some (find infra.exclude_key labels)

  unfoldable pub get_site : Labels → String
  unfolding find
  get_site labels = get_or (find infra.site_key labels) site_id.site

  unfoldable pub get_region : Labels → String
  unfolding find
  get_region labels = get_or (find infra.region_key labels) site_id.region

  -- The rack is read from the label of the region.
  unfoldable pub get_rack : Labels → Option String
  unfolding find
  get_rack labels = find infra.region_key labels

  unfoldable pub get_position : Labels → Option String
  unfolding find
  get_position labels = find infra.position_key labels

  unfoldable pub get_location : Labels → Option (String × String)
  unfolding find split
  get_location labels = elim (find infra.location_key labels) [
    | some location ↦ location_of_parts (split b':' location)
    | none ↦ none
  ]
