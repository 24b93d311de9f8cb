-- ===== src/Design/Pools.antt =====
-- The claims that a design makes for itself (apis/network/v1alpha1/networkdesign_interfaces.go): the
-- address and AS number pools that its claims for nodes and links select from. Kuid's
-- `GetIPClaimFromPrefix` is left out: an IP pool is what it is called with.
use kuidapps.LabelMap.{set_label}
use kuidapps.Prelude.{ℕ, String, Option, none, some, List, [], ◌∷◌, ◌++◌, map}
use kuidapps.Text.{◌⧺◌}
use kuidapps.Infra.{Infra}
use kuidapps.Design.Spec.{
  NetworkDesign, Prefix, Loopback, Underlay, DesignInterfaces, DesignProtocols, ProtocolsIbgp,
  ProtocolsEbgp,
}
use kuidapps.Design.Claims.{Object}

pub record IpPool : Type 0 where
  pub owner : Object
  pub prefix : Prefix

-- kuid's `ASIndex` by its name, and an `ASClaim` of one number or of a range.
pub record AsPool : Type 0 where
  pub namespace : String
  pub name : String
  pub index : String
  pub id : Option ℕ
  pub range : Option String
  pub owner : Object

abbrev pub design_object : NetworkDesign → Object
design_object r = record { name = r.name; namespace = r.namespace }

unfoldable pub get_as_index : NetworkDesign → Object
get_as_index r = record { namespace = r.namespace; name = r.name }

-- The number of iBGP.
abbrev pub ibgp_claims : NetworkDesign → Option ProtocolsIbgp → List AsPool
ibgp_claims r none = []
ibgp_claims r (some p) = elim p.as_number [
  | none ↦ []
  | some n ↦
      record {
        namespace = r.namespace;
        name = r.name ⧺ ".ibgp";
        index = r.name;
        id = some n;
        range = none;
        owner = design_object r;
      }
      ∷ []
]

-- The range of eBGP.
abbrev pub range_claim : NetworkDesign → String → AsPool
range_claim r range = record {
  namespace = r.namespace;
  name = r.name ⧺ ".aspool";
  index = r.name;
  id = none;
  range = some range;
  owner = design_object r;
}

abbrev pub range_claims : NetworkDesign → Option String → List AsPool
range_claims r none = []
range_claims r (some range) = range_claim r range ∷ []

abbrev pub ebgp_claims : NetworkDesign → Option ProtocolsEbgp → List AsPool
ebgp_claims r none = []
ebgp_claims r (some p) = range_claims r p.as_pool

abbrev pub protocol_claims : NetworkDesign → Option DesignProtocols → List AsPool
protocol_claims r none = []
protocol_claims r (some p) = ibgp_claims r p.ibgp ++ ebgp_claims r p.ebgp

unfoldable pub get_as_claims : NetworkDesign → List AsPool
get_as_claims r = protocol_claims r r.spec.protocols

module _ (infra : Infra) where
  -- The purpose, then the type, over the labels that the prefix has.
  unfoldable pub ip_pool : NetworkDesign → String → String → Prefix → IpPool
  unfolding set_label
  ip_pool r purpose prefix_type p = record {
    owner = design_object r;
    prefix = record p {
      labels =
          set_label infra.prefix_type_key prefix_type
            (set_label infra.purpose_key purpose p.labels);
    };
  }

  abbrev pub loopback_pools : NetworkDesign → Option Loopback → List IpPool
  loopback_pools r none = []
  loopback_pools r (some l) = map (ip_pool r "loopback" infra.prefix_type_pool) l.prefixes

  abbrev pub underlay_pools : NetworkDesign → Option Underlay → List IpPool
  underlay_pools r none = []
  underlay_pools r (some u) = map (ip_pool r "underlay" infra.prefix_type_network) u.prefixes

  abbrev pub interface_pools : NetworkDesign → Option DesignInterfaces → List IpPool
  interface_pools r none = []
  interface_pools r (some i) = loopback_pools r i.loopback ++ underlay_pools r i.underlay

  unfoldable pub get_ip_claims : NetworkDesign → List IpPool
  get_ip_claims r = interface_pools r r.spec.interfaces
