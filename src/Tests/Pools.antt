-- ===== src/Tests/Pools.antt =====
-- The pools that the design of Tests/Builder.antt claims, with a prefix and an AS range.
use kuidapps.Design.Spec.{addressing_ipv4_numbered, NetworkDesign}
use kuidapps.Design.Pools.{IpPool, get_ip_claims, get_as_claims, AsPool}
use kuidapps.Design.Claims.{get_node_ip_claims, get_node_as_claim, Object, AsClaimRequest}
use mathlib.Core.List.{Memᴰ}
use kuidapps.Prelude.{◌++◌, List, false, none, true, refl, is_some, [], ◌≡◌, ◌∷◌, some, All}
use kuidapps.Tests.Builder.{infra, design}
use kuidapps.Design.Selects
use kuidapps.Design.Selects.{AreMadeOf, Selects}

abbrev pooled : NetworkDesign
pooled = record design {
  spec = record (design.spec) {
    interfaces = some (record {
      loopback = some (record {
        prefixes = record { prefix = "10.0.0.0/16"; labels = ("purpose", "other") ∷ [] } ∷ [];
        addressing = addressing_ipv4_numbered;
      });
      underlay = none;
    });
    protocols = some (record {
      ospf = none;
      isis = none;
      ibgp = none;
      ebgp = some (record { as_pool = some "65000-65100"; bfd = false });
      bgp_evpn = none;
      bgp_vpnv4 = none;
      bgp_vpnv6 = none;
      bgp_route_target = none;
      bgp_labeled_unicastv4 = none;
      bgp_labeled_unicastv6 = none;
    });
  };
}

abbrev cr : Object
cr = record { name = "topo.default"; namespace = "ns" }

abbrev leaf : Object
leaf = record { name = "leaf"; namespace = "ns" }

get_ip_claims-AreMadeOf_example :
    (loopbacks : List IpPool) × (underlays : List IpPool) × (get_ip_claims infra pooled
      ≡ loopbacks ++ underlays)
    × AreMadeOf infra pooled "loopback" "pool"
        (record { prefix = "10.0.0.0/16"; labels = ("purpose", "other") ∷ [] } ∷ [])
        loopbacks
    × AreMadeOf infra pooled "underlay" "network" [] underlays
    × All (Selects infra "loopback" "pool") (get_node_ip_claims infra pooled cr leaf)
get_ip_claims-AreMadeOf_example = Selects.get_ip_claims-AreMadeOf infra pooled cr leaf

abbrev request : AsClaimRequest
request = record {
  namespace = "ns";
  name = "topo.default.leaf";
  index = "topo.default";
  owner = cr;
  selector = ("claim-name", "topo.default.aspool") ∷ [];
}

makes : get_node_as_claim infra pooled cr leaf ≡ some request
unfolding get_node_as_claim
makes = refl

get_node_as_claim-get_as_claims_example :
    (pool : AsPool) × Memᴰ pool (get_as_claims pooled)
    × (is_some pool.range ≡ true)
    × (pool.namespace ≡ "ns")
    × (pool.index ≡ "topo.default")
    × (request.selector ≡ (infra.claim_name_key, pool.name) ∷ [])
get_node_as_claim-get_as_claims_example =
    Selects.get_node_as_claim-get_as_claims infra pooled cr leaf request makes refl
