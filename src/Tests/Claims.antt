-- ===== src/Tests/Claims.antt =====
-- The claims of the fabric of Tests/Builder.antt, which its API server serves.
use kuidapps.Prelude.{◌≡◌, refl, true, All}
use kuidapps.Design.Getters.{
  is_loopback_ipv4_enabled, is_loopback_ipv6_enabled, is_underlay_ipv4_numbered,
  is_underlay_ipv6_numbered,
}
use kuidapps.Design.Claims.{
  Object, node_claim, get_node_ip_claims, endpoint_claim, link_family_claims, get_link_ip_claims,
}
use kuidapps.Infra.{EndpointId}
use kuidapps.Link.Ends.{new_link}
use kuidapps.Link.Sharing.{returns}
use kuidapps.Builder.State.{new_builder}
use kuidapps.Builder.Gather.{
  index, get_ip_claim, get_as_claim, router_id_and_ipv4, node_ipv6, gather_end,
}
use kuidapps.Builder.Claims
use kuidapps.Builder.Claims.{Served}
use kuidapps.Tests.Builder.{infra, api, start, design, node_id, infra_link}

abbrev cr : Object
cr = record { name = "topo.default"; namespace = "ns" }

abbrev spine_object : Object
spine_object = record { name = "spine"; namespace = "ns" }

abbrev spine_end : EndpointId
spine_end = record { node_group = "topo"; node_id = node_id "spine"; endpoint = "e1-1" }

node-Served : All (Served infra (api true)) (get_node_ip_claims infra design cr spine_object)
unfolding get_node_ip_claims node_claim get_ip_claim is_loopback_ipv4_enabled
    is_loopback_ipv6_enabled
node-Served = (refl, tt)

link-Served : All (Served infra (api true)) (get_link_ip_claims infra design cr infra_link)
unfolding get_link_ip_claims link_family_claims endpoint_claim get_ip_claim
    is_underlay_ipv4_numbered is_underlay_ipv6_numbered
link-Served = (refl, (refl, (refl, tt)))

returns-get_node_ip_claims_example :
    (returns (router_id_and_ipv4 infra (api true) start "spine") ≡ true)
    × (returns (node_ipv6 infra (api true) start "spine") ≡ true)
unfolding new_builder
returns-get_node_ip_claims_example =
    Claims.returns-get_node_ip_claims infra (api true) start spine_object
      (λ namespace name ip e. refl) refl node-Served

returns-get_link_ip_claims_example :
    returns (gather_end infra (api true) start 0 "spine" "e1-1" (new_link infra_link)) ≡ true
unfolding new_builder index get_as_claim
returns-get_link_ip_claims_example =
    Claims.returns-get_link_ip_claims infra (api true) start infra_link 0 spine_end
      (new_link infra_link) refl (λ on. refl) link-Served
