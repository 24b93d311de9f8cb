-- ===== src/Reconcile/Params.antt =====
-- The reconciler of the parameters of a network (pkg/reconcilers/networkparams/reconciler.go): for
-- the default network it applies the claims that the design makes for nodes and links.
use text.Mathlib.Text.{◌==◌ as str_eq}
use kuidapps.Prelude.{String, Option, none, some, List, [], ◌∷◌, ◌++◌, map, if◌then◌else◌}
use kuidapps.Outcome.{Error, Outcome, ok, ◌>>=◌}
use kuidapps.Infra.{Infra, InfraLink}
use kuidapps.Network.{is_default_network}
use kuidapps.Design.Spec.{NetworkDesign}
use kuidapps.Design.Claims.{
  Object, AsClaimRequest, get_node_ip_claims, get_node_as_claim, get_link_ip_claims,
}
use kuidapps.Builder.Gather.{found, infra_links}
use kuidapps.Conditions.{
  Kuid, network_param_ready, network_param_failed, condition_type_network_param_ready, is_true,
}
use kuidapps.Conditions.Stored.{StoredNetwork, get_condition, set_conditions}
use kuidapps.Reconcile.{
  StoredNode, StoredDesign, Claim, ip_claim, as_claim, Cluster, Run, attempt, add_finalizer,
  apply_claims, requeue, no_requeue, after_two_seconds, done, update_and_return, with_read,
  with_network, delete_network, error_message, get_default_design,
}

abbrev pub object_of : {S : Type 0} → StoredNetwork S → Object
object_of cr = record { name = cr.network.name; namespace = cr.network.namespace }

unfoldable pub nodes_of_topology : String → List StoredNode → List StoredNode
nodes_of_topology topology [] = []
nodes_of_topology topology (n ∷ ns) =
    let rest = nodes_of_topology topology ns in
    if str_eq topology n.node_group then n ∷ rest else rest

module _ {S : Type 0} (k : Kuid S) where
  unfoldable pub handle_error : String → Option Error → StoredNetwork S → StoredNetwork S
  unfolding set_conditions network_param_failed
  handle_error msg e = set_conditions k (network_param_failed (error_message k msg e) ∷ [])

module _ (infra : Infra) where
  abbrev pub as_claims : Option AsClaimRequest → List Claim
  as_claims none = []
  as_claims (some c) = as_claim c ∷ []

  unfoldable pub node_claims : NetworkDesign → Object → List StoredNode → List Claim
  unfolding get_node_ip_claims get_node_as_claim
  node_claims nd cr [] = []
  node_claims nd cr (n ∷ ns) =
      map ip_claim (get_node_ip_claims infra nd cr n.object)
      ++ (as_claims (get_node_as_claim infra nd cr n.object) ++ node_claims nd cr ns)

  unfoldable pub link_claims : NetworkDesign → Object → List InfraLink → List Claim
  unfolding get_link_ip_claims
  link_claims nd cr [] = []
  link_claims nd cr (l ∷ ls) =
      map ip_claim (get_link_ip_claims infra nd cr l) ++ link_claims nd cr ls

  module _ {S : Type 0} (k : Kuid S) (cl : Cluster S) where
    unfoldable pub get_nodes : StoredNetwork S → Outcome (List StoredNode)
    unfolding nodes_of_topology
    get_nodes cr = cl.list_nodes cr.network.namespace >>= λ ns.
        ok (nodes_of_topology cr.network.spec.topology ns)

    -- The links of every topology, as for the builder.
    unfoldable pub get_links : StoredNetwork S → Outcome (List InfraLink)
    unfolding infra_links
    get_links cr = found cr.network.namespace (cl.api.list_links cr.network.namespace) >>= λ ls.
        ok (infra_links infra cl.api ls)

    -- What `applyDefaultNetwork` applies.
    unfoldable pub default_network_claims : NetworkDesign → StoredNetwork S → Outcome (List Claim)
    unfolding get_nodes get_links node_claims link_claims
    default_network_claims nd cr = get_nodes cr >>= λ ns. get_links cr >>= λ ls.
        ok (node_claims nd (object_of cr) ns ++ link_claims nd (object_of cr) ls)

    abbrev pub cannot_apply : StoredNetwork S → Error → Run S
    cannot_apply cr e =
        update_and_return cl after_two_seconds (handle_error k "cannot apply resource" (some e) cr)

    unfoldable pub reconcile_ready : StoredNetwork S → Run S
    unfolding set_conditions network_param_ready update_and_return
    reconcile_ready cr =
        update_and_return cl no_requeue (set_conditions k (network_param_ready ∷ []) cr)

    unfoldable pub apply_default_network : StoredDesign → StoredNetwork S → Run S
    unfolding default_network_claims with_read attempt handle_error update_and_return
        reconcile_ready
    apply_default_network nd cr =
        with_read cl (default_network_claims nd.design cr) (cannot_apply cr)
          λ claims. attempt cl (apply_claims claims) (cannot_apply cr) (reconcile_ready cr)

    -- Nothing is applied for another network than the default one. A missing design is not written
    -- into the status.
    unfoldable pub reconcile_network : StoredNetwork S → Run S
    unfolding delete_network handle_error get_condition attempt update_and_return with_read
        get_default_design apply_default_network reconcile_ready
    reconcile_network cr =
        if cr.deleted
        then delete_network cl (handle_error k) cr
        else if is_true (get_condition k condition_type_network_param_ready cr).status
        then done no_requeue
        else attempt cl add_finalizer
            (λ e. update_and_return cl requeue (handle_error k "cannot add finalizer" (some e) cr))
            (with_read cl (get_default_design cl cr) (λ e. done requeue)
              λ nd.
                if is_default_network cr.network
                then apply_default_network nd cr
                else reconcile_ready cr)

    unfoldable pub reconcile : String → String → Run S
    unfolding reconcile_network
    reconcile namespace name = with_network cl (cl.get_network namespace name) reconcile_network
