-- ===== src/Reconcile/Gate/Params.antt =====
-- When the reconciler of the parameters of a network applies claims
-- (pkg/reconcilers/networkparams/reconciler.go).
use kuidapps.Network.{is_default_network}
use kuidapps.Outcome.{ok}
use kuidapps.Reconcile.Requests.{
  with_read-Each, attempt-Each, delete_network-Each, Each, if-Each, with_network-Each,
}
use kuidapps.Reconcile.{
  get_default_design, apply_claims, add_finalizer, Claim, update_and_return, Request, Cluster,
}
use kuidapps.Conditions.{condition_type_network_param_ready, is_true, Kuid}
use kuidapps.Infra.{Infra}
use kuidapps.Prelude.{true, false, ◌≡◌, All, List, String}
use kuidapps.Reconcile.Params.{
  default_network_claims, handle_error, apply_default_network, reconcile_ready, reconcile_network,
  reconcile,
}
use kuidapps.Reconcile.Gate.{get_condition, OnClaims, Inputs, AreRead}

module _ (infra : Infra) {S : Type 0} (k : Kuid S) (cl : Cluster S) (namespace name : String) where
  -- The network is a default network, whose parameters are not ready; these claims are those that
  -- the design makes for the nodes and links.
  pub record AreClaimed (x : Inputs S) (cs : List Claim) : Type 0 where
    pub inputs : AreRead cl namespace name x
    pub param : is_true (get_condition k condition_type_network_param_ready x.cr).status ≡ false
    pub default : is_default_network x.cr.network ≡ true
    pub claims : default_network_claims infra k cl x.nd.design x.cr ≡ ok cs

  abbrev Fine : Request S → Type 0
  Fine = OnClaims (λ cs. (x : Inputs S) × AreClaimed x cs)

  apply-Fine :
      (x : Inputs S)
      → ((cs : List Claim)
          → default_network_claims infra k cl x.nd.design x.cr ≡ ok cs
          → AreClaimed x cs)
      → Each Fine (apply_default_network infra k cl x.nd x.cr)
  unfolding apply_default_network reconcile_ready update_and_return
  apply-Fine x fine =
      with_read-Each Fine cl (default_network_claims infra k cl x.nd.design x.cr) _ _
        (λ e. (tt, tt))
        λ cs h. attempt-Each Fine cl (apply_claims cs) _ _ (x, fine cs h) (λ e. (tt, tt)) (tt, tt)

  -- Whatever the API server answers, the reconciler of the parameters applies claims only if the
  -- network and its design are there, the network is a default network that is not being deleted,
  -- and the condition of the parameters is not true; what it applies is then the claims that the
  -- design makes for the nodes of the topology and for the infra links.
  pub reconcile-AreClaimed : All Fine (reconcile infra k cl namespace name).requests
  unfolding reconcile reconcile_network reconcile_ready update_and_return
  reconcile-AreClaimed = with_network-Each Fine cl (cl.get_network namespace name) _ λ cr read.
      if-Each Fine cr.deleted _ _
        (λ d. delete_network-Each Fine cl (handle_error k) cr tt tt λ msg e. tt)
        λ d.
          if-Each Fine (is_true (get_condition k condition_type_network_param_ready cr).status) _ _
            (λ h. tt)
            λ param.
              attempt-Each Fine cl add_finalizer _ _ tt (λ e. (tt, tt))
                (with_read-Each Fine cl (get_default_design cl cr) _ _ (λ e. tt)
                  λ nd designed.
                    if-Each Fine (is_default_network cr.network) _ _
                      (λ default.
                        apply-Fine (record { cr = cr; nd = nd })
                          λ cs c. record {
                            inputs = record { read = read; alive = d; designed = designed };
                            param = param;
                            default = default;
                            claims = c;
                          })
                      λ other. (tt, tt))
