-- ===== src/Reconcile/Progress/Claims.antt =====
-- A round of the reconciler of the parameters, where the API server serves it
-- (pkg/reconcilers/networkparams/reconciler.go).
use kuidapps.Network.{is_default_network}
use kuidapps.Reconcile.System.{perform, param_round}
use kuidapps.Conditions.Stored.{set_conditions, get_condition, StoredNetwork}
use kuidapps.Reconcile.{
  apply_claims, no_requeue, add_finalizer, preceded, done, update_and_return, with_read,
  get_default_design, attempt, Cluster,
}
use kuidapps.Conditions.{network_param_ready, condition_type_network_param_ready, is_true, Kuid}
use kuidapps.Reconcile.Deploy.{Codec}
use kuidapps.Infra.{Infra}
use kuidapps.Prelude.{[], ◌∷◌, refl, Bool, true, if◌then◌else◌, false, ◌≡◌, String}
use kuidapps.Reconcile.Params
use kuidapps.Reconcile.Progress.{IsServed, serve}

module _ (infra : Infra) (codec : Codec) {S : Type 0} (k : Kuid S) where
  module _ (namespace name : String) (cl : Cluster S) (t : StoredNetwork S)
      (w : IsServed infra codec k cl t) where
    params_served : Params.reconcile_network infra k (serve cl t) t ≡ (
        if is_true (get_condition k condition_type_network_param_ready t).status
        then done no_requeue
        else preceded add_finalizer (
            if is_default_network t.network
            then preceded (apply_claims w.claims) (Params.reconcile_ready infra k (serve cl t) t)
            else Params.reconcile_ready infra k (serve cl t) t))
    unfolding Params.reconcile_network attempt get_default_design Params.apply_default_network
        Params.default_network_claims Params.get_nodes Params.get_links with_read
    params_served = simp (w.alive, w.accepts, w.designed, w.claimed)

    param_requests :
        (b c : Bool)
        → perform
            (serve cl t)
            (if b
              then done {S = S} no_requeue
              else preceded add_finalizer (
                  if c
                  then preceded
                      (apply_claims w.claims)
                      (Params.reconcile_ready infra k (serve cl t) t)
                  else Params.reconcile_ready infra k (serve cl t) t)).requests
            t
          ≡ (if b then t else set_conditions k (network_param_ready ∷ []) t)
    unfolding perform Params.reconcile_ready update_and_return set_conditions
    param_requests true c = refl
    param_requests false true = simp w.accepts
    param_requests false false = simp w.accepts

    -- The parameters become ready, unless they are.
    pub param_round-serve : param_round infra codec k namespace name (serve cl t) t ≡ (
        if is_true (get_condition k condition_type_network_param_ready t).status
        then t
        else set_conditions k (network_param_ready ∷ []) t)
    unfolding param_round Params.reconcile
    param_round-serve = rw params_served (
        param_requests (is_true (get_condition k condition_type_network_param_ready t).status)
          (is_default_network t.network))
