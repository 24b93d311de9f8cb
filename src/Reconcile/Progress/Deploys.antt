-- ===== src/Reconcile/Progress/Deploys.antt =====
-- A round of the reconciler of the network, where the API server serves it
-- (pkg/reconcilers/network/reconciler.go).
use kuidapps.Reconcile.Deploy
use kuidapps.Reconcile.Deploy
use kuidapps.Reconcile.Deploy
use kuidapps.Reconcile.Deploy
use kuidapps.Reconcile.Deploy
use kuidapps.Reconcile.Deploy
use kuidapps.Reconcile.Deploy
use kuidapps.Reconcile.Deploy
use kuidapps.Reconcile.Deploy
use kuidapps.Reconcile.Deploy
use kuidapps.Reconcile.Deploy
use kuidapps.Reconcile.Deploy
use kuidapps.Reconcile.Deploy
use kuidapps.Reconcile.Deploy
use kuidapps.Reconcile.Deploy
use kuidapps.Reconcile.Deploy
use kuidapps.Reconcile.Deploy
use kuidapps.Reconcile.Deploy
use kuidapps.Reconcile.Deploy
use kuidapps.Reconcile.Deploy
use kuidapps.Reconcile.Deploy
use kuidapps.Reconcile.Deploy
use kuidapps.Reconcile.Deploy
use kuidapps.Reconcile.Deploy
use kuidapps.Reconcile.Deploy
use kuidapps.Reconcile.Deploy
use kuidapps.Reconcile.Deploy
use kuidapps.Reconcile.Deploy
use kuidapps.Reconcile.Deploy
use kuidapps.Reconcile.Deploy
use kuidapps.Reconcile.Gate.Deploy.{reset-waits}
use kuidapps.Reconcile.System.{accept, network_round, perform}
use kuidapps.Reconcile.Owned.{are_all_device_configs_ready}
use kuidapps.Conditions.Stored.{
  set_overall_status, are_child_conditions_ready, set_conditions, StoredNetwork,
}
use kuidapps.Reconcile.{
  apply_configs, Run, no_requeue, add_finalizer, preceded, update_and_return, with_read,
  get_default_design, attempt, Cluster,
}
use kuidapps.Conditions.{IsConditioned, Kuid}
use kuidapps.Reconcile.Deploy.{Codec}
use kuidapps.Infra.{Infra}
use kuidapps.Prelude.{if-false, ◌∙◌, ap, Bool, true, if◌then◌else◌, false, ◌≡◌, String, some}
use kuidapps.Reconcile.Deploy
use kuidapps.Reconcile.Progress.{IsServed, serve}

module _ (infra : Infra) (codec : Codec) {S : Type 0} (k : Kuid S) where
  module _ (namespace name : String) (cl : Cluster S) (t : StoredNetwork S)
      (w : IsServed infra codec k cl t) where
    -- The network with what its status is compared with.
    abbrev pub compared : StoredNetwork S
    compared = record t {
      status = record (t.status) {
        used_references = some (record {
          network_spec_hash = w.hash;
          network_design_resource_version = w.nd.resource_version;
        });
      };
    }

    abbrev pub same_inputs : Bool
    same_inputs = Deploy.not_changed w.hash w.nd.resource_version t.status.used_references

    deployed_or_waiting : (b : Bool) → Run S
    deployed_or_waiting b =
        if b
        then preceded (apply_configs w.configs) (Deploy.check_devices codec k (serve cl t) t)
        else update_and_return (serve cl t) no_requeue (Deploy.waiting k t)

    deploy_served :
        Deploy.deploy codec k (serve cl t) t ≡ deployed_or_waiting (are_child_conditions_ready k t)
    unfolding Deploy.deploy Deploy.apply attempt with_read deployed_or_waiting
        Deploy.deployed_configs
    deploy_served = simp (w.accepts, w.deployed)

    module _ (laws : IsConditioned k) where
      deploy-reset :
          Deploy.deploy codec k (serve cl t) (Deploy.reset k compared)
          ≡ update_and_return (serve cl t) no_requeue (Deploy.waiting k (Deploy.reset k compared))
      unfolding Deploy.deploy
      deploy-reset = if-false _ _ (reset-waits codec k (serve cl t) namespace name laws compared)

      deploy_changed :
          (b : Bool)
          → Deploy.deploy codec k (serve cl t) (
              Deploy.reset_children codec k
                (serve cl t)
                (if b then (false, t) else (true, compared)))
            ≡ (if b
                then deployed_or_waiting (are_child_conditions_ready k t)
                else update_and_return
                    (serve cl t)
                    no_requeue
                    (Deploy.waiting k (Deploy.reset k compared)))
      deploy_changed true = deploy_served
      deploy_changed false = deploy-reset

      deploy-compared :
          Deploy.deploy codec k
            (serve cl t)
            (Deploy.reset_children codec k (serve cl t) (Deploy.has_config_changed codec t w.nd))
          ≡ (if same_inputs
              then deployed_or_waiting (are_child_conditions_ready k t)
              else update_and_return
                  (serve cl t)
                  no_requeue
                  (Deploy.waiting k (Deploy.reset k compared)))
      unfolding Deploy.has_config_changed
      deploy-compared = rw w.hashed (deploy_changed same_inputs)

      network_opened :
          Deploy.reconcile_network codec k (serve cl t) t
          ≡ preceded add_finalizer (
              Deploy.deploy codec k (serve cl t) (
                Deploy.reset_children codec k
                  (serve cl t)
                  (Deploy.has_config_changed codec t w.nd)))
      unfolding Deploy.reconcile_network attempt get_default_design with_read
      network_opened = simp (w.alive, w.accepts, w.designed)

      network_served :
          Deploy.reconcile_network codec k (serve cl t) t
          ≡ preceded add_finalizer (
              if same_inputs
              then deployed_or_waiting (are_child_conditions_ready k t)
              else update_and_return
                  (serve cl t)
                  no_requeue
                  (Deploy.waiting k (Deploy.reset k compared)))
      network_served = network_opened ∙ ap (preceded add_finalizer) deploy-compared

      deployed_requests :
          (b : Bool)
          → perform (serve cl t) (deployed_or_waiting b).requests t ≡ (
              if b
              then Deploy.reported k (are_all_device_configs_ready k.reason_failed t.uid w.os) t
              else Deploy.waiting k t)
      unfolding perform Deploy.check_devices with_read update_and_return Deploy.reported
          Deploy.waiting set_conditions set_overall_status deployed_or_waiting
      deployed_requests true = simp (w.accepts, w.configs_listed)
      deployed_requests false = simp w.accepts

      network_requests :
          (b : Bool)
          → perform
              (serve cl t)
              (preceded add_finalizer (
                if b
                then deployed_or_waiting (are_child_conditions_ready k t)
                else update_and_return
                    (serve cl t)
                    no_requeue
                    (Deploy.waiting k (Deploy.reset k compared)))).requests
              t
            ≡ (if b
                then (if are_child_conditions_ready k t
                    then Deploy.reported k
                        (are_all_device_configs_ready k.reason_failed t.uid w.os)
                        t
                    else Deploy.waiting k t)
                else Deploy.waiting k (Deploy.reset k compared))
      unfolding perform update_and_return Deploy.waiting Deploy.reset set_conditions
          set_overall_status
      network_requests true =
          ap
            (λ o.
              perform (serve cl t) (deployed_or_waiting (are_child_conditions_ready k t)).requests
                (accept o add_finalizer t))
            (w.accepts add_finalizer)
          ∙ deployed_requests (are_child_conditions_ready k t)
      network_requests false = simp w.accepts

      -- Where neither the network nor its design has changed and no child condition is false, the
      -- configurations are reported ready; otherwise the network waits, with its child conditions
      -- reset where one has changed.
      pub network_round-serve : network_round infra codec k namespace name (serve cl t) t ≡ (
          if same_inputs
          then (if are_child_conditions_ready k t
              then Deploy.reported k (are_all_device_configs_ready k.reason_failed t.uid w.os) t
              else Deploy.waiting k t)
          else Deploy.waiting k (Deploy.reset k compared))
      unfolding network_round Deploy.reconcile
      network_round-serve = simp w.unmanaged (rw network_served (network_requests same_inputs))
