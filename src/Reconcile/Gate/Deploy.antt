-- ===== src/Reconcile/Gate/Deploy.antt =====
-- When the reconciler of a network applies configurations (pkg/reconcilers/network/reconciler.go).
use mathlib.Core.Path.{subst}
use kuidapps.Builder.State.{get}
use kuidapps.Reconcile.Requests.{
  delete_network-Each, with_network-Each, if-Each, attempt-Each, with_read-Each, Each,
}
use kuidapps.Conditions.{
  condition_type_network_param_ready, network_device_processing, network_param_processing, Kuid,
  child_conditions, IsConditioned,
}
use kuidapps.Reconcile.Gate.{OnConfigs, Inputs, AreRead}
use kuidapps.Prelude.{
  refl, sym, [], ◌∷◌, Bool, All, true, arith, Option, is_some, List, String, false, ◌≡◌,
}
use kuidapps.Reconcile.Deploy.{
  has_config_changed, deployed_configs, Codec, check_devices, apply, deploy, reset, reset_children,
  changed_by, reconcile_network, reconcile, handle_error,
}
use kuidapps.Conditions.Stored.{
  set_conditions, get_condition, none_false, are_child_conditions_ready, StoredNetwork,
}
use kuidapps.Reconcile.{
  add_finalizer, Config, Request, apply_configs, get_default_design, update_and_return, Cluster,
}
use kuidapps.Outcome.{ok}

module _ (codec : Codec) {S : Type 0} (k : Kuid S) (cl : Cluster S) (namespace name : String) where
  -- The network is not deployed by GitOps, neither it nor its design has changed since its status
  -- was written, and no child condition is false; these configurations are those of its devices.
  pub record AreDeployed (x : Inputs S) (cs : List Config) : Type 0 where
    pub inputs : AreRead cl namespace name x
    pub unmanaged : is_some (get "kuid.dev/gitops" x.cr.annotations) ≡ false
    pub unchanged : has_config_changed codec x.cr x.nd ≡ (false, x.cr)
    pub children : are_child_conditions_ready k x.cr ≡ true
    pub configs : deployed_configs codec k cl x.cr ≡ ok cs

  module _ (laws : IsConditioned k) where
    abbrev Fine : Request S → Type 0
    Fine = OnConfigs (λ cs. (x : Inputs S) × AreDeployed x cs)

    check_devices-Fine : (cr : StoredNetwork S) → Each Fine (check_devices codec k cl cr)
    unfolding check_devices update_and_return
    check_devices-Fine cr =
        with_read-Each Fine cl cl.list_configs _ _ (λ e. (tt, tt)) λ os h. (tt, tt)

    apply-Fine :
        (cr : StoredNetwork S)
        → ((cs : List Config) → deployed_configs codec k cl cr ≡ ok cs → Fine (apply_configs cs))
        → Each Fine (apply codec k cl cr)
    unfolding apply update_and_return
    apply-Fine cr fine =
        with_read-Each Fine cl (deployed_configs codec k cl cr) _ _ (λ e. (tt, tt))
          λ cs h.
            attempt-Each Fine cl (apply_configs cs) _ _ (fine cs h) (λ e. (tt, tt))
              (check_devices-Fine cr)

    deploy-Fine :
        (cr : StoredNetwork S)
        → (are_child_conditions_ready k cr ≡ true
            → (cs : List Config) → deployed_configs codec k cl cr ≡ ok cs
            → Fine (apply_configs cs))
        → Each Fine (deploy codec k cl cr)
    unfolding deploy update_and_return
    deploy-Fine cr fine =
        if-Each Fine (are_child_conditions_ready k cr) _ _ (λ h. apply-Fine cr (fine h))
          λ h. (tt, tt)

    -- A reset makes both child conditions false.
    pub reset-waits : (cr : StoredNetwork S) → are_child_conditions_ready k (reset k cr) ≡ false
    unfolding are_child_conditions_ready none_false child_conditions reset get_condition
        set_conditions network_param_processing network_device_processing
    reset-waits cr = rw (
        laws.get-set condition_type_network_param_ready
          (network_param_processing k "config changed"
            ∷ network_device_processing k "config changed"
            ∷ [])
          cr.status.conditioned)

    unchanged_same :
        (hash : Option String) (version : String) (cr cr' : StoredNetwork S)
        → changed_by codec hash version cr ≡ (false, cr')
        → cr' ≡ cr
    unchanged_same hash version cr cr' h = ground arith

    changes-Fine :
        (x : Inputs S) (p : Bool × StoredNetwork S)
        → AreRead cl namespace name x
        → is_some (get "kuid.dev/gitops" x.cr.annotations) ≡ false
        → has_config_changed codec x.cr x.nd ≡ p
        → Each Fine (deploy codec k cl (reset_children codec k cl p))
    changes-Fine x (true, cr') inputs unmanaged h =
        deploy-Fine (reset k cr') λ r. ground (arith, r, reset-waits cr')
    changes-Fine x (false, cr') inputs unmanaged h =
        let same =
          unchanged_same (codec.spec_hash x.cr.network.spec) x.nd.resource_version x.cr cr'
            (unfold has_config_changed in h) in
        subst (λ c. Each Fine (deploy codec k cl c)) (sym same)
          (deploy-Fine x.cr λ r cs d. (
            x,
            record {
              inputs = inputs;
              unmanaged = unmanaged;
              unchanged = subst (λ c. has_config_changed codec x.cr x.nd ≡ (false, c)) same h;
              children = r;
              configs = d;
            },
          ))

    -- Whatever the API server answers, the reconciler of a network applies configurations only if
    -- the network and its design are there, the network is neither being deleted nor deployed by
    -- GitOps, neither has changed since the status was written, and no child condition is false;
    -- what it applies is then the configurations of the devices that the network owns.
    pub reconcile-AreDeployed : All Fine (reconcile codec k cl namespace name).requests
    unfolding reconcile reconcile_network update_and_return
    reconcile-AreDeployed = with_network-Each Fine cl (cl.get_network namespace name) _ λ cr read.
        if-Each Fine (is_some (get "kuid.dev/gitops" cr.annotations)) _ _ (λ g. tt)
          λ g.
            if-Each Fine cr.deleted _ _
              (λ d. delete_network-Each Fine cl (handle_error k) cr tt tt λ msg e. tt)
              λ d.
                attempt-Each Fine cl add_finalizer _ _ tt (λ e. (tt, tt))
                  (with_read-Each Fine cl (get_default_design cl cr) _ _ (λ e. (tt, tt))
                    λ nd designed.
                      changes-Fine (record { cr = cr; nd = nd }) (has_config_changed codec cr nd)
                        (record { read = read; alive = d; designed = designed }) g refl)
