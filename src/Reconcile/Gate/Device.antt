-- ===== src/Reconcile/Gate/Device.antt =====
-- When the reconciler of the devices of a network applies devices
-- (pkg/reconcilers/networkdevice/reconciler.go).
use kuidapps.Outcome.{ok}
use kuidapps.Reconcile.Requests.{
  delete_network-Each, attempt-Each, with_read-Each, if-Each, with_network-Each, Each,
}
use kuidapps.Schema.{NetworkDevice}
use kuidapps.Conditions.Stored.{get_condition, StoredNetwork}
use kuidapps.Reconcile.{
  get_default_design, apply_devices, add_finalizer, update_and_return, Request, Cluster,
}
use kuidapps.Conditions.{
  condition_type_network_device_ready, is_true, condition_type_network_param_ready, is_false, Kuid,
}
use kuidapps.Infra.{Infra}
use kuidapps.Prelude.{false, ◌≡◌, All, List, String}
use kuidapps.Reconcile.Device.{
  built_devices, handle_error, check_devices, apply, reconcile_network, reconcile,
}
use kuidapps.Reconcile.Gate.{OnDevices, Inputs, AreRead}

module _ (infra : Infra) {S : Type 0} (k : Kuid S) (cl : Cluster S) (namespace name : String) where
  -- The condition of the parameters is not false and that of the devices is not true; these devices
  -- are what the builder makes.
  pub record AreBuilt (x : Inputs S) (ds : List NetworkDevice) : Type 0 where
    pub inputs : AreRead cl namespace name x
    pub param : is_false (get_condition k condition_type_network_param_ready x.cr).status ≡ false
    pub device : is_true (get_condition k condition_type_network_device_ready x.cr).status ≡ false
    pub built : built_devices infra k cl x.nd x.cr ≡ ok ds

  abbrev Fine : Request S → Type 0
  Fine = OnDevices (λ ds. (x : Inputs S) × AreBuilt x ds)

  check_devices-Fine : (cr : StoredNetwork S) → Each Fine (check_devices infra k cl cr)
  unfolding check_devices update_and_return
  check_devices-Fine cr =
      with_read-Each Fine cl cl.list_network_devices _ _ (λ e. (tt, tt)) λ os h. (tt, tt)

  apply-Fine :
      (x : Inputs S)
      → ((ds : List NetworkDevice) → built_devices infra k cl x.nd x.cr ≡ ok ds → AreBuilt x ds)
      → Each Fine (apply infra k cl x.nd x.cr)
  unfolding apply update_and_return
  apply-Fine x fine =
      with_read-Each Fine cl (built_devices infra k cl x.nd x.cr) _ _ (λ e. (tt, tt))
        λ ds h.
          attempt-Each Fine cl (apply_devices ds) _ _ (x, fine ds h) (λ e. (tt, tt))
            (check_devices-Fine x.cr)

  -- Whatever the API server answers, the reconciler of the devices applies devices only if the
  -- network and its design are there, the network is not being deleted, the condition of the
  -- parameters is not false and that of the devices is not true; what it applies is then what the
  -- builder makes of the network and the design.
  pub reconcile-AreBuilt : All Fine (reconcile infra k cl namespace name).requests
  unfolding reconcile reconcile_network update_and_return
  reconcile-AreBuilt = with_network-Each Fine cl (cl.get_network namespace name) _ λ cr read.
      if-Each Fine cr.deleted _ _
        (λ d. delete_network-Each Fine cl (handle_error k) cr tt tt λ msg e. tt)
        λ d.
          attempt-Each Fine cl add_finalizer _ _ tt (λ e. (tt, tt))
            (if-Each Fine (is_false (get_condition k condition_type_network_param_ready cr).status)
              _ _ (λ h. tt)
              λ param.
                if-Each Fine
                  (is_true (get_condition k condition_type_network_device_ready cr).status) _ _
                  (λ h. tt)
                  λ device.
                    with_read-Each Fine cl (get_default_design cl cr) _ _ (λ e. tt)
                      λ nd designed.
                        apply-Fine (record { cr = cr; nd = nd })
                          λ ds b. record {
                            inputs = record { read = read; alive = d; designed = designed };
                            param = param;
                            device = device;
                            built = b;
                          })
