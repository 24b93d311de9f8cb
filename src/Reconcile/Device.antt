-- ===== src/Reconcile/Device.antt =====
-- The reconciler of the devices of a network (pkg/reconcilers/networkdevice/reconciler.go): it
-- builds the configurations of the devices and applies them as network devices.
use kuidapps.Prelude.{String, Option, some, List, [], ◌∷◌, map, if◌then◌else◌}
use kuidapps.Outcome.{Error, Outcome, ok, ◌>>=◌}
use kuidapps.Infra.{Infra}
use kuidapps.Schema.{NetworkDevice}
use kuidapps.Devices.Store.{get_network_device_configs}
use kuidapps.Builder.State.{new_builder}
use kuidapps.Builder.Overlay.{build}
use kuidapps.Conditions.{
  Kuid, network_device_ready, network_device_failed, network_device_processing,
  condition_type_network_param_ready, condition_type_network_device_ready, is_true, is_false,
}
use kuidapps.Conditions.Stored.{StoredNetwork, get_condition, set_conditions}
use kuidapps.Reconcile.{
  StoredDesign, Cluster, Run, attempt, add_finalizer, apply_devices, requeue, no_requeue,
  after_two_seconds, done, update_and_return, with_read, with_network, delete_network,
  error_message, get_default_design,
}
use kuidapps.Reconcile.Owned.{Collected, are_all_device_configs_ready}

module _ {S : Type 0} (k : Kuid S) where
  unfoldable pub handle_error : String → Option Error → StoredNetwork S → StoredNetwork S
  unfolding set_conditions network_device_failed
  handle_error msg e = set_conditions k (network_device_failed (error_message k msg e) ∷ [])

  -- The status of each device, and the condition that they give.
  unfoldable pub reported : Collected → StoredNetwork S → StoredNetwork S
  unfolding set_conditions network_device_ready network_device_failed network_device_processing
  reported c cr =
      set_conditions k
        ((if c.ready
            then network_device_ready
            else if c.failures
            then network_device_failed "some devices failed, see device status list"
            else network_device_processing k "some devices are still processing")
          ∷ [])
        (record cr { status = record (cr.status) { devices_config_status = c.statuses } })

module _ (infra : Infra) {S : Type 0} (k : Kuid S) (cl : Cluster S) where
  -- What `apply` applies: what the builder makes of the network.
  unfoldable pub built_devices : StoredDesign → StoredNetwork S → Outcome (List NetworkDevice)
  unfolding build new_builder get_network_device_configs
  built_devices nd cr = build infra cl.api (new_builder cr.network nd.design nd.memory) >>= λ b.
      ok (get_network_device_configs b.devices)

  abbrev pub fail_after : String → StoredNetwork S → Error → Run S
  fail_after msg cr e = update_and_return cl after_two_seconds (handle_error k msg (some e) cr)

  unfoldable pub check_devices : StoredNetwork S → Run S
  unfolding with_read reported handle_error update_and_return are_all_device_configs_ready
  check_devices cr =
      with_read cl cl.list_network_devices (fail_after "cannot gather network device status" cr)
        λ nds. update_and_return cl no_requeue (
          reported k
            (are_all_device_configs_ready k.reason_failed cr.uid (map (λ nd. nd.object) nds)) cr)

  unfoldable pub apply : StoredDesign → StoredNetwork S → Run S
  unfolding with_read built_devices attempt handle_error update_and_return check_devices
  apply nd cr =
      with_read cl (built_devices nd cr) (fail_after "cannot apply resource" cr) λ ds.
        attempt cl (apply_devices ds) (fail_after "cannot apply resource" cr) (check_devices cr)

  unfoldable pub reconcile_network : StoredNetwork S → Run S
  unfolding delete_network handle_error get_condition attempt update_and_return with_read
      get_default_design apply
  reconcile_network cr =
      if cr.deleted
      then delete_network cl (handle_error k) cr
      else attempt cl add_finalizer
          (λ e. update_and_return cl requeue (handle_error k "cannot add finalizer" (some e) cr))
          (if is_false (get_condition k condition_type_network_param_ready cr).status
            then done no_requeue
            else if is_true (get_condition k condition_type_network_device_ready cr).status
            then done no_requeue
            else with_read cl (get_default_design cl cr) (λ e. done requeue) λ nd. apply nd cr)

  unfoldable pub reconcile : String → String → Run S
  unfolding reconcile_network
  reconcile namespace name = with_network cl (cl.get_network namespace name) reconcile_network
