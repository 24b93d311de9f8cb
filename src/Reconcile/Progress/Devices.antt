-- ===== src/Reconcile/Progress/Devices.antt =====
-- A round of the reconciler of the devices, where the API server serves it
-- (pkg/reconcilers/networkdevice/reconciler.go).
use kuidapps.Reconcile.System.{perform, device_round}
use kuidapps.Reconcile.Owned.{are_all_device_configs_ready}
use kuidapps.Conditions.Stored.{set_conditions, get_condition, StoredNetwork}
use kuidapps.Reconcile.{
  apply_devices, no_requeue, add_finalizer, preceded, done, update_and_return, with_read,
  get_default_design, attempt, Cluster,
}
use kuidapps.Conditions.{
  condition_type_network_device_ready, is_false, condition_type_network_param_ready, is_true, Kuid,
}
use kuidapps.Reconcile.Deploy.{Codec}
use kuidapps.Infra.{Infra}
use kuidapps.Prelude.{Bool, true, map, if◌then◌else◌, false, ◌≡◌, String}
use kuidapps.Reconcile.Device
use kuidapps.Reconcile.Progress.{IsServed, serve}

module _ (infra : Infra) (codec : Codec) {S : Type 0} (k : Kuid S) where
  module _ (namespace name : String) (cl : Cluster S) (t : StoredNetwork S)
      (w : IsServed infra codec k cl t) where
    devices_served :
        is_false (get_condition k condition_type_network_param_ready t).status ≡ false
        → Device.reconcile_network infra k (serve cl t) t
          ≡ preceded add_finalizer (
              if is_true (get_condition k condition_type_network_device_ready t).status
              then done no_requeue
              else preceded (apply_devices w.devices) (Device.check_devices infra k (serve cl t) t))
    unfolding Device.reconcile_network attempt get_default_design Device.apply Device.built_devices
        with_read
    devices_served param = simp (w.alive, param, w.accepts, w.designed, w.built)

    device_requests :
        (b : Bool)
        → perform
            (serve cl t)
            (preceded add_finalizer (
              if b
              then done {S = S} no_requeue
              else preceded
                  (apply_devices w.devices)
                  (Device.check_devices infra k (serve cl t) t))).requests
            t
          ≡ (if b
              then t
              else Device.reported k
                  (are_all_device_configs_ready k.reason_failed t.uid (map (λ n. n.object) w.nds))
                  t)
    unfolding perform Device.check_devices with_read update_and_return Device.reported
        set_conditions
    device_requests true = simp w.accepts
    device_requests false = simp (w.accepts, w.devices_listed)

    -- The devices are built and reported, unless they are ready.
    pub device_round-serve :
        is_false (get_condition k condition_type_network_param_ready t).status ≡ false
        → device_round infra codec k namespace name (serve cl t) t ≡ (
            if is_true (get_condition k condition_type_network_device_ready t).status
            then t
            else Device.reported k
                (are_all_device_configs_ready k.reason_failed t.uid (map (λ n. n.object) w.nds))
                t)
    unfolding device_round Device.reconcile
    device_round-serve param =
        rw (devices_served param)
          (device_requests (is_true (get_condition k condition_type_network_device_ready t).status))
