-- ===== src/Reconcile/Order/Rounds.antt =====
-- What a reconcile of the parameters or the devices leaves of the order of the child conditions
-- (pkg/reconcilers/networkparams and networkdevice).
use kuidapps.Reconcile.Owned.{are_all_device_configs_ready}
use kuidapps.Reconcile.Device
use kuidapps.Network.{is_default_network}
use kuidapps.Reconcile.Requests.{Each, with_read-Each, attempt-Each, delete_network-Each, if-Each}
use kuidapps.Outcome.{Error}
use kuidapps.Conditions.Stored.{get_condition, set_conditions, StoredNetwork}
use kuidapps.Reconcile.{
  apply_devices, StoredDesign, attempt, apply_claims, get_default_design, add_finalizer,
  update_and_return, Request, found, Cluster,
}
use kuidapps.Conditions.{
  NetworkStatusDeviceStatus, is_false, network_device_processing,
  condition_type_network_device_ready, network_device_ready, network_device_failed,
  condition_type_network_param_ready, is_true, network_param_ready, network_param_failed,
  IsConditioned, Kuid,
}
use kuidapps.Reconcile.Deploy.{Codec}
use kuidapps.Infra.{Infra}
use kuidapps.Prelude.{
  true, map, List, Bool, none, arith, [], ◌∷◌, false, Option, All, ◌≡◌, String, refl, some,
}
use kuidapps.Reconcile.Params
use kuidapps.Reconcile.Order.{
  device_false, device_not_true, device_true, set_device-ordered, param_false, param_true,
  set_param-ordered, Kept, AreOrderedIn, IsOrdered,
}

module _ (infra : Infra) (codec : Codec) {S : Type 0} (k : Kuid S) (laws : IsConditioned k)
    (cl : Cluster S) (namespace name : String) (cr : StoredNetwork S) (o : IsOrdered k cr)
    (stored : cl.get_network namespace name ≡ found cr) where
  abbrev Fine : Request S → Type 0
  Fine = Kept k cr.deleted

  param_fails :
      (msg : String) (e : Option Error)
      → (cr.deleted ≡ false
          → is_true (get_condition k condition_type_network_param_ready cr).status ≡ false)
      → AreOrderedIn k cr.deleted (Params.handle_error k msg e cr)
  unfolding Params.handle_error network_param_failed
  param_fails msg e h = set_param-ordered k laws cr.deleted _ cr refl (param_false o h)

  param_ready : AreOrderedIn k cr.deleted (set_conditions k (network_param_ready ∷ []) cr)
  unfolding network_param_ready
  param_ready = set_param-ordered k laws cr.deleted network_param_ready cr refl (param_true o)

  pub params-Kept : All Fine (Params.reconcile infra k cl namespace name).requests
  unfolding Params.reconcile Params.reconcile_network Params.apply_default_network
      Params.reconcile_ready update_and_return
  params-Kept = rw stored (
      if-Each Fine cr.deleted _ _
        (λ d.
          delete_network-Each Fine cl (Params.handle_error k) cr tt tt
            λ msg e. param_fails msg (some e) λ alive. ground (arith, alive, d))
        λ d.
          if-Each Fine (is_true (get_condition k condition_type_network_param_ready cr).status) _ _
            (λ h. tt)
            λ open_param.
              attempt-Each Fine cl add_finalizer _ _ tt
                (λ e. (param_fails "cannot add finalizer" (some e) λ a. open_param, tt))
                (with_read-Each Fine cl (get_default_design cl cr) _ _ (λ e. tt)
                  λ nd designed.
                    if-Each Fine (is_default_network cr.network) _ _
                      (λ default.
                        with_read-Each Fine cl
                          (Params.default_network_claims infra k cl nd.design cr) _ _
                          (λ e. (param_fails "cannot apply resource" (some e) λ a. open_param, tt))
                          λ cs c.
                            attempt-Each Fine cl (apply_claims cs) _ _ tt
                              (λ e.
                                (param_fails "cannot apply resource" (some e) λ a. open_param, tt))
                              (param_ready, tt))
                      λ other. (param_ready, tt)))

  device_fails :
      (msg : String) (e : Option Error)
      → (cr.deleted ≡ false
          → is_true (get_condition k condition_type_network_device_ready cr).status ≡ false)
      → AreOrderedIn k cr.deleted (Device.handle_error k msg e cr)
  unfolding Device.handle_error network_device_failed
  device_fails msg e h = set_param-ordered k laws cr.deleted _ cr refl (device_not_true o h)

  device_condition :
      (ready failures : Bool) (statuses : List NetworkStatusDeviceStatus)
      → is_false (get_condition k condition_type_network_param_ready cr).status ≡ false
      → is_true (get_condition k condition_type_network_device_ready cr).status ≡ false
      → AreOrderedIn k cr.deleted (
          Device.reported k (record { ready = ready; failures = failures; statuses = statuses }) cr)
  unfolding Device.reported network_device_ready network_device_failed network_device_processing
      get_condition
  device_condition true failures statuses param device =
      let r = record cr { status = record (cr.status) { devices_config_status = statuses } } in
      set_device-ordered k laws cr.deleted network_device_ready r refl (device_true o param)
  device_condition false true statuses param device =
      let r = record cr { status = record (cr.status) { devices_config_status = statuses } } in
      set_param-ordered k laws cr.deleted
        (network_device_failed "some devices failed, see device status list") r refl
        (device_not_true o λ alive. device)
  device_condition false false statuses param device =
      let r = record cr { status = record (cr.status) { devices_config_status = statuses } } in
      set_device-ordered k laws cr.deleted
        (network_device_processing k "some devices are still processing") r refl (device_false o)

  devices_checked :
      is_false (get_condition k condition_type_network_param_ready cr).status ≡ false
      → is_true (get_condition k condition_type_network_device_ready cr).status ≡ false
      → Each Fine (Device.check_devices infra k cl cr)
  unfolding Device.check_devices update_and_return
  devices_checked param device =
      with_read-Each Fine cl cl.list_network_devices _ _
        (λ e. (device_fails "cannot gather network device status" (some e) λ a. device, tt))
        λ nds h.
          let c = are_all_device_configs_ready k.reason_failed cr.uid (map (λ nd. nd.object) nds) in
          (device_condition c.ready c.failures c.statuses param device, tt)

  devices_applied :
      (nd : StoredDesign)
      → is_false (get_condition k condition_type_network_param_ready cr).status ≡ false
      → is_true (get_condition k condition_type_network_device_ready cr).status ≡ false
      → Each Fine (Device.apply infra k cl nd cr)
  unfolding Device.apply update_and_return
  devices_applied nd param device =
      with_read-Each Fine cl (Device.built_devices infra k cl nd cr) _ _
        (λ e. (device_fails "cannot apply resource" (some e) λ a. device, tt))
        λ ds b.
          attempt-Each Fine cl (apply_devices ds) _ _ tt
            (λ e. (device_fails "cannot apply resource" (some e) λ a. device, tt))
            (devices_checked param device)

  pub devices-Kept :
      cl.refuses add_finalizer ≡ none
      → All Fine (Device.reconcile infra k cl namespace name).requests
  unfolding Device.reconcile Device.reconcile_network attempt
  devices-Kept accepted =
      rw (stored, accepted)
        (if-Each Fine cr.deleted _ _
          (λ d.
            delete_network-Each Fine cl (Device.handle_error k) cr tt tt
              λ msg e. device_fails msg (some e) λ alive. ground (arith, alive, d))
          λ d. (
            tt,
            if-Each Fine (is_false (get_condition k condition_type_network_param_ready cr).status) _
                _ (λ h. tt)
                λ param.
                  if-Each Fine
                    (is_true (get_condition k condition_type_network_device_ready cr).status) _ _
                    (λ h. tt)
                    λ device.
                      with_read-Each Fine cl (get_default_design cl cr) _ _ (λ e. tt)
                        λ nd designed. devices_applied nd param device,
          ))
