-- ===== src/Reconcile/Order/Deploys.antt =====
-- What a reconcile of the network leaves of the order of the child conditions
-- (pkg/reconcilers/network/reconciler.go).
use kuidapps.Conditions.Overall.{if-kind}
use kuidapps.Reconcile.Owned.{Collected, are_all_device_configs_ready}
use kuidapps.Reconcile.Requests.{attempt-Each, with_read-Each, if-Each, Each}
use kuidapps.Outcome.{Error}
use kuidapps.Conditions.Stored.{
  get_condition, get_processing_message, are_child_conditions_ready, get_failed_message,
  did_a_child_condition_fail, set_conditions, StoredNetwork,
}
use kuidapps.Reconcile.{apply_configs, error_message, update_and_return, Request, Cluster}
use kuidapps.Conditions.{
  condition_type_network_device_ready, condition_type_network_param_ready,
  network_device_processing, network_param_processing, IsConditioned, Kuid,
}
use kuidapps.Reconcile.Deploy.{Codec}
use kuidapps.Prelude.{
  [], ◌∷◌, inr, inl, Bool-cases, if◌then◌else◌, Option, Bool, String, none, some,
}
use kuidapps.Reconcile.Deploy
use kuidapps.Reconcile.Order.{both_false, overall-ordered, Kept, AreOrderedIn}

module _ (codec : Codec) {S : Type 0} (k : Kuid S) (laws : IsConditioned k) (cl : Cluster S)
    (x : Bool) where
  abbrev Fine : Request S → Type 0
  Fine = Kept k x

  module _ (r : StoredNetwork S) (o : AreOrderedIn k x r) where
    pub fails : (msg : String) (e : Option Error) → AreOrderedIn k x (Deploy.handle_error k msg e r)
    unfolding Deploy.handle_error
    fails msg e =
        overall-ordered k laws x (k.failed (error_message k msg e)) r
          (laws.failed_kind (error_message k msg e)) o

    reported-ordered : (c : Collected) → AreOrderedIn k x (Deploy.reported k c r)
    unfolding Deploy.reported get_condition
    reported-ordered c =
        let r' = record r { status = record (r.status) { devices_deploy_status = c.statuses } } in
        let rest =
          if c.failures
          then k.failed "some devices failed, see device status list"
          else k.processing "some devices are still processing" in
        overall-ordered k laws x (if c.ready then k.ready else rest) r'
          (if-kind c.ready k.ready rest laws.ready_kind (
            if-kind c.failures (k.failed "some devices failed, see device status list")
              (k.processing "some devices are still processing")
              (laws.failed_kind "some devices failed, see device status list")
              (laws.processing_kind "some devices are still processing")))
          o

    waiting-ordered : AreOrderedIn k x (Deploy.waiting k r)
    unfolding Deploy.waiting
    waiting-ordered =
        overall-ordered k laws x
          (if did_a_child_condition_fail k r
            then k.failed (get_failed_message k r)
            else k.processing (get_processing_message k r))
          r
          (if-kind (did_a_child_condition_fail k r) (k.failed (get_failed_message k r))
            (k.processing (get_processing_message k r)) (laws.failed_kind (get_failed_message k r))
            (laws.processing_kind (get_processing_message k r)))
          o

    check_devices-Kept : Each Fine (Deploy.check_devices codec k cl r)
    unfolding Deploy.check_devices update_and_return
    check_devices-Kept =
        with_read-Each Fine cl cl.list_configs _ _
          (λ e. (fails "cannot gather network device status" (some e), tt))
          λ os h. (reported-ordered (are_all_device_configs_ready k.reason_failed r.uid os), tt)

    apply-Kept : Each Fine (Deploy.apply codec k cl r)
    unfolding Deploy.apply update_and_return
    apply-Kept =
        with_read-Each Fine cl (Deploy.deployed_configs codec k cl r) _ _
          (λ e. (fails "cannot apply resource" (some e), tt))
          λ cs h.
            attempt-Each Fine cl (apply_configs cs) _ _ tt
              (λ e. (fails "cannot apply resource" (some e), tt)) check_devices-Kept

    pub deploy-Kept : Each Fine (Deploy.deploy codec k cl r)
    unfolding Deploy.deploy update_and_return
    deploy-Kept =
        if-Each Fine (are_child_conditions_ready k r) _ _ (λ h. apply-Kept)
          λ h. (waiting-ordered, tt)

  reset-ordered : (r : StoredNetwork S) → AreOrderedIn k x (Deploy.reset k r)
  unfolding Deploy.reset get_condition set_conditions network_param_processing
      network_device_processing
  reset-ordered r =
      let cs =
        network_param_processing k "config changed"
        ∷ network_device_processing k "config changed"
        ∷ [] in
      rw
        (
          laws.get-set condition_type_network_param_ready cs r.status.conditioned,
          laws.get-set condition_type_network_device_ready cs r.status.conditioned,
        )
        both_false

  -- The children of a network that is found changed are reset; else it is as it was.
  pub changed-ordered :
      (hash : Option String) (version : String) (r : StoredNetwork S)
      → AreOrderedIn k x r
      → AreOrderedIn k x (Deploy.reset_children codec k cl (Deploy.changed_by codec hash version r))
  changed-ordered none version r o = reset-ordered r
  changed-ordered (some hash) version r o =
      elim (Bool-cases (Deploy.not_changed hash version r.status.used_references)) [
        | inl same ↦ rw same o
        | inr changed ↦ rw changed (reset-ordered _)
      ]
