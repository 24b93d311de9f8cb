-- ===== src/Reconcile/Deploy.antt =====
-- The reconciler of a network (pkg/reconcilers/network/reconciler.go): it resets the child
-- conditions when the network or its design has changed, waits for them, and deploys the
-- configurations of the devices. Hashing and parsing, by the standard library, are a parameter.
use text.Mathlib.Text.{◌==◌ as str_eq}
use kuidapps.Prelude.{
  String, Bool, true, false, ◌&&◌, Option, none, some, List, [], ◌∷◌, if◌then◌else◌, is_some,
}
use kuidapps.Outcome.{Error, Outcome, ok, err, config_empty, ◌>>=◌}
use kuidapps.Network.{NetworkSpec}
use kuidapps.Builder.State.{get}
use kuidapps.Conditions.{
  Kuid, NetworkStatusUsedReferences, network_param_processing, network_device_processing,
}
use kuidapps.Conditions.Stored.{
  StoredNetwork, set_conditions, set_overall_status, did_a_child_condition_fail, get_failed_message,
  get_processing_message, are_child_conditions_ready,
}
use kuidapps.Reconcile.{
  StoredDesign, StoredDevice, Config, Cluster, Run, attempt, add_finalizer, apply_configs, requeue,
  no_requeue, after_two_seconds, done, update_and_return, with_read, with_network, delete_network,
  error_message, get_default_design,
}
use kuidapps.Reconcile.Owned.{Collected, are_all_device_configs_ready}

-- The hash of a specification, in base 64, if there is one, and the configuration in a text.
pub record Codec : Type 0 where
  pub spec_hash : NetworkSpec → Option String
  pub unmarshal : String → Outcome Config

-- A device stands in the result once for each owner reference to the network.
unfoldable pub owned_once :
    String → StoredDevice → List String → List StoredDevice → List StoredDevice
owned_once uid nd [] rest = rest
owned_once uid nd (u ∷ us) rest =
    let more = owned_once uid nd us rest in if str_eq u uid then nd ∷ more else more

unfoldable pub owned_devices : String → List StoredDevice → List StoredDevice
unfolding owned_once
owned_devices uid [] = []
owned_devices uid (nd ∷ nds) = owned_once uid nd nd.object.owners (owned_devices uid nds)

abbrev pub not_changed : String → String → Option NetworkStatusUsedReferences → Bool
not_changed hash version none = false
not_changed hash version (some u) =
    str_eq u.network_spec_hash hash && str_eq u.network_design_resource_version version

module _ {S : Type 0} (k : Kuid S) where
  unfoldable pub handle_error : String → Option Error → StoredNetwork S → StoredNetwork S
  unfolding set_conditions set_overall_status
  handle_error msg e cr =
      set_overall_status k (set_conditions k (k.failed (error_message k msg e) ∷ []) cr)

  -- The status of each device, and the ready condition, which the overall status then overwrites.
  unfoldable pub reported : Collected → StoredNetwork S → StoredNetwork S
  unfolding set_conditions set_overall_status
  reported c cr = set_overall_status k (
      set_conditions k
        ((if c.ready
            then k.ready
            else if c.failures
            then k.failed "some devices failed, see device status list"
            else k.processing "some devices are still processing")
          ∷ [])
        (record cr { status = record (cr.status) { devices_deploy_status = c.statuses } }))

  -- Child conditions that are not ready: the ready condition, which the overall status overwrites.
  unfoldable pub waiting : StoredNetwork S → StoredNetwork S
  unfolding set_conditions set_overall_status did_a_child_condition_fail get_failed_message
      get_processing_message
  waiting cr = set_overall_status k (
      set_conditions k
        ((if did_a_child_condition_fail k cr
            then k.failed (get_failed_message k cr)
            else k.processing (get_processing_message k cr))
          ∷ [])
        cr)

  unfoldable pub reset : StoredNetwork S → StoredNetwork S
  unfolding set_conditions network_param_processing network_device_processing
  reset cr =
      set_conditions k
        (network_param_processing k "config changed"
          ∷ network_device_processing k "config changed"
          ∷ [])
        cr

module _ (codec : Codec) where
  abbrev pub configs_of_raw : Option (Option String) → Outcome Config
  configs_of_raw (some (some raw)) = codec.unmarshal raw
  configs_of_raw _ = err config_empty

  unfoldable pub configs : List StoredDevice → Outcome (List Config)
  configs [] = ok []
  configs (nd ∷ nds) = configs_of_raw nd.provider_config >>= λ c. configs nds >>= λ cs. ok (c ∷ cs)

  module _ {S : Type 0} where
    abbrev pub changed_by : Option String → String → StoredNetwork S → Bool × StoredNetwork S
    changed_by none version cr = (true, cr)
    changed_by (some hash) version cr =
        if not_changed hash version cr.status.used_references then (false, cr) else (
          true,
          record cr {
            status = record (cr.status) {
              used_references =
                  some (record {
                    network_spec_hash = hash;
                    network_design_resource_version = version;
                  });
            };
          },
        )

    -- Has the network changed, or its design, since the status was written? The network keeps what
    -- it is compared with.
    unfoldable pub has_config_changed : StoredNetwork S → StoredDesign → Bool × StoredNetwork S
    has_config_changed cr nd = changed_by (codec.spec_hash cr.network.spec) nd.resource_version cr

  module _ {S : Type 0} (k : Kuid S) (cl : Cluster S) where
    abbrev pub fail_after : String → StoredNetwork S → Error → Run S
    fail_after msg cr e = update_and_return cl after_two_seconds (handle_error k msg (some e) cr)

    unfoldable pub check_devices : StoredNetwork S → Run S
    unfolding with_read reported handle_error update_and_return are_all_device_configs_ready
    check_devices cr =
        with_read cl cl.list_configs (fail_after "cannot gather network device status" cr) λ os.
          update_and_return cl no_requeue
            (reported k (are_all_device_configs_ready k.reason_failed cr.uid os) cr)

    -- What `apply` applies.
    unfoldable pub deployed_configs : StoredNetwork S → Outcome (List Config)
    unfolding configs owned_devices
    deployed_configs cr = cl.list_network_devices >>= λ nds. configs (owned_devices cr.uid nds)

    unfoldable pub apply : StoredNetwork S → Run S
    unfolding with_read deployed_configs attempt handle_error update_and_return check_devices
    apply cr = with_read cl (deployed_configs cr) (fail_after "cannot apply resource" cr) λ cs.
        attempt cl (apply_configs cs) (fail_after "cannot apply resource" cr) (check_devices cr)

    abbrev pub reset_children : Bool × StoredNetwork S → StoredNetwork S
    reset_children (changed, cr) = if changed then reset k cr else cr

    unfoldable pub deploy : StoredNetwork S → Run S
    unfolding are_child_conditions_ready apply waiting update_and_return
    deploy cr =
        if are_child_conditions_ready k cr
        then apply cr
        else update_and_return cl no_requeue (waiting k cr)

    unfoldable pub reconcile_network : StoredNetwork S → Run S
    reconcile_network cr =
        if cr.deleted
        then delete_network cl (handle_error k) cr
        else attempt cl add_finalizer
            (λ e. update_and_return cl requeue (handle_error k "cannot add finalizer" (some e) cr))
            (with_read cl (get_default_design cl cr)
              (λ e. update_and_return cl requeue (
                handle_error k "cannot reconcile a network without a default network design" none
                  cr))
              λ nd. deploy (reset_children (has_config_changed cr nd)))

    -- A network that is deployed by GitOps is left alone.
    unfoldable pub reconcile : String → String → Run S
    unfolding reconcile_network get
    reconcile namespace name = with_network cl (cl.get_network namespace name) λ cr.
        if is_some (get "kuid.dev/gitops" cr.annotations)
        then done no_requeue
        else reconcile_network cr
