-- ===== src/Reconcile/Overall.antt =====
-- What the reconciler of a network writes into its status (pkg/reconcilers/network/reconciler.go):
-- the ready condition of each status that it writes.
use kuidapps.Prelude.{is_some, String, Option, none, some, All}
use kuidapps.Builder.State.{get}
use kuidapps.Outcome.{Error}
use kuidapps.Conditions.{Kuid, IsConditioned}
use kuidapps.Conditions.Stored.{StoredNetwork, are_child_conditions_ready}
use kuidapps.Conditions.Overall.{IsOverall, set_overall_status-IsOverall}
use kuidapps.Reconcile.{
  get_default_design, update_and_return, Request, add_finalizer, apply_configs, update_status,
  Cluster,
}
use kuidapps.Reconcile.Owned.{are_all_device_configs_ready, Collected}
use kuidapps.Reconcile.Deploy.{
  deployed_configs, Codec, handle_error, reported, check_devices, apply, waiting, deploy,
  reconcile_network, reconcile,
}
use kuidapps.Reconcile.Requests.{
  Each, if-Each, attempt-Each, with_read-Each, with_network-Each, delete_network-Each,
}

-- The status that a request writes has the property.
abbrev pub OnStatus : {S : Type 0} → (StoredNetwork S → Type 0) → Request S → Type 0
OnStatus P (update_status cr) = P cr
OnStatus P _ = Unit

module _ (codec : Codec) {S : Type 0} (k : Kuid S) (laws : IsConditioned k) (cl : Cluster S) where
  abbrev Fine : Request S → Type 0
  Fine = OnStatus (IsOverall k)

  handle_error-IsOverall :
      (msg : String) (e : Option Error) (cr : StoredNetwork S)
      → IsOverall k (handle_error k msg e cr)
  unfolding handle_error
  handle_error-IsOverall msg e cr = set_overall_status-IsOverall k laws _

  reported-IsOverall : (c : Collected) (cr : StoredNetwork S) → IsOverall k (reported k c cr)
  unfolding reported
  reported-IsOverall c cr = set_overall_status-IsOverall k laws _

  waiting-IsOverall : (cr : StoredNetwork S) → IsOverall k (waiting k cr)
  unfolding waiting
  waiting-IsOverall cr = set_overall_status-IsOverall k laws _

  check_devices-IsOverall : (cr : StoredNetwork S) → Each Fine (check_devices codec k cl cr)
  unfolding check_devices reported update_and_return
  check_devices-IsOverall cr =
      with_read-Each Fine cl cl.list_configs _ _
        (λ e. (handle_error-IsOverall "cannot gather network device status" (some e) cr, tt))
        λ os h. (reported-IsOverall (are_all_device_configs_ready k.reason_failed cr.uid os) cr, tt)

  apply-IsOverall : (cr : StoredNetwork S) → Each Fine (apply codec k cl cr)
  unfolding apply update_and_return
  apply-IsOverall cr =
      with_read-Each Fine cl (deployed_configs codec k cl cr) _ _
        (λ e. (handle_error-IsOverall "cannot apply resource" (some e) cr, tt))
        λ cs h.
          attempt-Each Fine cl (apply_configs cs) _ _ tt
            (λ e. (handle_error-IsOverall "cannot apply resource" (some e) cr, tt))
            (check_devices-IsOverall cr)

  deploy-IsOverall : (cr : StoredNetwork S) → Each Fine (deploy codec k cl cr)
  unfolding deploy update_and_return
  deploy-IsOverall cr =
      if-Each Fine (are_child_conditions_ready k cr) _ _ (λ h. apply-IsOverall cr)
        λ h. (waiting-IsOverall cr, tt)

  reconcile_network-IsOverall : (cr : StoredNetwork S) → Each Fine (reconcile_network codec k cl cr)
  unfolding reconcile_network update_and_return
  reconcile_network-IsOverall cr =
      if-Each Fine cr.deleted _ _
        (λ h.
          delete_network-Each Fine cl (handle_error k) cr tt tt
            λ msg e. handle_error-IsOverall msg (some e) cr)
        λ h.
          attempt-Each Fine cl add_finalizer _ _ tt
            (λ e. (handle_error-IsOverall "cannot add finalizer" (some e) cr, tt))
            (with_read-Each Fine cl (get_default_design cl cr) _ _
              (λ e. (
                handle_error-IsOverall "cannot reconcile a network without a default network design"
                    none cr,
                tt,
              ))
              λ nd e. deploy-IsOverall _)

  -- In each status that the reconciler of a network writes, on every path and whatever the API
  -- server answers, the ready condition is true just where neither child condition is false.
  pub reconcile-IsOverall :
      (namespace name : String) → All Fine (reconcile codec k cl namespace name).requests
  unfolding reconcile
  reconcile-IsOverall namespace name =
      with_network-Each Fine cl (cl.get_network namespace name) _ λ cr h.
        if-Each Fine (is_some (get "kuid.dev/gitops" cr.annotations)) _ _ (λ g. tt)
          λ g. reconcile_network-IsOverall cr
