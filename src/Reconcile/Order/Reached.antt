-- ===== src/Reconcile/Order/Reached.antt =====
-- What holds of a network whatever its reconcilers and its users do, in any order
-- (pkg/reconcilers/network, networkparams and networkdevice).
use kuidapps.Reconcile.Order.Deploys.{fails, deploy-Kept, changed-ordered}
use kuidapps.Reconcile.Order.Rounds.{params-Kept, devices-Kept}
use kuidapps.Reconcile.Gate.Deploy.{reconcile-AreDeployed}
use mathlib.Core.Path.{subst}
use kuidapps.Builder.State.{get}
use kuidapps.Reconcile.Requests.{with_read-Each, attempt-Each, delete_network-Each, if-Each}
use kuidapps.Reconcile.System.{
  claims, builds, edits, annotates, deletes, deploys, here, next, deploys, Step, device_round,
  param_round, Reach, network_round,
}
use kuidapps.Reconcile.Gate.{OnConfigs}
use kuidapps.Conditions.{
  condition_type_network_device_ready, condition_type_network_param_ready, is_true,
  child_conditions, IsConditioned, Kuid,
}
use kuidapps.Reconcile.Deploy.{Codec}
use kuidapps.Reconcile.{
  get_default_design, delete_owned, remove_finalizer, add_finalizer, update_status, apply_configs,
  update_and_return, apply_devices, Cluster, apply_claims, found, Request, Config, Answer,
}
use kuidapps.Infra.{Infra}
use kuidapps.Conditions.Stored.{
  get_condition, none_false, are_child_conditions_ready, StoredNetwork,
}
use kuidapps.Prelude.{
  All-mono, ◌∙◌, sym, ap, arith, is_some, true, ◌≡◌, String, All, List, none, some,
}
use kuidapps.Reconcile.Deploy
use kuidapps.Reconcile.Order.{perform-Kept, Kept, IsOrdered}

OnConfigs-mono :
    {S : Type 0} {P Q : List Config → Type 0}
    → ((cs : List Config) → P cs → Q cs)
    → (q : Request S) → OnConfigs P q
    → OnConfigs Q q
OnConfigs-mono f add_finalizer h = tt
OnConfigs-mono f remove_finalizer h = tt
OnConfigs-mono f delete_owned h = tt
OnConfigs-mono f (apply_claims l) h = tt
OnConfigs-mono f (apply_devices l) h = tt
OnConfigs-mono f (apply_configs l) h = f l h
OnConfigs-mono f (update_status r) h = tt

abbrev found_or : {S : Type 0} → StoredNetwork S → Answer (StoredNetwork S) → StoredNetwork S
found_or s (found t) = t
found_or s _ = s

module _ (infra : Infra) (codec : Codec) {S : Type 0} (k : Kuid S) (laws : IsConditioned k)
    (namespace name : String) where
  deploys-Kept :
      (cl : Cluster S) (s : StoredNetwork S)
      → cl.get_network namespace name ≡ found s
      → IsOrdered k s
      → All (Kept k s.deleted) (Deploy.reconcile codec k cl namespace name).requests
  unfolding Deploy.reconcile Deploy.reconcile_network Deploy.has_config_changed update_and_return
  deploys-Kept cl s stored o =
      let Fine = Kept k s.deleted in
      rw stored (
        if-Each Fine (is_some (get "kuid.dev/gitops" s.annotations)) _ _ (λ g. tt)
          λ g.
            if-Each Fine s.deleted _ _
              (λ d.
                delete_network-Each Fine cl (Deploy.handle_error k) s tt tt
                  λ msg e. fails codec k laws cl s.deleted s o msg (some e))
              λ d.
                attempt-Each Fine cl add_finalizer _ _ tt
                  (λ e. (fails codec k laws cl s.deleted s o "cannot add finalizer" (some e), tt))
                  (with_read-Each Fine cl (get_default_design cl s) _ _
                    (λ e. (
                      fails codec k laws cl s.deleted s o
                          "cannot reconcile a network without a default network design" none,
                      tt,
                    ))
                    λ nd designed. deploy-Kept codec k laws cl s.deleted _ (
                      changed-ordered codec k laws cl s.deleted (codec.spec_hash s.network.spec)
                        nd.resource_version s o)))

  Step-IsOrdered :
      {s t : StoredNetwork S}
      → Step infra codec k namespace name s t
      → IsOrdered k s
      → IsOrdered k t
  unfolding network_round param_round device_round get_condition
  Step-IsOrdered {s} (deploys cl stored) o = perform-Kept k cl _ s (deploys-Kept cl s stored o) o
  Step-IsOrdered {s} (claims cl stored) o =
      perform-Kept k cl _ s (params-Kept infra codec k laws cl namespace name s o stored) o
  Step-IsOrdered {s} (builds cl stored accepted) o =
      perform-Kept k cl _ s (devices-Kept infra codec k laws cl namespace name s o stored accepted)
        o
  Step-IsOrdered (edits network) o = o
  Step-IsOrdered (annotates annotations) o = o
  Step-IsOrdered deletes o = ground arith

  -- Whatever the reconcilers and the users do, in any order, and whatever the API server answers
  -- apart from refusing a finalizer to the reconciler of the devices: if it holds at first that both
  -- child conditions are true or false and that unless the network is being deleted the condition
  -- of the devices is true only where that of the parameters is, then it holds ever after.
  pub Reach-IsOrdered :
      {s t : StoredNetwork S}
      → IsOrdered k s
      → Reach infra codec k namespace name s t
      → IsOrdered k t
  Reach-IsOrdered o here = o
  Reach-IsOrdered o (next r st) = Step-IsOrdered st (Reach-IsOrdered o r)

  children_true :
      (s : StoredNetwork S)
      → IsOrdered k s
      → are_child_conditions_ready k s ≡ true
      → (is_true (get_condition k condition_type_network_param_ready s).status ≡ true)
        × (is_true (get_condition k condition_type_network_device_ready s).status ≡ true)
  unfolding are_child_conditions_ready none_false child_conditions
  children_true s o h = ground arith

  -- In each state that is reached from one where both child conditions are true or false, and
  -- unless the network is being deleted that of the devices is true only where that of the
  -- parameters is, the reconciler of the network applies configurations only where both are true.
  pub Reach-deploys :
      {s t : StoredNetwork S} (cl : Cluster S)
      → IsOrdered k s
      → Reach infra codec k namespace name s t
      → cl.get_network namespace name ≡ found t
      → All
          (OnConfigs (λ cs.
            (is_true (get_condition k condition_type_network_param_ready t).status ≡ true)
            × (is_true (get_condition k condition_type_network_device_ready t).status ≡ true)))
          (Deploy.reconcile codec k cl namespace name).requests
  Reach-deploys {s} {t} cl o r stored =
      All-mono _
        (OnConfigs-mono λ cs d. children_true t (Reach-IsOrdered o r) (
          subst (λ c. are_child_conditions_ready k c ≡ true)
            (ap (found_or t) (sym d.1.inputs.read ∙ stored)) d.1.children))
        (reconcile-AreDeployed codec k cl namespace name laws)
