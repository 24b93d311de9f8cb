-- ===== src/Reconcile/Progress/Ready.antt =====
-- A network that the API server serves becomes ready, after a round of the reconciler of the
-- network, of the parameters, of the devices and again of the network (pkg/reconcilers/network,
-- networkparams and networkdevice).
use kuidapps.Reconcile.Deploy
use kuidapps.Reconcile.Deploy
use kuidapps.Reconcile.Deploy
use kuidapps.Reconcile.Deploy
use kuidapps.Reconcile.Deploy
use kuidapps.Reconcile.Deploy
use kuidapps.Reconcile.Deploy
use kuidapps.Reconcile.Deploy
use kuidapps.Reconcile.Deploy
use kuidapps.Reconcile.Deploy
use kuidapps.Reconcile.Deploy
use kuidapps.Reconcile.Deploy
use kuidapps.Reconcile.Deploy
use kuidapps.Reconcile.Deploy
use kuidapps.Reconcile.Deploy
use kuidapps.Reconcile.Deploy
use kuidapps.Reconcile.Deploy
use kuidapps.Reconcile.Deploy
use kuidapps.Reconcile.Deploy
use kuidapps.Reconcile.Deploy
use kuidapps.Reconcile.Deploy
use kuidapps.Reconcile.Deploy
use kuidapps.Reconcile.Deploy
use kuidapps.Reconcile.Deploy
use kuidapps.Reconcile.Deploy
use kuidapps.Reconcile.Deploy
use kuidapps.Reconcile.Deploy
use kuidapps.Reconcile.Deploy
use kuidapps.Conditions.Overall.{
  are_child_conditions_ready-set, if-kind, set_overall_status-IsOverall,
  are_child_conditions_ready-set_overall_status,
}
use kuidapps.Reconcile.Progress.Devices.{device_round-serve}
use kuidapps.Reconcile.Progress.Claims.{param_round-serve}
use kuidapps.Reconcile.System.{param_round, device_round, network_round}
use kuidapps.Reconcile.Owned.{are_all_device_configs_ready, Collected}
use kuidapps.Reconcile.{Cluster}
use kuidapps.Conditions.{
  NetworkStatusDeviceStatus, child_conditions, NetworkStatusUsedReferences, network_param_ready,
  network_device_ready, condition_type_network_param_ready, condition_type_network_device_ready,
  is_true, IsConditioned, Kuid,
}
use kuidapps.Reconcile.Deploy.{Codec}
use kuidapps.Infra.{Infra}
use kuidapps.Conditions.Stored.{
  none_false, are_child_conditions_ready, NetworkStatus, set_overall_status, set_conditions,
  get_condition, StoredNetwork,
}
use kuidapps.Prelude.{
  List, map, inr, inl, Bool-cases, ◌∙◌, ap, none, refl, eq_iff, if◌then◌else◌, arith, Option, Bool,
  String, [], ◌∷◌, true, false, ◌≡◌, some,
}
use kuidapps.Reconcile.Deploy
use kuidapps.Reconcile.Device
use kuidapps.Reconcile.Progress.{serve, IsServed}
use kuidapps.Reconcile.Progress.Same.{IsServed-same, IsSame}
use kuidapps.Reconcile.Progress.Deploys.{network_round-serve}

module _ (infra : Infra) (codec : Codec) {S : Type 0} (k : Kuid S) where
  abbrev ParamIsTrue : StoredNetwork S → Type 0
  ParamIsTrue t = is_true (get_condition k condition_type_network_param_ready t).status ≡ true

  abbrev DeviceIsTrue : StoredNetwork S → Type 0
  DeviceIsTrue t = is_true (get_condition k condition_type_network_device_ready t).status ≡ true

  module _ (laws : IsConditioned k) where
    param_set : (t : StoredNetwork S) → ParamIsTrue (set_conditions k (network_param_ready ∷ []) t)
    unfolding get_condition set_conditions network_param_ready
    param_set t = rw (
        laws.get-set condition_type_network_param_ready (network_param_ready ∷ [])
          t.status.conditioned)

    device_set :
        (c : Collected) (t : StoredNetwork S)
        → c.ready ≡ true
        → ParamIsTrue t
        → DeviceIsTrue (Device.reported k c t) × ParamIsTrue (Device.reported k c t)
    unfolding Device.reported get_condition set_conditions network_device_ready
    device_set c t ready param = (simp (ready, laws.get-set), simp (ready, laws.get-set) param)

    children_same :
        (statuses : List NetworkStatusDeviceStatus) (t : StoredNetwork S)
        → are_child_conditions_ready k
            (record t { status = record (t.status) { devices_deploy_status = statuses } })
          ≡ are_child_conditions_ready k t
    unfolding are_child_conditions_ready none_false get_condition
    children_same statuses t = refl

    deployed_ready :
        (c : Collected) (t : StoredNetwork S)
        → c.ready ≡ true
        → are_child_conditions_ready k t ≡ true
        → (is_true (get_condition k k.condition_type_ready (Deploy.reported k c t)).status ≡ true)
          × (are_child_conditions_ready k (Deploy.reported k c t) ≡ true)
    unfolding Deploy.reported
    deployed_ready c t ready children =
        let t' = record t { status = record (t.status) { devices_deploy_status = c.statuses } } in
        let rest =
          if c.failures
          then k.failed "some devices failed, see device status list"
          else k.processing "some devices are still processing" in
        let reported = if c.ready then k.ready else rest in
        let r = set_conditions k (reported ∷ []) t' in
        let kind = if-kind c.ready k.ready rest laws.ready_kind (
          if-kind c.failures (k.failed "some devices failed, see device status list")
            (k.processing "some devices are still processing")
            (laws.failed_kind "some devices failed, see device status list")
            (laws.processing_kind "some devices are still processing")) in
        let all_ready =
          are_child_conditions_ready-set_overall_status k laws r
          ∙ are_child_conditions_ready-set k laws reported t' kind
          ∙ children_same c.statuses t
          ∙ children in
        (set_overall_status-IsOverall k laws r ∙ all_ready, all_ready)

    references_same :
        (hash version : String) (o : Option NetworkStatusUsedReferences)
        → Deploy.not_changed hash version o ≡ true
        → o ≡ some (record { network_spec_hash = hash; network_design_resource_version = version })
    references_same hash version none h = cc
    references_same hash version (some u) h =
        ground
          (arith, eq_iff u.network_spec_hash hash, eq_iff u.network_design_resource_version version)

    module _ (namespace name : String) (cl : Cluster S) (s : StoredNetwork S)
        (w : IsServed infra codec k cl s) where
      abbrev references : NetworkStatusUsedReferences
      references = record {
        network_spec_hash = w.hash;
        network_design_resource_version = w.nd.resource_version;
      }

      -- Nothing but the status has changed, and it has what the network is compared with.
      record IsCompared (t : StoredNetwork S) : Type 0 where
        same : IsSame s t
        used : t.status.used_references ≡ some references

      if-IsCompared :
          (b : Bool) (x y : StoredNetwork S)
          → (b ≡ true → IsCompared x)
          → (b ≡ false → IsCompared y)
          → IsCompared (if b then x else y)
      if-IsCompared true x y h l = h refl
      if-IsCompared false x y h l = l refl

      network_compares : IsCompared (network_round infra codec k namespace name (serve cl s) s)
      unfolding Deploy.reported Deploy.waiting Deploy.reset set_overall_status set_conditions
      network_compares = rw (network_round-serve infra codec k namespace name cl s w laws) (
          if-IsCompared _ _ _
            (λ same.
              let used =
                references_same w.hash w.nd.resource_version s.status.used_references same in
              if-IsCompared _ _ _ (λ h. record { same = refl; used = used })
                λ h. record { same = refl; used = used })
            λ changed. record { same = refl; used = refl })

      not_changed_same :
          (t : StoredNetwork S)
          → IsCompared t
          → Deploy.not_changed w.hash w.nd.resource_version t.status.used_references ≡ true
      not_changed_same t h = rw (
        h.used,
        (eq_iff w.hash w.hash).1 refl,
        (eq_iff w.nd.resource_version w.nd.resource_version).1 refl,
      )

      children_ready :
          (t : StoredNetwork S)
          → ParamIsTrue t
          → DeviceIsTrue t
          → are_child_conditions_ready k t ≡ true
      unfolding are_child_conditions_ready none_false child_conditions
      children_ready t param device = ground arith

      module _ (t : StoredNetwork S) (h : IsCompared t) where
        written :
            (x : NetworkStatus S)
            → x.used_references ≡ t.status.used_references
            → IsCompared (record t { status = x })
        written x e = record {
          same = ap (λ (r : StoredNetwork S). record r { status = x }) h.same;
          used = e ∙ h.used;
        }

        param_compares :
            IsCompared (param_round infra codec k namespace name (serve cl t) t)
            × ParamIsTrue (param_round infra codec k namespace name (serve cl t) t)
        unfolding set_conditions
        param_compares =
            let wt = IsServed-same infra codec k w h.same in
            rw (param_round-serve infra codec k namespace name cl t wt)
              (elim (Bool-cases
                (is_true (get_condition k condition_type_network_param_ready t).status)) [
                  | inl e ↦ rw e (h, e)
                  | inr e ↦ rw e (written _ refl, param_set t)
                ])

        device_compares :
            ParamIsTrue t
            → IsCompared (device_round infra codec k namespace name (serve cl t) t)
              × DeviceIsTrue (device_round infra codec k namespace name (serve cl t) t)
              × ParamIsTrue (device_round infra codec k namespace name (serve cl t) t)
        unfolding Device.reported set_conditions
        device_compares param =
            let wt = IsServed-same infra codec k w h.same in
            rw (device_round-serve infra codec k namespace name cl t wt (ground (arith, param)))
              (elim (Bool-cases
                (is_true (get_condition k condition_type_network_device_ready t).status)) [
                  | inl e ↦ rw e (h, e, param)
                  | inr e ↦ rw e (
                      let c =
                        are_all_device_configs_ready k.reason_failed t.uid
                          (map (λ n. n.object) wt.nds) in
                      (
                        written _ refl,
                        (device_set c t wt.devices_ready param).0,
                        (device_set c t wt.devices_ready param).1,
                      ))
                ])

        network_ready :
            ParamIsTrue t
            → DeviceIsTrue t
            → let t' = network_round infra codec k namespace name (serve cl t) t in
              (is_true (get_condition k k.condition_type_ready t').status ≡ true)
              × (are_child_conditions_ready k t' ≡ true)
        unfolding IsServed-same
        network_ready param device =
            let wt = IsServed-same infra codec k w h.same in
            let c = are_all_device_configs_ready k.reason_failed t.uid wt.os in
            rw
              (
                network_round-serve infra codec k namespace name cl t wt laws,
                not_changed_same t h,
                children_ready t param device,
              )
              (deployed_ready c t wt.configs_ready (children_ready t param device))

      -- A network whose API server serves it: after a round of the reconciler of the network, one of
      -- that of the parameters, one of that of the devices, and again one of that of the network, its
      -- ready condition is true and no child condition is false.
      pub rounds-ready :
          let round = λ (f : Cluster S → StoredNetwork S → StoredNetwork S) (t : StoredNetwork S).
            f (serve cl t) t in
          let t = round (network_round infra codec k namespace name) (
            round (device_round infra codec k namespace name) (
              round
                (param_round infra codec k namespace name)
                (round (network_round infra codec k namespace name) s))) in
          (is_true (get_condition k k.condition_type_ready t).status ≡ true)
          × (are_child_conditions_ready k t ≡ true)
      rounds-ready =
          let t1 = network_round infra codec k namespace name (serve cl s) s in
          let t2 = param_round infra codec k namespace name (serve cl t1) t1 in
          let t3 = device_round infra codec k namespace name (serve cl t2) t2 in
          let (h2, param) = param_compares t1 network_compares in
          let (h3, device, param') = device_compares t2 h2 param in
          network_ready t3 h3 param' device
