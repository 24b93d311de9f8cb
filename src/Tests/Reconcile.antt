-- ===== src/Tests/Reconcile.antt =====
-- A network whose devices are configured, as the reconcilers of a network see it.
use kuidapps.Reconcile.Progress.{serve}
use kuidapps.Reconcile.Order.{IsOrdered}
use kuidapps.Reconcile.Gate.{Inputs, OnDevices, OnConfigs, OnClaims}
use kuidapps.Reconcile.Gate.Deploy as GateDeploy
use kuidapps.Reconcile.Gate.Device as GateDevice
use kuidapps.Reconcile.Gate.Params as GateParams
use kuidapps.Reconcile.Gate.Deploy.{AreDeployed}
use kuidapps.Reconcile.Gate.Device.{AreBuilt}
use kuidapps.Reconcile.Gate.Params.{AreClaimed}
use kuidapps.Reconcile.Order.Reached
use kuidapps.Reconcile.System.{network_round, here, next, deploys}
use kuidapps.Reconcile.Device
use kuidapps.Reconcile.Params
use kuidapps.Conditions.Overall.{IsOverall}
use kuidapps.Reconcile.Overall.{OnStatus}
use kuidapps.Reconcile.{found, OwnedObject, Cluster}
use kuidapps.Outcome.{ok}
use kuidapps.Conditions.Stored.{get_condition, StoredNetwork}
use kuidapps.Reconcile.Deploy.{Codec}
use kuidapps.Conditions.{
  condition_type_network_device_ready, condition_type_network_param_ready, is_true, is_false,
  network_param_ready, condition_false, condition_true, latest, Condition, Kuid, IsConditioned,
  ConditionStatus,
}
use kuidapps.Prelude.{not, ◌≡◌, String, All, refl, none, some, [], ◌∷◌, true, false}
use kuidapps.Tests.Builder.{infra, api, design, network, memory}
use kuidapps.Reconcile.Deploy
use kuidapps.Reconcile.Overall

-- Conditions by their type, that are false until they are set.
abbrev pub Conditions : Type 0
Conditions = String → Condition

abbrev pub condition : String → ConditionStatus → String → Condition
condition kind status message = record {
  kind = kind;
  status = status;
  reason = "";
  message = message;
}

abbrev pub kuid : Kuid Conditions
kuid = record {
  get_condition = λ t s. s t;
  set_conditions = λ cs s t. latest t cs (s t);
  condition_type_ready = "Ready";
  reason_failed = "Failed";
  reason_processing = "Processing";
  ready = condition "Ready" condition_true "";
  failed = λ m. condition "Ready" condition_false m;
  processing = λ m. condition "Ready" condition_false m;
  error_text = λ e. "error";
}

pub laws : IsConditioned kuid
laws = record {
  get-set = λ t cs s. refl;
  ready_kind = refl;
  failed_kind = λ m. refl;
  processing_kind = λ m. refl;
  ready_status = refl;
  failed_status = λ m. refl;
  processing_status = λ m. refl;
  param_apart = refl;
  device_apart = refl;
}

abbrev pub codec : Codec
codec = record { spec_hash = λ s. some "hash"; unmarshal = λ s. ok (record { raw = s }) }

abbrev pub stored : ConditionStatus → StoredNetwork Conditions
stored status = record {
  uid = "uid1";
  deleted = false;
  annotations = [];
  network = network;
  status = record {
    conditioned = λ t. condition t status "";
    devices_config_status = [];
    devices_deploy_status = [];
    used_references =
        some (record { network_spec_hash = "hash"; network_design_resource_version = "1" });
  };
}

abbrev pub object : String → OwnedObject
object name = record {
  name = name;
  owners = "uid1" ∷ [];
  ready = condition "Ready" condition_true "";
}

abbrev pub cluster : ConditionStatus → Cluster Conditions
cluster status = record {
  get_network = λ ns n. found (stored status);
  get_network_design =
      λ ns n. ok (record { design = design; memory = memory; resource_version = "1" });
  list_network_devices = ok (
      record { object = object "topo.default.spine"; provider_config = some (some "interfaces") }
      ∷ []);
  list_configs = ok (object "topo.default.spine" ∷ []);
  list_nodes = λ ns.
      ok
        (record { object = record { name = "spine"; namespace = "ns" }; node_group = "topo" } ∷ []);
  api = api true;
  refuses = λ q. none;
}

reconcile-IsOverall_example :
    All
      (OnStatus (IsOverall kuid))
      (Deploy.reconcile codec kuid (cluster condition_true) "ns" "topo.default").requests
reconcile-IsOverall_example =
    Overall.reconcile-IsOverall codec kuid laws (cluster condition_true) "ns" "topo.default"

reconcile-AreDeployed_example :
    All
      (OnConfigs (λ cs.
        (x : Inputs Conditions) × AreDeployed codec kuid
          (cluster condition_true)
          "ns"
          "topo.default"
          x
          cs))
      (Deploy.reconcile codec kuid (cluster condition_true) "ns" "topo.default").requests
reconcile-AreDeployed_example =
    GateDeploy.reconcile-AreDeployed codec kuid (cluster condition_true) "ns" "topo.default" laws

-- The devices are configured where the parameters are ready and the devices are not.
abbrev param_ready : StoredNetwork Conditions
param_ready = record (stored condition_false) {
  status = record ((stored condition_false).status) {
    conditioned = λ t. latest t (network_param_ready ∷ []) (condition t condition_false "");
  };
}

reconcile-AreBuilt_example :
    All
      (OnDevices (λ ds.
        (x : Inputs Conditions) × AreBuilt infra kuid
          (serve (cluster condition_true) param_ready)
          "ns"
          "topo.default"
          x
          ds))
      (Device.reconcile infra kuid
        (serve (cluster condition_true) param_ready)
        "ns"
        "topo.default").requests
reconcile-AreBuilt_example =
    GateDevice.reconcile-AreBuilt infra kuid (serve (cluster condition_true) param_ready) "ns"
      "topo.default"

reconcile-AreClaimed_example :
    All
      (OnClaims (λ cs.
        (x : Inputs Conditions) × AreClaimed infra kuid
          (cluster condition_false)
          "ns"
          "topo.default"
          x
          cs))
      (Params.reconcile infra kuid (cluster condition_false) "ns" "topo.default").requests
reconcile-AreClaimed_example =
    GateParams.reconcile-AreClaimed infra kuid (cluster condition_false) "ns" "topo.default"

ordered :
    (status : ConditionStatus)
    → is_false status ≡ not (is_true status)
    → IsOrdered kuid (stored status)
unfolding get_condition
ordered status known = record { param_known = known; device_known = known; ordered = λ alive h. h }

Reach-IsOrdered_example : IsOrdered kuid (
    network_round infra codec kuid "ns" "topo.default"
      (cluster condition_false)
      (stored condition_false))
Reach-IsOrdered_example =
    Reached.Reach-IsOrdered infra codec kuid laws "ns" "topo.default" (ordered condition_false refl)
      (next here (deploys (cluster condition_false) refl))

Reach-deploys_example :
    All
      (OnConfigs (λ cs.
        (is_true
            (get_condition kuid condition_type_network_param_ready (stored condition_true)).status
          ≡ true)
        × (is_true
              (get_condition kuid condition_type_network_device_ready
                (stored condition_true)).status
            ≡ true)))
      (Deploy.reconcile codec kuid (cluster condition_true) "ns" "topo.default").requests
Reach-deploys_example =
    Reached.Reach-deploys infra codec kuid laws "ns" "topo.default" (cluster condition_true)
      (ordered condition_true refl) here refl
