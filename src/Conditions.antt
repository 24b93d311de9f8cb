-- ===== src/Conditions.antt =====
-- The conditions of a network (apis/network/v1alpha1/condition.go, and the methods of
-- network_interfaces.go that read and set them). Transition times are left out. Kuid's condition
-- package, which keeps the conditions of a status, is a parameter.
pub mod Stored
pub mod Overall
use text.Mathlib.Text.{◌==◌ as str_eq}
use kuidapps.Prelude.{String, Bool, true, false, ◌≡◌, Option, List, [], ◌∷◌, if◌then◌else◌}
use kuidapps.Outcome.{Error}

-- Kubernetes' `ConditionStatus`.
pub data ConditionStatus : Type 0 where
  condition_true condition_false condition_unknown : ConditionStatus

pub record Condition : Type 0 where
  pub kind : String
  pub status : ConditionStatus
  pub reason : String
  pub message : String

abbrev pub is_false : ConditionStatus → Bool
is_false condition_false = true
is_false _ = false

abbrev pub is_true : ConditionStatus → Bool
is_true condition_true = true
is_true _ = false

abbrev pub condition_type_network_param_ready : String
condition_type_network_param_ready = "NetworkPararmReady"

abbrev pub condition_type_network_device_ready : String
condition_type_network_device_ready = "NetworkDeviceReady"

unfoldable pub child_conditions : List String
child_conditions = condition_type_network_param_ready ∷ condition_type_network_device_ready ∷ []

abbrev pub condition_reason_ready : String
condition_reason_ready = "Ready"

abbrev pub condition_reason_failed : String
condition_reason_failed = "Failed"

-- Kuid's condition package: a status that holds conditions, the conditions that it makes, and the
-- texts of errors.
pub record Kuid (S : Type 0) : Type 0 where
  pub get_condition : String → S → Condition
  pub set_conditions : List Condition → S → S
  pub condition_type_ready : String
  pub reason_failed : String
  pub reason_processing : String
  pub ready : Condition
  pub failed : String → Condition
  pub processing : String → Condition
  pub error_text : Error → String

-- The last of the conditions that has the type, or what was there.
abbrev pub latest : String → List Condition → Condition → Condition
latest t [] c = c
latest t (d ∷ ds) c = latest t ds (if str_eq d.kind t then d else c)

-- A status holds one condition for each type, the one set last; the type of the ready condition
-- is not that of a child condition.
pub record IsConditioned {S : Type 0} (k : Kuid S) : Type 0 where
  pub get-set :
      (t : String) (cs : List Condition) (s : S)
      → k.get_condition t (k.set_conditions cs s) ≡ latest t cs (k.get_condition t s)
  pub ready_kind : k.ready.kind ≡ k.condition_type_ready
  pub failed_kind : (m : String) → (k.failed m).kind ≡ k.condition_type_ready
  pub processing_kind : (m : String) → (k.processing m).kind ≡ k.condition_type_ready
  pub ready_status : k.ready.status ≡ condition_true
  pub failed_status : (m : String) → (k.failed m).status ≡ condition_false
  pub processing_status : (m : String) → (k.processing m).status ≡ condition_false
  pub param_apart : str_eq k.condition_type_ready condition_type_network_param_ready ≡ false
  pub device_apart : str_eq k.condition_type_ready condition_type_network_device_ready ≡ false

pub record NetworkStatusDeviceStatus : Type 0 where
  pub node : String
  pub ready : Bool
  pub reason : Option String

pub record NetworkStatusUsedReferences : Type 0 where
  pub network_spec_hash : String
  pub network_design_resource_version : String

-- `NetworkParamReady` and its siblings.
unfoldable pub network_param_ready : Condition
network_param_ready = record {
  kind = condition_type_network_param_ready;
  status = condition_true;
  reason = condition_reason_ready;
  message = "";
}

unfoldable pub network_param_failed : String → Condition
network_param_failed msg = record {
  kind = condition_type_network_param_ready;
  status = condition_false;
  reason = condition_reason_failed;
  message = msg;
}

unfoldable pub network_device_ready : Condition
network_device_ready = record {
  kind = condition_type_network_device_ready;
  status = condition_true;
  reason = condition_reason_ready;
  message = "";
}

-- The source gives it the type of the network parameters.
unfoldable pub network_device_failed : String → Condition
network_device_failed msg = record {
  kind = condition_type_network_param_ready;
  status = condition_false;
  reason = condition_reason_failed;
  message = msg;
}

module _ {S : Type 0} (k : Kuid S) where
  unfoldable pub network_param_processing : String → Condition
  network_param_processing msg = record {
    kind = condition_type_network_param_ready;
    status = condition_false;
    reason = k.reason_processing;
    message = msg;
  }

  unfoldable pub network_device_processing : String → Condition
  network_device_processing msg = record {
    kind = condition_type_network_device_ready;
    status = condition_false;
    reason = k.reason_processing;
    message = msg;
  }
