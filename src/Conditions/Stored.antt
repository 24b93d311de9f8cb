-- ===== src/Conditions/Stored.antt =====
-- A network as the API server keeps it, with its status, and the methods that read and set its
-- conditions (apis/network/v1alpha1/network_types.go and network_interfaces.go).
use text.Mathlib.Text.{◌==◌ as str_eq}
use kuidapps.Prelude.{String, Bool, true, false, Option, List, [], ◌∷◌, if◌then◌else◌}
use kuidapps.Text.{◌⧺◌}
use kuidapps.Network.{Network}
use kuidapps.Conditions.{
  Condition, Kuid, NetworkStatusDeviceStatus, NetworkStatusUsedReferences, is_false,
  condition_type_network_param_ready, condition_type_network_device_ready, condition_reason_failed,
  child_conditions,
}

pub record NetworkStatus (S : Type 0) : Type 0 where
  pub conditioned : S
  pub devices_config_status : List NetworkStatusDeviceStatus
  pub devices_deploy_status : List NetworkStatusDeviceStatus
  pub used_references : Option NetworkStatusUsedReferences

-- `deleted`: is the deletion timestamp set.
pub record StoredNetwork (S : Type 0) : Type 0 where
  pub uid : String
  pub deleted : Bool
  pub annotations : List (String × String)
  pub network : Network
  pub status : NetworkStatus S

module _ {S : Type 0} (k : Kuid S) where
  unfoldable pub get_condition : String → StoredNetwork S → Condition
  get_condition t r = k.get_condition t r.status.conditioned

  unfoldable pub set_conditions : List Condition → StoredNetwork S → StoredNetwork S
  set_conditions cs r = record r {
    status = record (r.status) { conditioned = k.set_conditions cs r.status.conditioned };
  }

  -- The ready condition, by the two child conditions.
  unfoldable pub overall_condition : StoredNetwork S → Condition
  unfolding get_condition
  overall_condition r =
      let param = get_condition condition_type_network_param_ready r in
      let device = get_condition condition_type_network_device_ready r in
      if is_false param.status
      then k.failed ("network parameters not ready: " ⧺ param.message)
      else if is_false device.status
      then k.failed ("device configs for network not ready: " ⧺ device.message)
      else k.ready

  unfoldable pub set_overall_status : StoredNetwork S → StoredNetwork S
  unfolding overall_condition set_conditions
  set_overall_status r = set_conditions (overall_condition r ∷ []) r

  unfoldable pub any_failed : List String → StoredNetwork S → Bool
  unfolding get_condition
  any_failed [] r = true
  any_failed (t ∷ ts) r =
      let rest = any_failed ts r in
      if str_eq (get_condition t r).reason condition_reason_failed then true else rest

  -- The loop ends with `true` as well.
  unfoldable pub did_a_child_condition_fail : StoredNetwork S → Bool
  unfolding any_failed child_conditions
  did_a_child_condition_fail r = any_failed child_conditions r

  -- The separator is written before the first message, and before no other.
  unfoldable pub failed_messages : Bool → List String → StoredNetwork S → String
  unfolding get_condition
  failed_messages first [] r = ""
  failed_messages first (t ∷ ts) r =
      let c = get_condition t r in
      let failed = str_eq c.reason condition_reason_failed in
      let rest = failed_messages (if failed then false else first) ts r in
      if failed
      then (if first then ";" else "") ⧺ "condition: " ⧺ t ⧺ " failed, msg " ⧺ c.message ⧺ rest
      else rest

  unfoldable pub get_failed_message : StoredNetwork S → String
  unfolding failed_messages child_conditions
  get_failed_message r = failed_messages true child_conditions r

  unfoldable pub processing_messages : Bool → List String → StoredNetwork S → String
  unfolding get_condition
  processing_messages first [] r = ""
  processing_messages first (t ∷ ts) r =
      let waits = is_false (get_condition t r).status in
      let rest = processing_messages (if waits then false else first) ts r in
      if waits
      then (if first then ";" else "") ⧺ "condition: " ⧺ t ⧺ " still processing" ⧺ rest
      else rest

  unfoldable pub get_processing_message : StoredNetwork S → String
  unfolding processing_messages child_conditions
  get_processing_message r = processing_messages true child_conditions r

  unfoldable pub none_false : List String → StoredNetwork S → Bool
  unfolding get_condition
  none_false [] r = true
  none_false (t ∷ ts) r =
      let rest = none_false ts r in if is_false (get_condition t r).status then false else rest

  unfoldable pub are_child_conditions_ready : StoredNetwork S → Bool
  unfolding none_false child_conditions
  are_child_conditions_ready r = none_false child_conditions r
