-- ===== src/Reconcile/Gate.antt =====
-- When the reconcilers of a network apply resources (pkg/reconcilers/network, networkparams and
-- networkdevice): what is read before.
pub mod Deploy
pub mod Device
pub mod Params
use mathlib.Core.Path.{subst}
use kuidapps.Builder.State.{get}
use kuidapps.Schema.{NetworkDevice}
use kuidapps.Reconcile.Requests.{
  delete_network-Each, with_network-Each, if-Each, attempt-Each, with_read-Each, Each,
}
use kuidapps.Conditions.{
  condition_type_network_param_ready, network_device_processing, network_param_processing, Kuid,
  child_conditions, IsConditioned,
}
use kuidapps.Prelude.{
  sym, [], ◌∷◌, Bool, All, true, arith, Option, is_some, List, String, false, ◌≡◌,
}
use kuidapps.Reconcile.Deploy.{
  has_config_changed, deployed_configs, Codec, check_devices, apply, deploy, reset, reset_children,
  changed_by, reconcile_network, reconcile, handle_error,
}
use kuidapps.Conditions.Stored.{
  set_conditions, get_condition, none_false, are_child_conditions_ready, StoredNetwork,
}
use kuidapps.Reconcile.{
  add_finalizer, StoredDesign, Config, Claim, Request, apply_configs, apply_devices, apply_claims,
  found, get_default_design, update_and_return, Cluster,
}
use kuidapps.Outcome.{ok}

-- The lists that requests apply have the property.
abbrev pub OnConfigs : {S : Type 0} → (List Config → Type 0) → Request S → Type 0
OnConfigs P (apply_configs cs) = P cs
OnConfigs P _ = Unit

abbrev pub OnDevices : {S : Type 0} → (List NetworkDevice → Type 0) → Request S → Type 0
OnDevices P (apply_devices ds) = P ds
OnDevices P _ = Unit

abbrev pub OnClaims : {S : Type 0} → (List Claim → Type 0) → Request S → Type 0
OnClaims P (apply_claims cs) = P cs
OnClaims P _ = Unit

-- The network and the design of its topology's default network, as they are read.
pub record Inputs (S : Type 0) : Type 0 where
  pub cr : StoredNetwork S
  pub nd : StoredDesign

-- They are there, and the network is not being deleted.
pub record AreRead {S : Type 0} (cl : Cluster S) (namespace name : String) (x : Inputs S)
    : Type 0 where
  pub read : cl.get_network namespace name ≡ found x.cr
  pub alive : x.cr.deleted ≡ false
  pub designed : get_default_design cl x.cr ≡ ok x.nd
