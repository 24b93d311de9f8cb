-- ===== src/Reconcile/Progress.antt =====
-- A network becomes ready (pkg/reconcilers/network, networkparams and networkdevice): what a round
-- of each reconciler does where the API server serves it.
pub mod Claims
pub mod Devices
pub mod Deploys
pub mod Same
pub mod Ready
use kuidapps.Network.{is_default_network}
use kuidapps.Reconcile.System.{perform, param_round, device_round}
use kuidapps.Reconcile.Owned.{are_all_device_configs_ready}
use kuidapps.Schema.{NetworkDevice}
use kuidapps.Outcome.{ok}
use kuidapps.Builder.State.{get}
use kuidapps.Conditions.Stored.{
  are_child_conditions_ready, set_conditions, get_condition, StoredNetwork,
}
use kuidapps.Reconcile.{
  apply_configs, Run, apply_devices, apply_claims, no_requeue, add_finalizer, preceded, done,
  update_and_return, OwnedObject, Config, StoredDevice, Claim, StoredDesign, Request, with_read,
  get_default_design, found, attempt, Cluster,
}
use kuidapps.Conditions.{
  IsConditioned, condition_type_network_device_ready, network_param_ready, is_false,
  condition_type_network_param_ready, is_true, Kuid,
}
use kuidapps.Reconcile.Deploy.{Codec}
use kuidapps.Infra.{Infra}
use kuidapps.Prelude.{
  [], ◌∷◌, refl, Bool, true, map, List, if◌then◌else◌, is_some, false, ◌≡◌, String, none, some,
}
use kuidapps.Reconcile.Deploy
use kuidapps.Reconcile.Device
use kuidapps.Reconcile.Params

-- The API server with the network stored.
abbrev pub serve : {S : Type 0} → Cluster S → StoredNetwork S → Cluster S
serve cl t = record cl { get_network = λ namespace name. found t }

module _ (infra : Infra) (codec : Codec) {S : Type 0} (k : Kuid S) where
  -- The API server has the design of the network, refuses nothing, answers what is read, and has
  -- the devices and configurations of the network ready; the specification has a hash. The network
  -- is neither being deleted nor deployed by GitOps.
  pub record IsServed (cl : Cluster S) (t : StoredNetwork S) : Type 0 where
    pub alive : t.deleted ≡ false
    pub unmanaged : is_some (get "kuid.dev/gitops" t.annotations) ≡ false
    pub accepts : (q : Request S) → cl.refuses q ≡ none
    pub nd : StoredDesign
    pub designed : get_default_design cl t ≡ ok nd
    pub hash : String
    pub hashed : codec.spec_hash t.network.spec ≡ some hash
    pub claims : List Claim
    pub claimed : Params.default_network_claims infra k cl nd.design t ≡ ok claims
    pub devices : List NetworkDevice
    pub built : Device.built_devices infra k cl nd t ≡ ok devices
    pub nds : List StoredDevice
    pub devices_listed : cl.list_network_devices ≡ ok nds
    pub devices_ready :
        (are_all_device_configs_ready k.reason_failed t.uid (map (λ n. n.object) nds)).ready ≡ true
    pub configs : List Config
    pub deployed : Deploy.deployed_configs codec k cl t ≡ ok configs
    pub os : List OwnedObject
    pub configs_listed : cl.list_configs ≡ ok os
    pub configs_ready : (are_all_device_configs_ready k.reason_failed t.uid os).ready ≡ true
