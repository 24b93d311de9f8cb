-- ===== src/Builder/State.antt =====
-- The state of the device builder (pkg/devbuilder/builder.go, node.go and rr.go), and its actions:
-- functions that pass the state on, or stop with an error or a panic.
use text.Mathlib.Text.{◌==◌ as str_eq}
use kuidapps.Prelude.{
  ℕ, String, Bool, true, false, Option, none, some, List, [], ◌∷◌, if◌then◌else◌,
}
use kuidapps.Outcome.{Outcome, ok, ◌>>=◌}
use kuidapps.Design.Spec.{NetworkDesign}
use kuidapps.Network.{Network}
use kuidapps.Infra.{NodeId}
use kuidapps.Link.Memory.{Memory}
use kuidapps.Devices.Store.{Devices, new_devices}
use kuidapps.Devices.Calls.{Call, perform}

pub record Node : Type 0 where
  pub node_id : NodeId
  pub system_id : String
  pub provider : String
  pub ipv4 : String
  pub ipv6 : String
  pub router_id : String
  pub as_number : ℕ
  pub edge : Bool

pub record Rr : Type 0 where
  pub ip : String
  pub ipv4 : Bool

-- `memory` holds the variables behind the pointers of BFD structs; the rest is as in the source.
pub record DeviceBuilder : Type 0 where
  pub network_design : NetworkDesign
  pub network : Network
  pub devices : Devices
  pub nodes : List (String × Node)
  pub node_set : List String
  pub rrs : List (String × Rr)
  pub memory : Memory

-- The namespaced name of the network is that of the devices.
unfoldable pub new_builder : Network → NetworkDesign → Memory → DeviceBuilder
unfolding new_devices
new_builder network design memory = record {
  network_design = design;
  network = network;
  devices = new_devices network.namespace network.name;
  nodes = [];
  node_set = [];
  rrs = [];
  memory = memory;
}

-- Go's `m[k]` and `m[k] = v`, for maps of the builder.
unfoldable pub get {ℓ} : {A : Type ℓ} → String → List (String × A) → Option A
get k [] = none
get k ((n, a) ∷ l) = if str_eq n k then some a else get k l

unfoldable pub put {ℓ} : {A : Type ℓ} → String → A → List (String × A) → List (String × A)
put k a [] = (k, a) ∷ []
put k a ((n, b) ∷ l) = if str_eq n k then (k, a) ∷ l else (n, b) ∷ put k a l

unfoldable pub has : String → List String → Bool
has k [] = false
has k (n ∷ l) = if str_eq n k then true else has k l

abbrev pub Action : Type 0
Action = DeviceBuilder → Outcome DeviceBuilder

abbrev pub skip : Action
skip r = ok r

-- A call of a method of the devices.
abbrev pub call : String → Call → Action
call n c r = ok (record r { devices = perform n c r.devices })

infixr 4 ◌▹◌
abbrev pub ◌▹◌ : Action → Action → Action
(f ▹ g) r = f r >>= g

abbrev pub when : Bool → Action → Action
when b f r = if b then f r else ok r

-- A value that may be an error, and what is done with it.
abbrev pub with_value {ℓ} : {A : Type ℓ} → Outcome A → (A → Action) → Action
with_value o k r = o >>= λ a. k a r

-- What is done may read the state.
abbrev pub reading : (DeviceBuilder → Action) → Action
reading k r = k r r

unfoldable pub each {ℓ} : {A : Type ℓ} → (A → Action) → List A → Action
each f [] = skip
each f (a ∷ l) = f a ▹ each f l
