-- ===== src/Outcome.antt =====
-- The result of code that may return an error or panic: the errors that the program makes or
-- passes on, and the nil dereferences that the source leaves open.
use kuidapps.Prelude.{String, Option, none, some}

pub data Error : Type 0 where
  -- what the API server's client returned
  client : String → Error
  claim_not_ready : String → Error
  claim_without_address : String → Error
  no_system_id : Error
  bridge_without_endpoint : Error
  bridge_without_node : Error
  router_without_bridge_or_endpoint : Error
  router_without_node : Error
  bridge_not_present : Error
  lease_without_holder : Error
  lease_held : Error
  lease_changed : Error
  config_empty : Error
  endpoint_not_found : String → Error
  endpoint_changed : Error
  owned_by_another : Error
  unexpected_owner : Error
  -- `errors.Join`
  joined : Error → Error → Error
  config_not_parsed : Error
  -- `errors.Wrap`
  wrapped : String → Error → Error

pub data Outcome {ℓ} (A : Type ℓ) : Type ℓ where
  ok : A → Outcome A
  err : Error → Outcome A
  panic : Outcome A

infixl 5 ◌>>=◌ ◌>>◌
abbrev pub ◌>>=◌ {ℓ κ} : {A : Type ℓ} {B : Type κ} → Outcome A → (A → Outcome B) → Outcome B
ok a >>= f = f a
err e >>= f = err e
panic >>= f = panic

abbrev pub ◌>>◌ {ℓ} : {B : Type ℓ} → Outcome (Unit {0}) → Outcome B → Outcome B
m >> k = m >>= λ _. k

-- A dereference.
abbrev pub deref {ℓ} : {A : Type ℓ} → Option A → Outcome A
deref none = panic
deref (some a) = ok a
