-- ===== src/Reconcile.antt =====
-- What the reconcilers of a network share (pkg/reconcilers/network, networkparams and
-- networkdevice): the objects that they read, the calls that they make to the API server, and how a
-- reconcile goes on after such a call. `Cluster` is what the API server answers; it is a parameter.
pub mod Owned
pub mod Params
pub mod Device
pub mod Deploy
pub mod Requests
pub mod Overall
pub mod Gate
pub mod System
pub mod Order
pub mod Progress
use kuidapps.Prelude.{
  ℕ, String, Bool, true, false, Option, none, some, List, [], ◌∷◌, if◌then◌else◌,
}
use kuidapps.Outcome.{Error, Outcome, wrapped}
use kuidapps.Text.{◌⧺◌}
use kuidapps.Network.{default_network}
use kuidapps.Schema.{NetworkDevice}
use kuidapps.Design.Spec.{NetworkDesign}
use kuidapps.Design.Claims.{Object, IpClaimRequest, AsClaimRequest}
use kuidapps.Infra.{Api}
use kuidapps.Link.Memory.{Memory}
use kuidapps.Conditions.{Condition, Kuid}
use kuidapps.Conditions.Stored.{StoredNetwork, set_conditions}

-- A design, with the variables behind its BFD pointers, and its resource version.
pub record StoredDesign : Type 0 where
  pub design : NetworkDesign
  pub memory : Memory
  pub resource_version : String

-- An object with its owner references, by their UIDs, and its ready condition.
pub record OwnedObject : Type 0 where
  pub name : String
  pub owners : List String
  pub ready : Condition

-- A `NetworkDevice`: the raw provider configuration stands behind two pointers.
pub record StoredDevice : Type 0 where
  pub object : OwnedObject
  pub provider_config : Option (Option String)

-- kuid's `Node`: the parts that the claims are made from.
pub record StoredNode : Type 0 where
  pub object : Object
  pub node_group : String

-- A configuration that is parsed from a provider configuration.
pub record Config : Type 0 where
  pub raw : String

pub data Claim : Type 0 where
  ip_claim : IpClaimRequest → Claim
  as_claim : AsClaimRequest → Claim

-- The calls that change the cluster. Each reconciler owns one kind of resources.
pub data Request (S : Type 0) : Type 0 where
  add_finalizer : Request S
  remove_finalizer : Request S
  delete_owned : Request S
  apply_claims : List Claim → Request S
  apply_devices : List NetworkDevice → Request S
  apply_configs : List Config → Request S
  update_status : StoredNetwork S → Request S

pub data Answer (A : Type 0) : Type 0 where
  found : A → Answer A
  not_found : Answer A
  failed : Error → Answer A

-- What the API server answers in a reconcile: what is read, and whether a request fails. The node
-- and link lists are those of a namespace.
pub record Cluster (S : Type 0) : Type 0 where
  pub get_network : String → String → Answer (StoredNetwork S)
  pub get_network_design : String → String → Outcome StoredDesign
  pub list_network_devices : Outcome (List StoredDevice)
  pub list_configs : Outcome (List OwnedObject)
  pub list_nodes : String → Outcome (List StoredNode)
  pub api : Api
  pub refuses : Request S → Option Error

-- Controller-runtime's `Result`; the time is in seconds.
pub record Result : Type 0 where
  pub requeue : Bool
  pub requeue_after : ℕ

pub data End : Type 0 where
  returned : Result → Option Error → End
  panicked : End

-- A reconcile: the requests that it makes, in their order, and how it ends.
pub record Run (S : Type 0) : Type 0 where
  pub requests : List (Request S)
  pub end : End

abbrev pub no_requeue : Result
no_requeue = record { requeue = false; requeue_after = 0 }

abbrev pub requeue : Result
requeue = record { requeue = true; requeue_after = 0 }

abbrev pub after_two_seconds : Result
after_two_seconds = record { requeue = false; requeue_after = 2 }

abbrev pub wrap : String → Option Error → Option Error
wrap msg none = none
wrap msg (some e) = some (wrapped msg e)

module _ {S : Type 0} where
  abbrev pub done : Result → Run S
  done result = record { requests = []; end = returned result none }

  -- A request, and what is done after it where it fails and where it does not.
  abbrev pub sequel : Option Error → (Error → Run S) → Run S → Run S
  sequel none on_error next = next
  sequel (some e) on_error next = on_error e

  abbrev pub preceded : Request S → Run S → Run S
  preceded q run = record { requests = q ∷ run.requests; end = run.end }

  module _ (cl : Cluster S) where
    unfoldable pub attempt : Request S → (Error → Run S) → Run S → Run S
    attempt q on_error next = preceded q (sequel (cl.refuses q) on_error next)

    -- The update of the status, at the end of a reconcile.
    unfoldable pub update_and_return : Result → StoredNetwork S → Run S
    update_and_return result cr = record {
      requests = update_status cr ∷ [];
      end = returned result (wrap "cannot update status" (cl.refuses (update_status cr)));
    }

    -- A value that is read, or an error.
    unfoldable pub with_read : {A : Type 0} → Outcome A → (Error → Run S) → (A → Run S) → Run S
    with_read (Outcome.ok a) on_error next = next a
    with_read (Outcome.err e) on_error next = on_error e
    with_read Outcome.panic on_error next = record { requests = []; end = panicked }

    -- The start of each reconcile: a network that is not there has none.
    abbrev pub with_network : Answer (StoredNetwork S) → (StoredNetwork S → Run S) → Run S
    with_network (found cr) next = next cr
    with_network not_found next = done no_requeue
    with_network (failed e) next = record {
      requests = [];
      end = returned no_requeue (some (wrapped "cannot get cr" e));
    }

    -- The deletion of a network: first of what it owns, then of the finalizer.
    unfoldable pub delete_network :
        (String → Option Error → StoredNetwork S → StoredNetwork S) → StoredNetwork S → Run S
    unfolding attempt update_and_return
    delete_network handle_error cr =
        attempt delete_owned
          (λ e. update_and_return requeue (handle_error "canot delete resources" (some e) cr))
          (attempt remove_finalizer
            (λ e. update_and_return requeue (handle_error "cannot remove finalizer" (some e) cr))
            (done no_requeue))

  -- `handleError`: the text of the error, or the message where there is none.
  abbrev pub error_message : Kuid S → String → Option Error → String
  error_message k msg none = msg
  error_message k msg (some e) = k.error_text e

  -- The design of the default network, in the namespace of the network.
  unfoldable pub get_default_design : Cluster S → StoredNetwork S → Outcome StoredDesign
  get_default_design cl cr =
      cl.get_network_design cr.network.namespace (cr.network.spec.topology ⧺ "." ⧺ default_network)
