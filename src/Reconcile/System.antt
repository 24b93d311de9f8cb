-- ===== src/Reconcile/System.antt =====
-- The three reconcilers of a network and its users, in any order (pkg/reconcilers/network,
-- networkparams and networkdevice). A reconcile works on the network that is stored when it starts,
-- and an update of the status replaces the stored status. A user may change the network, its
-- annotations or its deletion timestamp.
use kuidapps.Prelude.{[], ◌∷◌, none, some}
use kuidapps.Reconcile.Deploy
use kuidapps.Reconcile.Params
use kuidapps.Reconcile.Device
use kuidapps.Reconcile.{update_status}
use kuidapps.Network.{Network}
use kuidapps.Conditions.Stored.{StoredNetwork}
use kuidapps.Conditions.{Kuid}
use kuidapps.Reconcile.Deploy.{Codec}
use kuidapps.Outcome.{Error}
use kuidapps.Reconcile.{add_finalizer, found, Request, Cluster}
use kuidapps.Infra.{Infra}
use kuidapps.Prelude.{true, none, ◌≡◌, ◌∷◌, String, List, Option}

module _ {S : Type 0} where
  abbrev pub write_status : Request S → StoredNetwork S → StoredNetwork S
  write_status (update_status cr) s = record s { status = cr.status }
  write_status _ s = s

  abbrev pub accept : Option Error → Request S → StoredNetwork S → StoredNetwork S
  accept none q s = write_status q s
  accept (some e) q s = s

  -- What is stored after the requests.
  unfoldable pub perform : Cluster S → List (Request S) → StoredNetwork S → StoredNetwork S
  perform cl [] s = s
  perform cl (q ∷ qs) s = perform cl qs (accept (cl.refuses q) q s)

module _ (infra : Infra) (codec : Codec) {S : Type 0} (k : Kuid S) (namespace name : String) where
  unfoldable pub network_round : Cluster S → StoredNetwork S → StoredNetwork S
  unfolding perform
  network_round cl s = perform cl (Deploy.reconcile codec k cl namespace name).requests s

  unfoldable pub param_round : Cluster S → StoredNetwork S → StoredNetwork S
  unfolding perform
  param_round cl s = perform cl (Params.reconcile infra k cl namespace name).requests s

  unfoldable pub device_round : Cluster S → StoredNetwork S → StoredNetwork S
  unfolding perform
  device_round cl s = perform cl (Device.reconcile infra k cl namespace name).requests s

  -- The finalizer that the reconciler of the devices adds is there or is accepted.
  pub data Step : StoredNetwork S → StoredNetwork S → Type 0 where
    deploys :
        {s : StoredNetwork S} (cl : Cluster S)
        → cl.get_network namespace name ≡ found s
        → Step s (network_round cl s)
    claims :
        {s : StoredNetwork S} (cl : Cluster S)
        → cl.get_network namespace name ≡ found s
        → Step s (param_round cl s)
    builds :
        {s : StoredNetwork S} (cl : Cluster S)
        → cl.get_network namespace name ≡ found s
        → cl.refuses add_finalizer ≡ none
        → Step s (device_round cl s)
    edits : {s : StoredNetwork S} (network : Network) → Step s (record s { network = network })
    annotates :
        {s : StoredNetwork S} (annotations : List (String × String))
        → Step s (record s { annotations = annotations })
    deletes : {s : StoredNetwork S} → Step s (record s { deleted = true })

  pub data Reach (s : StoredNetwork S) : StoredNetwork S → Type 0 where
    here : Reach s s
    next : {t u : StoredNetwork S} → Reach s t → Step t u → Reach s u
