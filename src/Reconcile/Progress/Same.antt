-- ===== src/Reconcile/Progress/Same.antt =====
-- A network of which only the status changes is served as before (pkg/reconcilers/network,
-- networkparams and networkdevice).
use kuidapps.Outcome.{ok}
use kuidapps.Builder.State.{get}
use kuidapps.Reconcile.Owned.{are_all_device_configs_ready}
use mathlib.Core.Path.{subst}
use kuidapps.Reconcile.{Cluster, get_default_design}
use kuidapps.Conditions.{Kuid}
use kuidapps.Reconcile.Deploy.{Codec}
use kuidapps.Infra.{Infra}
use kuidapps.Conditions.Stored.{StoredNetwork}
use kuidapps.Prelude.{map, is_some, sym, true, false, ◌≡◌, some}
use kuidapps.Reconcile.Deploy
use kuidapps.Reconcile.Device
use kuidapps.Reconcile.Params
use kuidapps.Reconcile.Progress.{IsServed}

-- Nothing but the status differs.
abbrev pub IsSame : {S : Type 0} → StoredNetwork S → StoredNetwork S → Type 0
IsSame s t = t ≡ record s { status = t.status }

module _ (infra : Infra) (codec : Codec) {S : Type 0} (k : Kuid S) where
  unfoldable pub IsServed-same :
      {cl : Cluster S} {s t : StoredNetwork S}
      → IsServed infra codec k cl s
      → IsSame s t
      → IsServed infra codec k cl t
  unfolding get_default_design Params.default_network_claims Params.get_nodes Params.get_links
      Device.built_devices Deploy.deployed_configs
  IsServed-same {cl} {s} {t} w e = record {
    alive = subst (λ x. x.deleted ≡ false) (sym e) w.alive;
    unmanaged =
        subst (λ x. is_some (get "kuid.dev/gitops" x.annotations) ≡ false) (sym e) w.unmanaged;
    accepts = w.accepts;
    nd = w.nd;
    designed = subst (λ x. get_default_design cl x ≡ ok w.nd) (sym e) w.designed;
    hash = w.hash;
    hashed = subst (λ x. codec.spec_hash x.network.spec ≡ some w.hash) (sym e) w.hashed;
    claims = w.claims;
    claimed =
        subst (λ x. Params.default_network_claims infra k cl w.nd.design x ≡ ok w.claims) (sym e)
          w.claimed;
    devices = w.devices;
    built = subst (λ x. Device.built_devices infra k cl w.nd x ≡ ok w.devices) (sym e) w.built;
    nds = w.nds;
    devices_listed = w.devices_listed;
    devices_ready =
        subst
          (λ x.
            (are_all_device_configs_ready k.reason_failed x.uid (map (λ n. n.object) w.nds)).ready
            ≡ true)
          (sym e) w.devices_ready;
    configs = w.configs;
    deployed = subst (λ x. Deploy.deployed_configs codec k cl x ≡ ok w.configs) (sym e) w.deployed;
    os = w.os;
    configs_listed = w.configs_listed;
    configs_ready =
        subst (λ x. (are_all_device_configs_ready k.reason_failed x.uid w.os).ready ≡ true) (sym e)
          w.configs_ready;
  }
