-- ===== src/Reconcile/Owned.antt =====
-- What the network and networkdevice reconcilers say of the devices of a network
-- (`AreAllDeviceConfigsReady` and `getNodeName` of pkg/reconcilers/network/reconciler.go and
-- pkg/reconcilers/networkdevice/reconciler.go, which are the same up to the objects listed).
use text.Mathlib.Text.{◌==◌ as str_eq}
use Prim.Native.Char.{code}
use kuidapps.Prelude.{
  refl, String, Bool, true, false, Option, none, some, List, [], ◌∷◌, ◌++◌, nat_eq, if◌then◌else◌,
}
use kuidapps.Keyed.{Element, stable_sort}
use kuidapps.Device.Elements.{string_order}
use kuidapps.Conditions.{NetworkStatusDeviceStatus, is_false}
use kuidapps.Reconcile.{OwnedObject}

-- The rest of the text after its last dot, if there is one (`strings.LastIndex`).
unfoldable pub after_last_dot : String → Option String
after_last_dot String.[] = none
after_last_dot (String.◌∷◌ c s) = elim (after_last_dot s) [
  | some rest ↦ some rest
  | none ↦ if nat_eq (code c) b'.' then some s else none
]

unfoldable pub get_node_name : String → String
unfolding after_last_dot
get_node_name name = elim (after_last_dot name) [ some rest ↦ rest | none ↦ name ]

unfoldable pub status_element : Element String NetworkStatusDeviceStatus
unfolding string_order
status_element = record {
  order = string_order;
  ident = λ s. s.node;
  make = λ n. record { node = n; ready = false; reason = none };
  ident-make = λ n. refl;
}

-- What the loops collect: is every device ready, has one failed, and the status of each.
pub record Collected : Type 0 where
  pub ready : Bool
  pub failures : Bool
  pub statuses : List NetworkStatusDeviceStatus

module _ (reason_failed : String) (uid : String) where
  -- An object whose owner is the network.
  unfoldable pub collect : OwnedObject → Collected → Collected
  unfolding get_node_name
  collect o c =
      if is_false o.ready.status
      then record {
        ready = false;
        failures = if str_eq o.ready.reason reason_failed then true else c.failures;
        statuses =
            c.statuses
            ++ record { node = get_node_name o.name; ready = false; reason = some o.ready.reason }
              ∷ [];
      }
      else record c {
        statuses =
            c.statuses ++ record { node = get_node_name o.name; ready = true; reason = none } ∷ [];
      }

  unfoldable pub collect_owners : OwnedObject → List String → Collected → Collected
  unfolding collect
  collect_owners o [] c = c
  collect_owners o (u ∷ us) c = collect_owners o us (if str_eq u uid then collect o c else c)

  unfoldable pub collect_all : List OwnedObject → Collected → Collected
  unfolding collect_owners
  collect_all [] c = c
  collect_all (o ∷ os) c = collect_all os (collect_owners o o.owners c)

  unfoldable pub are_all_device_configs_ready : List OwnedObject → Collected
  unfolding collect_all stable_sort status_element
  are_all_device_configs_ready os =
      let c = collect_all os (record { ready = true; failures = false; statuses = [] }) in
      record c { statuses = stable_sort status_element c.statuses }
