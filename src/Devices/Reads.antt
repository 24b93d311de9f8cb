-- ===== src/Devices/Reads.antt =====
-- What can be read of a subinterface after `AddSubInterface` (pkg/devbuilder/devices.go).
use text.Mathlib.Text.{◌==◌ as str_eq}
use text.Mathlib.TextPositions.{eq_refl}
use kuidapps.Prelude.{
  ℕ, String, ◌≡◌, refl, ◌∙◌, ap, Bool, true, false, Option, none, some, arith, Bool-cases,
  Option-cases, inl, inr, ◌&&◌, if◌then◌else◌, is_some, eq_iff, nat_eq, nat_eq_iff,
}
use kuidapps.Keyed.{find, at}
use kuidapps.Keyed.Find.{find-update, find-update_twice, ident-at}
use kuidapps.Schema.{SubInterface, Interface}
use kuidapps.Device.Elements.{string_order, nat_order, interface_element, sub_interface_element}
use kuidapps.Device.Root.{Device, new_device}
use kuidapps.Device.Interfaces.{get_or_create_interface}
use kuidapps.Devices.Store.{Devices, get_device, device_or_new}
use kuidapps.Devices.Ops.{write_sub_interface, add_sub_interface, get_system_ip, first_address}
use kuidapps.Devices.Calls.{sub_interface, perform}
use kuidapps.Devices.Local.{write_of, get_device-perform}

-- The subinterface `id` of an interface that there may be.
abbrev pub sub_interface_of : ℕ → Option Interface → Option SubInterface
sub_interface_of id none = none
sub_interface_of id (some i) = find sub_interface_element id i.sub_interfaces

abbrev pub interface_of : String → Option Device → Option Interface
interface_of i none = none
interface_of i (some d) = find interface_element i d.nd.spec.interfaces

-- The subinterface `id` of the interface `i` of the node `n`.
abbrev pub read_sub_interface : String → String → ℕ → Devices → Option SubInterface
read_sub_interface n i id r = sub_interface_of id (interface_of i (get_device n r))

tag-sub_interfaces :
    (b : Bool) (i : Interface)
    → (if b then record i { vlan_tagging = true } else i).sub_interfaces ≡ i.sub_interfaces
tag-sub_interfaces true i = refl
tag-sub_interfaces false i = refl

tag_name :
    (b : Bool) (i : Interface) → (if b then record i { vlan_tagging = true } else i).name ≡ i.name
tag_name true i = refl
tag_name false i = refl

-- All fields of the new value, the number among them, replace those that were there.
find-write_sub_interface :
    (k : ℕ) (x : SubInterface) (i : Interface)
    → find sub_interface_element k (write_sub_interface x i).sub_interfaces
      ≡ (if nat_eq x.id k then some x else find sub_interface_element k i.sub_interfaces)
unfolding write_sub_interface sub_interface_element nat_order
find-write_sub_interface k x i = rw (tag-sub_interfaces (is_some x.vlan) i) (
    find-update_twice sub_interface_element x.id k (λ si. record x { id = si.id })
      (λ si. record x { id = si.id; ipv4 = si.ipv4; ipv6 = si.ipv6 }) i.sub_interfaces (λ y p. p)
      (λ y p. p)
    ∙ ap
        (λ (n : ℕ).
          if nat_eq x.id k
          then some (record x { id = n })
          else find sub_interface_element k i.sub_interfaces)
        (ident-at sub_interface_element x.id i.sub_interfaces))

write_sub_interface_name :
    (x : SubInterface) (i : Interface) → (write_sub_interface x i).name ≡ i.name
unfolding write_sub_interface
write_sub_interface_name x i = tag_name (is_some x.vlan) i

sub_interfaces-make :
    (i : String) (id : ℕ)
    → find sub_interface_element id (interface_element.make i).sub_interfaces ≡ none
unfolding interface_element find
sub_interfaces-make i id = refl

interface_of-write :
    (i j : String) (f : Interface → Interface) (d : Device)
    → ((y : Interface) → y.name ≡ i → (f y).name ≡ i)
    → interface_of j (some (get_or_create_interface i f d)) ≡ (
        if str_eq i j
        then some (f (at interface_element i d.nd.spec.interfaces))
        else interface_of j (some d))
unfolding get_or_create_interface interface_element string_order
interface_of-write i j f d keeps = find-update interface_element i f keeps j d.nd.spec.interfaces

find-at :
    (i : String) (k : ℕ) (d : Device)
    → find sub_interface_element k (at interface_element i d.nd.spec.interfaces).sub_interfaces
      ≡ sub_interface_of k (interface_of i (some d))
find-at i k d = elim (Option-cases (find interface_element i d.nd.spec.interfaces)) [
  | inl miss ↦ rw miss (sub_interfaces-make i k)
  | inr (y, hit) ↦ rw hit refl
]

device-write :
    (i j : String) (k : ℕ) (x : SubInterface) (d : Device)
    → sub_interface_of k
        (interface_of j (some (get_or_create_interface i (write_sub_interface x) d)))
      ≡ (if str_eq i j
          then (if nat_eq x.id k then some x else sub_interface_of k (interface_of j (some d)))
          else sub_interface_of k (interface_of j (some d)))
device-write i j k x d =
    rw (interface_of-write i j (write_sub_interface x) d (λ y p. write_sub_interface_name x y ∙ p))
      (elim (Bool-cases (str_eq i j)) [
        | inr other ↦ rw other refl
        | inl same ↦ rw same (
            find-write_sub_interface k x (at interface_element i d.nd.spec.interfaces)
            ∙ ap (λ o. if nat_eq x.id k then some x else o)
                (find-at i k d
                  ∙ ap (λ s. sub_interface_of k (interface_of s (some d))) ((eq_iff i j).0 same)))
      ])

read-device_or_new :
    (n j : String) (k : ℕ) (r : Devices)
    → sub_interface_of k (interface_of j (some (device_or_new n r))) ≡ read_sub_interface n j k r
unfolding new_device find
read-device_or_new n j k r = elim (Option-cases (get_device n r)) [
  | inl miss ↦ rw miss refl
  | inr (d, hit) ↦ rw hit refl
]

-- `AddSubInterface` stores the subinterface, with all its fields, under its node, its interface
-- and its number, and changes no other subinterface of any interface of any node.
pub read_sub_interface-add_sub_interface :
    (m n i j : String) (k : ℕ) (x : SubInterface) (r : Devices)
    → read_sub_interface m j k (add_sub_interface n i x r)
      ≡ (if str_eq n m && str_eq i j && nat_eq x.id k then some x else read_sub_interface m j k r)
unfolding perform write_of
read_sub_interface-add_sub_interface m n i j k x r =
    rw (get_device-perform m n (sub_interface i x) r) (elim (Bool-cases (str_eq n m)) [
      | inr other ↦ rw other refl
      | inl same ↦ rw same (
          device-write i j k x (device_or_new n r)
          ∙ rw (read-device_or_new n j k r, (eq_iff n m).0 same) (ground arith))
    ])

-- The subinterface that was stored is the one that is found.
stored :
    (n i : String) (x : SubInterface) (r : Devices)
    → find sub_interface_element x.id
        (at interface_element i
          (device_or_new n (add_sub_interface n i x r)).nd.spec.interfaces).sub_interfaces
      ≡ some x
stored n i x r =
    find-at i x.id (device_or_new n (add_sub_interface n i x r))
    ∙ read-device_or_new n i x.id (add_sub_interface n i x r)
    ∙ read_sub_interface-add_sub_interface n n i i x.id x r
    ∙ rw (eq_refl n, eq_refl i, (nat_eq_iff x.id x.id).1 refl) refl

-- `GetSystemIP` after `AddSubInterface` returns the first address, in the asked family, of the
-- subinterface that was added, or the empty string where it has none.
pub get_system_ip-add_sub_interface :
    (n i : String) (x : SubInterface) (ipv4 : Bool) (r : Devices)
    → (get_system_ip n i x.id ipv4 (add_sub_interface n i x r)).0
      ≡ (if ipv4 then first_address x.ipv4 else first_address x.ipv6)
unfolding get_system_ip
get_system_ip-add_sub_interface n i x ipv4 r = rw (stored n i x r) refl
