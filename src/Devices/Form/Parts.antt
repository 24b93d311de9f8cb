-- ===== src/Devices/Form/Parts.antt =====
-- The methods of pkg/devbuilder/devices.go on the parts of a device keep the devices in form.
use text.Mathlib.Text.{◌==◌ as str_eq}
use mathlib.Core.Path.{subst}
use kuidapps.Prelude.{
  ℕ, String, ◌≡◌, refl, inl, inr, Bool, true, false, ◌&&◌, some, List, [], ◌∷◌, Bool-cases, arith,
  if◌then◌else◌, is_some, nat_eq,
}
use kuidapps.Keyed.Canonical.{Keeps, Distinct, Fresh}
use kuidapps.Schema.{
  NetworkInstanceInterface, SubInterface, Interface, TunnelInterface, TunnelSubInterface,
  BfdInterface, NetworkInstance, RoutingPolicy,
}
use kuidapps.Device.Root.{
  add_provider, get_or_create_bfd, add_or_update_bfd_interface, get_or_create_routing_policy,
  get_or_create_system, get_or_create_system_protocols, get_or_create_system_protocols_bgp_vpn,
}
use kuidapps.Device.Elements.{
  interface_element, sub_interface_element, tunnel_interface_element, tunnel_sub_interface_element,
  routing_policy_element, network_instance_element, same_sub_interface, same_sub_interface_iff,
}
use kuidapps.Device.Interfaces.{
  get_or_create_interface, add_or_update_interface, get_or_create_tunnel_interface,
  add_or_update_tunnel_interface, get_or_create_interface_sub_interface,
  get_or_create_tunnel_interface_sub_interface, add_or_update_tunnel_interface_sub_interface,
  add_or_update_interface_sub_interface,
}
use kuidapps.Device.Bgp.{get_or_create_network_instance}
use kuidapps.Device.Valid.{IsValidInterface, reference_element}
use kuidapps.Device.Safe.{
  add_provider-IsSafe, get_or_create_interface-IsSafe, get_or_create_tunnel_interface-IsSafe,
  get_or_create_network_instance-IsSafe, get_or_create_routing_policy-IsSafe,
  get_or_create_bfd-IsSafe, add_or_update_bfd_interface-IsValid, get_or_create_system-IsSafe,
  add_or_update_interface-IsSafe, add_or_update_tunnel_interface-IsSafe,
  get_or_create_interface_sub_interface-IsValid, add_or_update_interface_sub_interface-IsValid,
  get_or_create_tunnel_interface_sub_interface-IsValid,
  add_or_update_tunnel_interface_sub_interface-IsValid,
}
use kuidapps.Devices.Store.{Devices}
use kuidapps.Devices.Ops.{
  add_provider_to, add_bfd_interface, add_interface, add_tunnel_interface, write_sub_interface,
  add_sub_interface, add_tunnel_sub_interface, add_network_instance_to, replace_or_append,
  add_network_instance_sub_interface, add_network_instance_sub_interface_vxlan, add_routing_policy,
  add_system_protocols_bgp_vpn, get_system_ip,
}
use kuidapps.Devices.Valid.{IsValid, with_device-IsValid}

tag-IsValidInterface :
    (b : Bool) (x : Interface)
    → IsValidInterface x
    → IsValidInterface (if b then record x { vlan_tagging = true } else x)
tag-IsValidInterface true x v = v
tag-IsValidInterface false x v = v

tag_name :
    (b : Bool) (x : Interface) → (if b then record x { vlan_tagging = true } else x).name ≡ x.name
tag_name true x = refl
tag_name false x = refl

write_sub_interface-Keeps :
    (i : String) (x : SubInterface)
    → Keeps interface_element i IsValidInterface (write_sub_interface x)
unfolding write_sub_interface interface_element sub_interface_element
write_sub_interface-Keeps i x = record {
  ident = λ y p. rw (tag_name (is_some x.vlan) y) p;
  step = λ y v.
      let tagged : Interface = if is_some x.vlan then record y { vlan_tagging = true } else y in
      get_or_create_interface_sub_interface-IsValid x.id _
        (add_or_update_interface_sub_interface x tagged)
        (record { ident = λ z p. p; step = λ z p. p })
        (add_or_update_interface_sub_interface-IsValid x tagged
          (tag-IsValidInterface (is_some x.vlan) y v));
}

replace_or_append-Fresh :
    (k x : NetworkInstanceInterface) (ys : List NetworkInstanceInterface)
    → same_sub_interface x k ≡ false
    → Fresh reference_element k ys
    → Fresh reference_element k (replace_or_append x ys)
unfolding replace_or_append reference_element
replace_or_append-Fresh k x [] new h = (new, tt)
replace_or_append-Fresh k x (y ∷ ys) new h =
    elim (Bool-cases (str_eq y.name x.name && nat_eq y.id x.id)) [
      | inl hit ↦ rw hit (new, h.1)
      | inr miss ↦ rw miss (h.0, replace_or_append-Fresh k x ys new h.1)
    ]

same_sub_interface_sym :
    (a b : NetworkInstanceInterface)
    → same_sub_interface a b ≡ false
    → same_sub_interface b a ≡ false
same_sub_interface_sym a b h =
    ground (arith, same_sub_interface_iff a b, same_sub_interface_iff b a)

replace_or_append-Distinct :
    (x : NetworkInstanceInterface) (ys : List NetworkInstanceInterface)
    → Distinct reference_element ys
    → Distinct reference_element (replace_or_append x ys)
unfolding replace_or_append reference_element same_sub_interface
replace_or_append-Distinct x [] d = (tt, tt)
replace_or_append-Distinct x (y ∷ ys) d =
    elim (Bool-cases (str_eq y.name x.name && nat_eq y.id x.id)) [
      | inl hit ↦
          rw hit (
            subst (λ z. Distinct reference_element (z ∷ ys)) ((same_sub_interface_iff y x).0 hit) d)
      | inr miss ↦ rw miss (
        replace_or_append-Fresh y x ys (same_sub_interface_sym y x miss) d.0,
        replace_or_append-Distinct x ys d.1,
      )
    ]

pub add_provider_to-IsValid :
    (n : String) (x : String) (r : Devices) → IsValid r → IsValid (add_provider_to n x r)
unfolding add_provider_to
add_provider_to-IsValid n x r v = with_device-IsValid n (add_provider x) r (add_provider-IsSafe x) v

pub add_bfd_interface-IsValid :
    (n : String) (x : BfdInterface) (r : Devices) → IsValid r → IsValid (add_bfd_interface n x r)
unfolding add_bfd_interface
add_bfd_interface-IsValid n x r v =
    with_device-IsValid n (get_or_create_bfd (add_or_update_bfd_interface (some x))) r
      (get_or_create_bfd-IsSafe _ (add_or_update_bfd_interface-IsValid (some x))) v

pub add_interface-IsValid :
    (n : String) (x : Interface) (r : Devices) → IsValid r → IsValid (add_interface n x r)
unfolding add_interface
add_interface-IsValid n x r v =
    with_device-IsValid n (add_or_update_interface (some x)) r (add_or_update_interface-IsSafe x) v

pub add_tunnel_interface-IsValid :
    (n : String) (x : TunnelInterface) (r : Devices)
    → IsValid r
    → IsValid (add_tunnel_interface n x r)
unfolding add_tunnel_interface
add_tunnel_interface-IsValid n x r v =
    with_device-IsValid n (add_or_update_tunnel_interface (some x)) r
      (add_or_update_tunnel_interface-IsSafe x) v

pub add_sub_interface-IsValid :
    (n : String) (i : String) (x : SubInterface) (r : Devices)
    → IsValid r
    → IsValid (add_sub_interface n i x r)
unfolding add_sub_interface
add_sub_interface-IsValid n i x r v =
    with_device-IsValid n (get_or_create_interface i (write_sub_interface x)) r
      (get_or_create_interface-IsSafe i (write_sub_interface x) (write_sub_interface-Keeps i x)) v

pub add_tunnel_sub_interface-IsValid :
    (n : String) (i : String) (x : TunnelSubInterface) (r : Devices)
    → IsValid r
    → IsValid (add_tunnel_sub_interface n i x r)
unfolding add_tunnel_sub_interface tunnel_interface_element tunnel_sub_interface_element
    get_or_create_tunnel_interface_sub_interface add_or_update_tunnel_interface_sub_interface
add_tunnel_sub_interface-IsValid n i x r v =
    let write : TunnelInterface → TunnelInterface = λ itfce.
      get_or_create_tunnel_interface_sub_interface x.id (λ si. record si { kind = x.kind })
        (add_or_update_tunnel_interface_sub_interface x itfce) in
    with_device-IsValid n (get_or_create_tunnel_interface i write) r
      (get_or_create_tunnel_interface-IsSafe i write (record {
        ident = λ y p. p;
        step = λ y w.
            get_or_create_tunnel_interface_sub_interface-IsValid x.id
              (λ si. record si { kind = x.kind }) (add_or_update_tunnel_interface_sub_interface x y)
              (record { ident = λ z p. p; step = λ z p. p })
              (add_or_update_tunnel_interface_sub_interface-IsValid x y w);
      }))
      v

pub add_network_instance_to-IsValid :
    (n : String) (x : NetworkInstance) (r : Devices)
    → IsValid r
    → IsValid (add_network_instance_to n x r)
unfolding add_network_instance_to network_instance_element
add_network_instance_to-IsValid n x r v =
    with_device-IsValid n
      (get_or_create_network_instance x.name (λ ni. record ni { kind = x.kind })) r
      (get_or_create_network_instance-IsSafe x.name (λ ni. record ni { kind = x.kind })
        (record {
          ident = λ y p. p;
          step = λ y u. record { protocols = u.protocols; interfaces = u.interfaces };
        }))
      v

pub add_network_instance_sub_interface-IsValid :
    (n : String) (ni : String) (x : NetworkInstanceInterface) (r : Devices)
    → IsValid r
    → IsValid (add_network_instance_sub_interface n ni x r)
unfolding add_network_instance_sub_interface network_instance_element
add_network_instance_sub_interface-IsValid n ni x r v =
    with_device-IsValid n
      (get_or_create_network_instance ni
        (λ y. record y { interfaces = replace_or_append x y.interfaces }))
      r
      (get_or_create_network_instance-IsSafe ni
        (λ y. record y { interfaces = replace_or_append x y.interfaces })
        (record {
          ident = λ y p. p;
          step = λ y u. record {
            protocols = u.protocols;
            interfaces = replace_or_append-Distinct x y.interfaces u.interfaces;
          };
        }))
      v

pub add_network_instance_sub_interface_vxlan-IsValid :
    (n : String) (ni : String) (x : NetworkInstanceInterface) (r : Devices)
    → IsValid r
    → IsValid (add_network_instance_sub_interface_vxlan n ni x r)
unfolding add_network_instance_sub_interface_vxlan network_instance_element
add_network_instance_sub_interface_vxlan-IsValid n ni x r v =
    with_device-IsValid n
      (get_or_create_network_instance ni (λ y. record y { vxlan_interface = some x })) r
      (get_or_create_network_instance-IsSafe ni (λ y. record y { vxlan_interface = some x })
        (record {
          ident = λ y p. p;
          step = λ y u. record { protocols = u.protocols; interfaces = u.interfaces };
        }))
      v

pub add_routing_policy-IsValid :
    (n : String) (q : String) (ipv4 ipv6 : List String) (r : Devices)
    → IsValid r
    → IsValid (add_routing_policy n q ipv4 ipv6 r)
unfolding add_routing_policy routing_policy_element
add_routing_policy-IsValid n q ipv4 ipv6 r v =
    let write : RoutingPolicy → RoutingPolicy =
      λ rp. record rp { ipv4_prefixes = ipv4; ipv6_prefixes = ipv6 } in
    with_device-IsValid n (get_or_create_routing_policy q write) r
      (get_or_create_routing_policy-IsSafe q write (record { ident = λ y p. p; step = λ y w. w })) v

pub add_system_protocols_bgp_vpn-IsValid :
    (n : String) (r : Devices) → IsValid r → IsValid (add_system_protocols_bgp_vpn n r)
unfolding add_system_protocols_bgp_vpn
add_system_protocols_bgp_vpn-IsValid n r v =
    with_device-IsValid n
      (get_or_create_system (get_or_create_system_protocols get_or_create_system_protocols_bgp_vpn))
      r
      (get_or_create_system-IsSafe
        (get_or_create_system_protocols get_or_create_system_protocols_bgp_vpn))
      v

pub get_system_ip-IsValid :
    (n i : String) (id : ℕ) (ipv4 : Bool) (r : Devices)
    → IsValid r
    → IsValid (get_system_ip n i id ipv4 r).1
unfolding get_system_ip interface_element sub_interface_element
    get_or_create_interface_sub_interface
get_system_ip-IsValid n i id ipv4 r v =
    let write : Interface → Interface = get_or_create_interface_sub_interface id (λ x. x) in
    with_device-IsValid n (get_or_create_interface i write) r
      (get_or_create_interface-IsSafe i write (record {
        ident = λ y p. p;
        step = λ y w.
            get_or_create_interface_sub_interface-IsValid id (λ x. x) y
              (record { ident = λ z p. p; step = λ z p. p }) w;
      }))
      v
