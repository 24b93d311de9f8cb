-- ===== src/Device/Safe.antt =====
-- The operations on a device's interfaces and on its other top-level parts are safe writes.
use text.Mathlib.Text.{◌==◌ as str_eq}
use kuidapps.Prelude.{
  ℕ, String, ◌≡◌, refl, inl, inr, Option, none, some, if◌then◌else◌, Bool, true, false, Bool-cases,
  get_or, OnSome,
}
use kuidapps.Keyed.Canonical.{Keeps, update-Keeps, nil-IsCanonical}
use kuidapps.Schema.{
  SubInterface, Interface, TunnelInterface, TunnelSubInterface, BfdInterface, Bfd, RoutingPolicy,
  NetworkInstance, System, NetworkDeviceSpec,
}
use kuidapps.Device.Elements.{
  interface_element, sub_interface_element, tunnel_interface_element, tunnel_sub_interface_element,
  bfd_interface_element, routing_policy_element, network_instance_element,
}
use kuidapps.Device.Root.{
  Device, on_spec, add_provider, get_or_create_bfd, add_or_update_bfd_interface,
  get_or_create_routing_policy, get_or_create_system,
}
use kuidapps.Device.Interfaces.{
  get_or_create_interface, add_or_update_interface, get_or_create_tunnel_interface,
  add_or_update_tunnel_interface, get_or_create_interface_sub_interface,
  add_or_update_interface_sub_interface, get_or_create_tunnel_interface_sub_interface,
  add_or_update_tunnel_interface_sub_interface,
}
use kuidapps.Device.Bgp.{get_or_create_network_instance}
use kuidapps.Device.Valid.{
  Any, IsValidInterface, IsValidTunnelInterface, IsValidBfd, IsNamedBfd, IsValidNetworkInstance,
  IsValidSpec, IsSafe,
}

pub OnSome-get_or {ℓ κ} :
    {A : Type ℓ} (P : A → Type κ) (o : Option A) (d : A) → P d → OnSome P o → P (get_or o d)
OnSome-get_or P none d new h = new
OnSome-get_or P (some x) d new h = h

-- A write to the specification that keeps the form and the topology is safe.
on_spec-IsSafe :
    (f : NetworkDeviceSpec → NetworkDeviceSpec)
    → ((s : NetworkDeviceSpec) → IsValidSpec s → IsValidSpec (f s))
    → ((s : NetworkDeviceSpec) → (f s).topology ≡ s.topology)
    → IsSafe (on_spec f)
on_spec-IsSafe f valid topology = record {
  valid = λ d. valid d.nd.spec;
  name = λ d. refl;
  namespace = λ d. refl;
  topology = λ d. topology d.nd.spec;
}

pub id-IsSafe : IsSafe (λ d. d)
id-IsSafe = record {
  valid = λ d v. v;
  name = λ d. refl;
  namespace = λ d. refl;
  topology = λ d. refl;
}

-- An operation that does nothing in one case of a test.
pub if-IsSafe :
    (b : Bool) (write : Device → Device)
    → (b ≡ false → IsSafe write)
    → IsSafe (λ d. if b then d else write d)
if-IsSafe true write h = id-IsSafe
if-IsSafe false write h = h refl

pub add_provider-IsSafe : (provider : String) → IsSafe (add_provider provider)
unfolding add_provider
add_provider-IsSafe provider =
    on_spec-IsSafe _
      (λ s v. record {
        interfaces = v.interfaces;
        network_instances = v.network_instances;
        tunnel_interfaces = v.tunnel_interfaces;
        routing_policies = v.routing_policies;
        bfd = v.bfd;
      })
      (λ s. refl)

pub get_or_create_bfd-IsSafe :
    (write : Bfd → Bfd)
    → ((x : Bfd) → IsValidBfd x → IsValidBfd (write x))
    → IsSafe (get_or_create_bfd write)
unfolding get_or_create_bfd
get_or_create_bfd-IsSafe write k =
    on_spec-IsSafe _
      (λ s v. record {
        interfaces = v.interfaces;
        network_instances = v.network_instances;
        tunnel_interfaces = v.tunnel_interfaces;
        routing_policies = v.routing_policies;
        bfd = k _ (
            OnSome-get_or IsValidBfd s.bfd _ (nil-IsCanonical bfd_interface_element IsNamedBfd)
              v.bfd);
      })
      (λ s. refl)

pub add_or_update_bfd_interface-IsValid :
    (x : Option BfdInterface) (r : Bfd)
    → IsValidBfd r
    → IsValidBfd (add_or_update_bfd_interface x r)
unfolding add_or_update_bfd_interface bfd_interface_element
add_or_update_bfd_interface-IsValid none r v = v
add_or_update_bfd_interface-IsValid (some new) r v =
    elim (Bool-cases (str_eq new.sub_interface_name.name "")) [
      | inl empty ↦ rw empty v
      | inr named ↦ rw named (
          update-Keeps bfd_interface_element new.sub_interface_name IsNamedBfd _ r.interfaces named
            (record { ident = λ x p. p; step = λ x p. p }) v)
    ]

pub get_or_create_system-IsSafe : (write : System → System) → IsSafe (get_or_create_system write)
unfolding get_or_create_system
get_or_create_system-IsSafe write =
    on_spec-IsSafe _
      (λ s v. record {
        interfaces = v.interfaces;
        network_instances = v.network_instances;
        tunnel_interfaces = v.tunnel_interfaces;
        routing_policies = v.routing_policies;
        bfd = v.bfd;
      })
      (λ s. refl)

pub get_or_create_routing_policy-IsSafe :
    (name : String) (write : RoutingPolicy → RoutingPolicy)
    → Keeps routing_policy_element name Any write
    → IsSafe (get_or_create_routing_policy name write)
unfolding get_or_create_routing_policy
get_or_create_routing_policy-IsSafe name write k =
    on_spec-IsSafe _
      (λ s v. record {
        interfaces = v.interfaces;
        network_instances = v.network_instances;
        tunnel_interfaces = v.tunnel_interfaces;
        routing_policies =
            update-Keeps routing_policy_element name Any write s.routing_policies tt k
              v.routing_policies;
        bfd = v.bfd;
      })
      (λ s. refl)

pub get_or_create_interface-IsSafe :
    (name : String) (write : Interface → Interface)
    → Keeps interface_element name IsValidInterface write
    → IsSafe (get_or_create_interface name write)
unfolding get_or_create_interface
get_or_create_interface-IsSafe name write k =
    on_spec-IsSafe _
      (λ s v. record {
        interfaces =
            update-Keeps interface_element name IsValidInterface write s.interfaces
              (nil-IsCanonical sub_interface_element Any) k v.interfaces;
        network_instances = v.network_instances;
        tunnel_interfaces = v.tunnel_interfaces;
        routing_policies = v.routing_policies;
        bfd = v.bfd;
      })
      (λ s. refl)

pub get_or_create_tunnel_interface-IsSafe :
    (name : String) (write : TunnelInterface → TunnelInterface)
    → Keeps tunnel_interface_element name IsValidTunnelInterface write
    → IsSafe (get_or_create_tunnel_interface name write)
unfolding get_or_create_tunnel_interface
get_or_create_tunnel_interface-IsSafe name write k =
    on_spec-IsSafe _
      (λ s v. record {
        interfaces = v.interfaces;
        network_instances = v.network_instances;
        tunnel_interfaces =
            update-Keeps tunnel_interface_element name IsValidTunnelInterface write
              s.tunnel_interfaces (nil-IsCanonical tunnel_sub_interface_element Any) k
              v.tunnel_interfaces;
        routing_policies = v.routing_policies;
        bfd = v.bfd;
      })
      (λ s. refl)

pub get_or_create_network_instance-IsSafe :
    (name : String) (write : NetworkInstance → NetworkInstance)
    → Keeps network_instance_element name IsValidNetworkInstance write
    → IsSafe (get_or_create_network_instance name write)
unfolding get_or_create_network_instance
get_or_create_network_instance-IsSafe name write k =
    on_spec-IsSafe _
      (λ s v. record {
        interfaces = v.interfaces;
        network_instances =
            update-Keeps network_instance_element name IsValidNetworkInstance write
              s.network_instances (record { protocols = tt; interfaces = tt }) k
              v.network_instances;
        tunnel_interfaces = v.tunnel_interfaces;
        routing_policies = v.routing_policies;
        bfd = v.bfd;
      })
      (λ s. refl)

pub add_or_update_interface-IsSafe : (x : Interface) → IsSafe (add_or_update_interface (some x))
unfolding add_or_update_interface interface_element
add_or_update_interface-IsSafe x =
    if-IsSafe (str_eq x.name "") _
      (λ _. get_or_create_interface-IsSafe x.name _ (record { ident = λ y p. p; step = λ y v. v }))

pub add_or_update_tunnel_interface-IsSafe :
    (x : TunnelInterface) → IsSafe (add_or_update_tunnel_interface (some x))
unfolding add_or_update_tunnel_interface
add_or_update_tunnel_interface-IsSafe x = if-IsSafe (str_eq x.name "") _ (λ _.
    get_or_create_tunnel_interface-IsSafe x.name _ (record { ident = λ y p. p; step = λ y v. v }))

pub get_or_create_interface_sub_interface-IsValid :
    (id : ℕ) (write : SubInterface → SubInterface) (r : Interface)
    → Keeps sub_interface_element id Any write
    → IsValidInterface r
    → IsValidInterface (get_or_create_interface_sub_interface id write r)
unfolding get_or_create_interface_sub_interface
get_or_create_interface_sub_interface-IsValid id write r k v =
    update-Keeps sub_interface_element id Any write r.sub_interfaces tt k v

pub add_or_update_interface_sub_interface-IsValid :
    (x : SubInterface) (r : Interface)
    → IsValidInterface r
    → IsValidInterface (add_or_update_interface_sub_interface x r)
unfolding add_or_update_interface_sub_interface sub_interface_element
add_or_update_interface_sub_interface-IsValid x r v =
    get_or_create_interface_sub_interface-IsValid x.id _ r
      (record { ident = λ y p. p; step = λ y p. p }) v

pub get_or_create_tunnel_interface_sub_interface-IsValid :
    (id : ℕ) (write : TunnelSubInterface → TunnelSubInterface) (r : TunnelInterface)
    → Keeps tunnel_sub_interface_element id Any write
    → IsValidTunnelInterface r
    → IsValidTunnelInterface (get_or_create_tunnel_interface_sub_interface id write r)
unfolding get_or_create_tunnel_interface_sub_interface
get_or_create_tunnel_interface_sub_interface-IsValid id write r k v =
    update-Keeps tunnel_sub_interface_element id Any write r.sub_interfaces tt k v

pub add_or_update_tunnel_interface_sub_interface-IsValid :
    (x : TunnelSubInterface) (r : TunnelInterface)
    → IsValidTunnelInterface r
    → IsValidTunnelInterface (add_or_update_tunnel_interface_sub_interface x r)
unfolding add_or_update_tunnel_interface_sub_interface tunnel_sub_interface_element
add_or_update_tunnel_interface_sub_interface-IsValid x r v =
    get_or_create_tunnel_interface_sub_interface-IsValid x.id _ r
      (record { ident = λ y p. p; step = λ y p. p }) v
