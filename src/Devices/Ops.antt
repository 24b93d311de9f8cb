-- ===== src/Devices/Ops.antt =====
-- The methods of pkg/devbuilder/devices.go on interfaces, BFD, routing policies and network
-- instances.
use text.Mathlib.Text.{◌==◌ as str_eq}
use kuidapps.Prelude.{
  ℕ, String, Bool, true, ◌&&◌, Option, none, some, List, [], ◌∷◌, is_some, if◌then◌else◌, nat_eq,
}
use kuidapps.Keyed.{at}
use kuidapps.Schema.{
  NetworkInstanceInterface, NetworkInstance, BfdInterface, SubInterfaceAddresses, SubInterface,
  Interface, TunnelSubInterface, TunnelInterface,
}
use kuidapps.Device.Elements.{interface_element, sub_interface_element}
use kuidapps.Device.Root.{
  add_provider, get_or_create_bfd, add_or_update_bfd_interface, get_or_create_routing_policy,
  get_or_create_system, get_or_create_system_protocols, get_or_create_system_protocols_bgp_vpn,
}
use kuidapps.Device.Interfaces.{
  get_or_create_interface, add_or_update_interface, get_or_create_tunnel_interface,
  add_or_update_tunnel_interface, get_or_create_interface_sub_interface,
  add_or_update_interface_sub_interface, get_or_create_tunnel_interface_sub_interface,
  add_or_update_tunnel_interface_sub_interface,
}
use kuidapps.Device.Bgp.{get_or_create_network_instance}
use kuidapps.Devices.Store.{Devices, with_device, device_or_new}

unfoldable pub add_provider_to : String → String → Devices → Devices
unfolding with_device add_provider
add_provider_to node_name provider = with_device node_name (add_provider provider)

unfoldable pub add_bfd_interface : String → BfdInterface → Devices → Devices
unfolding with_device get_or_create_bfd add_or_update_bfd_interface
add_bfd_interface node_name x =
    with_device node_name (get_or_create_bfd (add_or_update_bfd_interface (some x)))

unfoldable pub add_interface : String → Interface → Devices → Devices
unfolding with_device add_or_update_interface
add_interface node_name x = with_device node_name (add_or_update_interface (some x))

unfoldable pub add_tunnel_interface : String → TunnelInterface → Devices → Devices
unfolding with_device add_or_update_tunnel_interface
add_tunnel_interface node_name x = with_device node_name (add_or_update_tunnel_interface (some x))

-- What `AddSubInterface` writes through the interface's pointer.
unfoldable pub write_sub_interface : SubInterface → Interface → Interface
unfolding add_or_update_interface_sub_interface get_or_create_interface_sub_interface
write_sub_interface x itfce =
    let tagged = if is_some x.vlan then record itfce { vlan_tagging = true } else itfce in
    let added = add_or_update_interface_sub_interface x tagged in
    get_or_create_interface_sub_interface x.id
      (λ si. record si {
        ipv4 = x.ipv4;
        ipv6 = x.ipv6;
        peer_name = x.peer_name;
        vlan = x.vlan;
        kind = x.kind;
      })
      added

unfoldable pub add_sub_interface : String → String → SubInterface → Devices → Devices
unfolding with_device get_or_create_interface write_sub_interface
add_sub_interface node_name if_name x =
    with_device node_name (get_or_create_interface if_name (write_sub_interface x))

unfoldable pub add_tunnel_sub_interface : String → String → TunnelSubInterface → Devices → Devices
unfolding with_device get_or_create_tunnel_interface add_or_update_tunnel_interface_sub_interface
    get_or_create_tunnel_interface_sub_interface
add_tunnel_sub_interface node_name if_name x = with_device node_name (
    get_or_create_tunnel_interface if_name (λ itfce.
      get_or_create_tunnel_interface_sub_interface x.id (λ si. record si { kind = x.kind })
        (add_or_update_tunnel_interface_sub_interface x itfce)))

-- Only the name and the type of the new instance are used.
unfoldable pub add_network_instance_to : String → NetworkInstance → Devices → Devices
unfolding with_device get_or_create_network_instance
add_network_instance_to node_name new =
    with_device node_name
      (get_or_create_network_instance new.name (λ ni. record ni { kind = new.kind }))

-- The loop that replaces the first subinterface with the same name and number, or appends.
unfoldable pub replace_or_append :
    NetworkInstanceInterface → List NetworkInstanceInterface → List NetworkInstanceInterface
replace_or_append x [] = x ∷ []
replace_or_append x (y ∷ ys) =
    if str_eq y.name x.name && nat_eq y.id x.id then x ∷ ys else y ∷ replace_or_append x ys

unfoldable pub add_network_instance_sub_interface :
    String → String → NetworkInstanceInterface → Devices → Devices
unfolding with_device get_or_create_network_instance replace_or_append
add_network_instance_sub_interface node_name ni_name x = with_device node_name (
    get_or_create_network_instance ni_name
      (λ ni. record ni { interfaces = replace_or_append x ni.interfaces }))

unfoldable pub add_network_instance_sub_interface_vxlan :
    String → String → NetworkInstanceInterface → Devices → Devices
unfolding with_device get_or_create_network_instance
add_network_instance_sub_interface_vxlan node_name ni_name x =
    with_device node_name
      (get_or_create_network_instance ni_name (λ ni. record ni { vxlan_interface = some x }))

unfoldable pub add_routing_policy : String → String → List String → List String → Devices → Devices
unfolding with_device get_or_create_routing_policy
add_routing_policy node_name policy_name ipv4 ipv6 = with_device node_name (
    get_or_create_routing_policy policy_name
      (λ rp. record rp { ipv4_prefixes = ipv4; ipv6_prefixes = ipv6 }))

-- The struct that the method is given has no fields and is not used.
unfoldable pub add_system_protocols_bgp_vpn : String → Devices → Devices
unfolding with_device get_or_create_system get_or_create_system_protocols
    get_or_create_system_protocols_bgp_vpn
add_system_protocols_bgp_vpn node_name =
    with_device node_name
      (get_or_create_system (get_or_create_system_protocols get_or_create_system_protocols_bgp_vpn))

unfoldable pub first_address : Option SubInterfaceAddresses → String
first_address none = ""
first_address (some a) = elim a.addresses [ [] ↦ "" | x ∷ _ ↦ x ]

-- The interface and the subinterface are created, where they are missing, also by this reader.
unfoldable pub get_system_ip : String → String → ℕ → Bool → Devices → String × Devices
unfolding with_device get_or_create_interface get_or_create_interface_sub_interface first_address
get_system_ip node_name if_name id ipv4 r =
    let itfce = at interface_element if_name (device_or_new node_name r).nd.spec.interfaces in
    let si = at sub_interface_element id itfce.sub_interfaces in
    (
      if ipv4 then first_address si.ipv4 else first_address si.ipv6,
      with_device node_name
          (get_or_create_interface if_name (get_or_create_interface_sub_interface id (λ x. x))) r,
    )
