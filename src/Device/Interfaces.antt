-- ===== src/Device/Interfaces.antt =====
-- Interfaces, tunnel interfaces and their subinterfaces (apis/network/v1alpha1/device.go).
use text.Mathlib.Text.{◌==◌ as str_eq}
use kuidapps.Prelude.{ℕ, String, Option, none, some, [], get_or, if◌then◌else◌}
use kuidapps.Keyed.{update}
use kuidapps.Schema.{
  SubInterfaceAddresses, SubInterface, Interface, TunnelSubInterface, TunnelInterface,
}
use kuidapps.Device.Elements.{
  interface_element, sub_interface_element, tunnel_interface_element, tunnel_sub_interface_element,
}
use kuidapps.Device.Root.{Device, on_spec}

unfoldable pub get_or_create_interface : String → (Interface → Interface) → Device → Device
unfolding update interface_element
get_or_create_interface name write =
    on_spec (λ s. record s { interfaces = update interface_element name write s.interfaces })

-- The parameter may be nil, and an empty name is ignored.
unfoldable pub add_or_update_interface : Option Interface → Device → Device
unfolding get_or_create_interface
add_or_update_interface none r = r
add_or_update_interface (some new) r =
    if str_eq new.name ""
    then r
    else get_or_create_interface new.name
        (λ x. record x {
          lag_member = new.lag_member;
          speed = new.speed;
          vlan_tagging = new.vlan_tagging;
        })
        r

unfoldable pub get_or_create_tunnel_interface :
    String → (TunnelInterface → TunnelInterface) → Device → Device
unfolding update tunnel_interface_element
get_or_create_tunnel_interface name write = on_spec (λ s. record s {
  tunnel_interfaces = update tunnel_interface_element name write s.tunnel_interfaces;
})

-- The tunnel interface is only created.
unfoldable pub add_or_update_tunnel_interface : Option TunnelInterface → Device → Device
unfolding get_or_create_tunnel_interface
add_or_update_tunnel_interface none r = r
add_or_update_tunnel_interface (some new) r =
    if str_eq new.name "" then r else get_or_create_tunnel_interface new.name (λ x. x) r

unfoldable pub get_or_create_interface_sub_interface :
    ℕ → (SubInterface → SubInterface) → Interface → Interface
unfolding update sub_interface_element
get_or_create_interface_sub_interface id write r = record r {
  sub_interfaces = update sub_interface_element id write r.sub_interfaces;
}

unfoldable pub add_or_update_interface_sub_interface : SubInterface → Interface → Interface
unfolding get_or_create_interface_sub_interface
add_or_update_interface_sub_interface new =
    get_or_create_interface_sub_interface new.id
      (λ x. record x { peer_name = new.peer_name; vlan = new.vlan; kind = new.kind })

unfoldable pub get_or_create_tunnel_interface_sub_interface :
    ℕ → (TunnelSubInterface → TunnelSubInterface) → TunnelInterface → TunnelInterface
unfolding update tunnel_sub_interface_element
get_or_create_tunnel_interface_sub_interface id write r = record r {
  sub_interfaces = update tunnel_sub_interface_element id write r.sub_interfaces;
}

unfoldable pub add_or_update_tunnel_interface_sub_interface :
    TunnelSubInterface → TunnelInterface → TunnelInterface
unfolding get_or_create_tunnel_interface_sub_interface
add_or_update_tunnel_interface_sub_interface new =
    get_or_create_tunnel_interface_sub_interface new.id (λ x. record x { kind = new.kind })

unfoldable pub get_or_create_ipv4 :
    (SubInterfaceAddresses → SubInterfaceAddresses) → SubInterface → SubInterface
get_or_create_ipv4 write r = record r {
  ipv4 = some (write (get_or r.ipv4 (record { addresses = [] })));
}

unfoldable pub get_or_create_ipv6 :
    (SubInterfaceAddresses → SubInterfaceAddresses) → SubInterface → SubInterface
get_or_create_ipv6 write r = record r {
  ipv6 = some (write (get_or r.ipv6 (record { addresses = [] })));
}
