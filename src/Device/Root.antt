-- ===== src/Device/Root.antt =====
-- `Device` and its operations on whole-device parts (apis/network/v1alpha1/device.go,
-- networkdevice_interfaces.go): construction, provider, BFD, routing policies, system protocols.
use text.Mathlib.Text.{◌==◌ as str_eq}
use kuidapps.Prelude.{String, Option, none, some, [], get_or, if◌then◌else◌}
use kuidapps.Text.{◌⧺◌, split, first_part}
use kuidapps.Keyed.{update}
use kuidapps.Schema.{
  NetworkInstanceInterface, BfdInterface, Bfd, RoutingPolicy, SystemProtocols, System,
  NetworkDeviceSpec, NetworkDevice,
}
use kuidapps.Device.Elements.{bfd_interface_element, routing_policy_element}

pub record Device : Type 0 where
  pub nd : NetworkDevice

abbrev empty_spec : NetworkDeviceSpec
empty_spec = record {
  topology = "";
  provider = "";
  interfaces = [];
  network_instances = [];
  tunnel_interfaces = [];
  routing_policies = [];
  system = none;
  bfd = none;
}

-- `nil` for the spec stands for the zero value.
unfoldable pub build_network_device : String → String → Option NetworkDeviceSpec → NetworkDevice
build_network_device name namespace spec = record {
  name = name;
  namespace = namespace;
  spec = get_or spec empty_spec;
}

-- The network's name is split at its dots: the first part is the topology.
unfoldable pub new_device : String → String → String → Device
unfolding build_network_device first_part split
new_device namespace name node_name =
    let parts = split b'.' name in
    record {
      nd =
          build_network_device (name ⧺ "." ⧺ node_name) namespace
            (some (record empty_spec { topology = first_part parts }));
    }

-- A write to `r.nd.Spec`.
abbrev pub on_spec : (NetworkDeviceSpec → NetworkDeviceSpec) → Device → Device
on_spec f r = record {
  nd = record { name = r.nd.name; namespace = r.nd.namespace; spec = f r.nd.spec };
}

unfoldable pub add_provider : String → Device → Device
add_provider provider = on_spec (λ s. record s { provider = provider })

unfoldable pub get_or_create_bfd : (Bfd → Bfd) → Device → Device
get_or_create_bfd write =
    on_spec (λ s. record s { bfd = some (write (get_or s.bfd (record { interfaces = [] }))) })

unfoldable pub get_or_create_bfd_interface :
    NetworkInstanceInterface → (BfdInterface → BfdInterface) → Bfd → Bfd
unfolding update bfd_interface_element
get_or_create_bfd_interface si_name write r = record {
  interfaces = update bfd_interface_element si_name write r.interfaces;
}

-- The parameter may be nil, and an empty name is ignored.
unfoldable pub add_or_update_bfd_interface : Option BfdInterface → Bfd → Bfd
unfolding get_or_create_bfd_interface
add_or_update_bfd_interface none r = r
add_or_update_bfd_interface (some new) r =
    if str_eq new.sub_interface_name.name ""
    then r
    else get_or_create_bfd_interface new.sub_interface_name
        (λ x. record x { bfd_link_parameters = new.bfd_link_parameters }) r

unfoldable pub get_or_create_routing_policy :
    String → (RoutingPolicy → RoutingPolicy) → Device → Device
unfolding update routing_policy_element
get_or_create_routing_policy name write = on_spec (λ s. record s {
  routing_policies = update routing_policy_element name write s.routing_policies;
})

unfoldable pub add_or_update_routing_policy : Option RoutingPolicy → Device → Device
unfolding get_or_create_routing_policy
add_or_update_routing_policy none r = r
add_or_update_routing_policy (some new) r =
    if str_eq new.name ""
    then r
    else get_or_create_routing_policy new.name
        (λ x. record x { ipv4_prefixes = new.ipv4_prefixes; ipv6_prefixes = new.ipv6_prefixes }) r

unfoldable pub get_or_create_system : (System → System) → Device → Device
get_or_create_system write =
    on_spec
      (λ s. record s { system = some (write (get_or s.system (record { protocols = none }))) })

unfoldable pub get_or_create_system_protocols :
    (SystemProtocols → SystemProtocols) → System → System
get_or_create_system_protocols write r = record {
  protocols = some (write (get_or r.protocols (record { bgp_vpn = none; bgp_evpn = none })));
}

-- The structs behind these two pointers have no fields, so there is nothing to write.
unfoldable pub get_or_create_system_protocols_bgp_evpn : SystemProtocols → SystemProtocols
get_or_create_system_protocols_bgp_evpn r = record r { bgp_evpn = some (get_or r.bgp_evpn tt) }

unfoldable pub get_or_create_system_protocols_bgp_vpn : SystemProtocols → SystemProtocols
get_or_create_system_protocols_bgp_vpn r = record r { bgp_vpn = some (get_or r.bgp_vpn tt) }
