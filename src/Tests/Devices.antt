-- ===== src/Tests/Devices.antt =====
-- Two nodes with two interfaces, as the underlay builder configures them.
use kuidapps.Prelude.{String, ◌≡◌, true, false, none, some, List, [], ◌∷◌, All}
use kuidapps.Text.{split, first_part}
use kuidapps.Schema.{Interface, SubInterface, BgpNeighbor}
use kuidapps.Device.Valid.{IsValidSpec}
use kuidapps.Devices.Store.{Devices, new_devices, get_device, get_network_device_configs}
use kuidapps.Devices.Ops.{add_sub_interface, get_system_ip, first_address}
use kuidapps.Devices.Calls.{Call, run, interface, sub_interface, bgp_neighbor, provider}
use kuidapps.Devices.Form
use kuidapps.Devices.Form.{DistinctNames}
use kuidapps.Devices.Local
use kuidapps.Devices.Local.{own, replay}
use kuidapps.Devices.Reads
use kuidapps.Devices.Reads.{read_sub_interface}
use kuidapps.Device.Root.{new_device}

abbrev ethernet : Interface
ethernet = record {
  name = "e1-1";
  sub_interfaces = [];
  vlan_tagging = false;
  speed = "";
  lag_member = false;
}

abbrev routed : SubInterface
routed = record {
  peer_name = "leaf.e1-1";
  id = 0;
  kind = "routed";
  vlan = none;
  ipv4 = some (record { addresses = "10.0.0.0/31" ∷ [] });
  ipv6 = none;
}

abbrev session : BgpNeighbor
session = record {
  peer_address = "10.0.0.1";
  peer_as = 65001;
  peer_group = "underlay";
  local_as = 65000;
  local_address = "10.0.0.0";
  bfd = false;
}

abbrev calls : List (String × Call)
calls =
    ("spine", provider "srlinux.nokia.com")
    ∷ ("spine", interface ethernet)
    ∷ ("leaf", interface ethernet)
    ∷ ("spine", sub_interface "system0" routed)
    ∷ ("spine", sub_interface "e1-1" routed)
    ∷ ("spine", bgp_neighbor "default" session)
    ∷ []

abbrev network : Devices
unfolding new_devices
network = new_devices "default" "topo.default"

run-get_network_device_configs_example :
    All
      (λ nd.
        IsValidSpec nd.spec
        × (nd.namespace ≡ "default")
        × (nd.spec.topology ≡ first_part (split b'.' "topo.default")))
      (get_network_device_configs (run calls (new_devices "default" "topo.default")))
    × DistinctNames (get_network_device_configs (run calls (new_devices "default" "topo.default")))
run-get_network_device_configs_example =
    Form.run-get_network_device_configs "default" "topo.default" calls

get_device-run_example :
    get_device "leaf" (run calls network)
    ≡ replay
        (new_device network.namespace network.name "leaf")
        (get_device "leaf" network)
        (own "leaf" calls)
get_device-run_example = Local.get_device-run "leaf" calls network

read_sub_interface-add_sub_interface_example :
    read_sub_interface "spine" "e1-1" 0 (add_sub_interface "spine" "e1-1" routed network)
    ≡ some routed
read_sub_interface-add_sub_interface_example =
    Reads.read_sub_interface-add_sub_interface "spine" "spine" "e1-1" "e1-1" 0 routed network

get_system_ip-add_sub_interface_example :
    (get_system_ip "spine" "e1-1" 0 true (add_sub_interface "spine" "e1-1" routed network)).0
    ≡ first_address routed.ipv4
get_system_ip-add_sub_interface_example =
    Reads.get_system_ip-add_sub_interface "spine" "e1-1" routed true network
