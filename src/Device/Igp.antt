-- ===== src/Device/Igp.antt =====
-- The ISIS and OSPF configuration of a network instance (apis/network/v1alpha1/device.go).
use kuidapps.Prelude.{String, false, some, get_or}
use kuidapps.Keyed.{update}
use kuidapps.Schema.{
  NetworkInstanceInterface, OspfAreaInterface, OspfArea, OspfInstance, Ospf, IsisLevelConfig,
  IsisInterfaceLevel, IsisInterfaceAf, IsisInterface, IsisInstance, Isis,
}
use kuidapps.Device.Elements.{
  ospf_instance_element, ospf_area_element, ospf_area_interface_element, isis_instance_element,
  isis_interface_element,
}

unfoldable pub get_or_create_isis_instance : String → (IsisInstance → IsisInstance) → Isis → Isis
unfolding update isis_instance_element
get_or_create_isis_instance name write r = record {
  instances = update isis_instance_element name write r.instances;
}

unfoldable pub add_or_update_isis_instances : IsisInstance → Isis → Isis
unfolding get_or_create_isis_instance
add_or_update_isis_instances new = get_or_create_isis_instance new.name (λ x. record x {
  address_families = new.address_families;
  level_capability = new.level_capability;
  net = new.net;
  max_ecmp_paths = new.max_ecmp_paths;
})

abbrev no_level : IsisLevelConfig
no_level = record { metric_style = "" }

unfoldable pub get_or_create_isis_instance_level1 :
    (IsisLevelConfig → IsisLevelConfig) → IsisInstance → IsisInstance
get_or_create_isis_instance_level1 write r = record r {
  level1 = some (write (get_or r.level1 no_level));
}

unfoldable pub get_or_create_isis_instance_level2 :
    (IsisLevelConfig → IsisLevelConfig) → IsisInstance → IsisInstance
get_or_create_isis_instance_level2 write r = record r {
  level2 = some (write (get_or r.level2 no_level));
}

unfoldable pub add_or_update_isis_instance_level1 : IsisLevelConfig → IsisInstance → IsisInstance
unfolding get_or_create_isis_instance_level1
add_or_update_isis_instance_level1 new =
    get_or_create_isis_instance_level1 (λ x. record x { metric_style = new.metric_style })

-- The pointer stored in `Level2` is the one of `Level1`, which the write then goes through. The
-- two stay one variable; no code writes to a level after that.
unfoldable pub add_or_update_isis_instance_level2 : IsisLevelConfig → IsisInstance → IsisInstance
unfolding get_or_create_isis_instance_level1
add_or_update_isis_instance_level2 new r =
    let r' =
      get_or_create_isis_instance_level1 (λ x. record x { metric_style = new.metric_style }) r in
    record r' { level2 = r'.level1 }

unfoldable pub get_or_create_isis_instance_interface :
    NetworkInstanceInterface → (IsisInterface → IsisInterface) → IsisInstance → IsisInstance
unfolding update isis_interface_element
get_or_create_isis_instance_interface si_name write r = record r {
  interfaces = update isis_interface_element si_name write r.interfaces;
}

-- The levels of the new interface are not copied.
unfoldable pub add_or_update_isis_instance_interface : IsisInterface → IsisInstance → IsisInstance
unfolding get_or_create_isis_instance_interface
add_or_update_isis_instance_interface new =
    get_or_create_isis_instance_interface new.sub_interface_name (λ x. record x {
      ipv4 = new.ipv4;
      ipv6 = new.ipv6;
      passive = new.passive;
      network_type = new.network_type;
    })

unfoldable pub get_or_create_isis_interface_ipv4 :
    (IsisInterfaceAf → IsisInterfaceAf) → IsisInterface → IsisInterface
get_or_create_isis_interface_ipv4 write r = record r {
  ipv4 = some (write (get_or r.ipv4 (record { bfd = false })));
}

unfoldable pub get_or_create_isis_interface_ipv6 :
    (IsisInterfaceAf → IsisInterfaceAf) → IsisInterface → IsisInterface
get_or_create_isis_interface_ipv6 write r = record r {
  ipv6 = some (write (get_or r.ipv6 (record { bfd = false })));
}

abbrev no_interface_level : IsisInterfaceLevel
no_interface_level = record { metric = 0; metric_ipv6_unicast = 0; disable = false }

unfoldable pub get_or_create_isis_interface_level1 :
    (IsisInterfaceLevel → IsisInterfaceLevel) → IsisInterface → IsisInterface
get_or_create_isis_interface_level1 write r = record r {
  level1 = some (write (get_or r.level1 no_interface_level));
}

unfoldable pub get_or_create_isis_interface_level2 :
    (IsisInterfaceLevel → IsisInterfaceLevel) → IsisInterface → IsisInterface
get_or_create_isis_interface_level2 write r = record r {
  level2 = some (write (get_or r.level2 no_interface_level));
}

unfoldable pub get_or_create_ospf_instance : String → (OspfInstance → OspfInstance) → Ospf → Ospf
unfolding update ospf_instance_element
get_or_create_ospf_instance name write r = record {
  instances = update ospf_instance_element name write r.instances;
}

unfoldable pub add_or_update_ospf_instances : OspfInstance → Ospf → Ospf
unfolding get_or_create_ospf_instance
add_or_update_ospf_instances new = get_or_create_ospf_instance new.name (λ x. record x {
  asbr = new.asbr;
  max_ecmp_paths = new.max_ecmp_paths;
  router_id = new.router_id;
  version = new.version;
})

unfoldable pub get_or_create_ospf_instance_area :
    String → (OspfArea → OspfArea) → OspfInstance → OspfInstance
unfolding update ospf_area_element
get_or_create_ospf_instance_area name write r = record r {
  areas = update ospf_area_element name write r.areas;
}

unfoldable pub add_or_update_ospf_instance_area : OspfArea → OspfInstance → OspfInstance
unfolding get_or_create_ospf_instance_area
add_or_update_ospf_instance_area new =
    get_or_create_ospf_instance_area new.name (λ x. record x { nssa = new.nssa; stub = new.stub })

-- The structs behind these two pointers have no fields, so there is nothing to write.
unfoldable pub get_or_create_ospf_area_stub : OspfArea → OspfArea
get_or_create_ospf_area_stub r = record r { stub = some (get_or r.stub tt) }

unfoldable pub get_or_create_ospf_area_nssa : OspfArea → OspfArea
get_or_create_ospf_area_nssa r = record r { nssa = some (get_or r.nssa tt) }

unfoldable pub get_or_create_ospf_area_interface :
    NetworkInstanceInterface → (OspfAreaInterface → OspfAreaInterface) → OspfArea → OspfArea
unfolding update ospf_area_interface_element
get_or_create_ospf_area_interface si_name write r = record r {
  interfaces = update ospf_area_interface_element si_name write r.interfaces;
}

unfoldable pub add_or_update_ospf_area_interface : OspfAreaInterface → OspfArea → OspfArea
unfolding get_or_create_ospf_area_interface
add_or_update_ospf_area_interface new =
    get_or_create_ospf_area_interface new.sub_interface_name
      (λ x. record x { network_type = new.network_type; passive = new.passive; bfd = new.bfd })
