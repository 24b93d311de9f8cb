-- ===== src/Schema/Igp.antt =====
-- The OSPF and ISIS part of a network instance (apis/network/v1alpha1/networkdevice_type.go).
-- OSPF versions, ISIS levels, metric styles and network types are string types of
-- kuid's infra API: they are strings here.
use kuidapps.Prelude.{ℕ, String, Bool, Option, List}

-- A subinterface by its interface's name and its number. Go compares two of them by `==`.
pub record NetworkInstanceInterface : Type 0 where
  pub name : String
  pub id : ℕ

pub record OspfAreaInterface : Type 0 where
  pub sub_interface_name : NetworkInstanceInterface
  pub network_type : String
  pub passive : Bool
  pub bfd : Bool

-- `nssa` and `stub` are pointers to structs without fields.
pub record OspfArea : Type 0 where
  pub name : String
  pub interfaces : List OspfAreaInterface
  pub nssa : Option (Unit {0})
  pub stub : Option (Unit {0})

pub record OspfInstance : Type 0 where
  pub name : String
  pub version : String
  pub router_id : String
  pub areas : List OspfArea
  pub max_ecmp_paths : ℕ
  pub asbr : Bool

pub record Ospf : Type 0 where
  pub instances : List OspfInstance

pub record IsisLevelConfig : Type 0 where
  pub metric_style : String

pub record IsisInterfaceLevel : Type 0 where
  pub metric : ℕ
  pub metric_ipv6_unicast : ℕ
  pub disable : Bool

-- The IPv4 and the IPv6 part of an ISIS interface, which have the same fields.
pub record IsisInterfaceAf : Type 0 where
  pub bfd : Bool

pub record IsisInterface : Type 0 where
  pub sub_interface_name : NetworkInstanceInterface
  pub network_type : String
  pub level1 : Option IsisInterfaceLevel
  pub level2 : Option IsisInterfaceLevel
  pub ipv4 : Option IsisInterfaceAf
  pub ipv6 : Option IsisInterfaceAf
  pub passive : Bool

pub record IsisInstance : Type 0 where
  pub name : String
  pub net : List String
  pub level_capability : String
  pub level1 : Option IsisLevelConfig
  pub level2 : Option IsisLevelConfig
  pub interfaces : List IsisInterface
  pub max_ecmp_paths : ℕ
  pub address_families : List String

pub record Isis : Type 0 where
  pub instances : List IsisInstance
