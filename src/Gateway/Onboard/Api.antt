-- ===== src/Gateway/Onboard/Api.antt =====
-- The data of an onboarding, and the interfaces that it calls: `GatewayApi` of
-- packages/rds-access/src/gateway/alibaba.ts and `Postgres` of sql-runner.ts.
use alchemy_alibaba.Prelude.{ℕ, String, Bool, List, Option}
use alchemy_alibaba.Effect.{Effect}
use alchemy_alibaba.Gateway.Model.{
  AccessError, PeerConnectionInfo, RouteEntryInfo, RoutePlan, ConnectivityPlan,
}
use alchemy_alibaba.Gateway.Planners.{NetworkType, Group, Account, WhitelistPlan, AccountPlan}
use alchemy_alibaba.Gateway.Grants.{GrantStatementPlan, Row}

-- `GatewayOnboardingInput`; its schema is the parameter `decode` of Onboard.Apply.
pub record OnboardingInput : Type 0 where
  pub instance_id : String
  pub region_id : String
  pub database : String
  pub display_name : String
  pub alias : String
  pub account : String
  pub whitelist_group : String
  pub schemas : List String
  pub owner_roles : List String
  pub network_type : NetworkType
  pub gateway_instance_id : Option String

pub record Admin : Type 0 where
  pub account : String
  pub password : String

pub record OnboardingOptions : Type 0 where
  pub create_peering : Bool
  pub gateway_instance_id : Option String
  pub account_password : Option String
  pub admin : Option Admin

pub record RdsPrivateEndpoint : Type 0 where
  pub host : String
  pub port : ℕ
  pub ip_address : String

pub record RdsInstanceInfo : Type 0 where
  pub instance_id : String
  pub region_id : String
  pub engine : String
  pub engine_version : Option String
  pub vpc_id : String
  pub v_switch_id : String
  pub endpoint : RdsPrivateEndpoint
  pub databases : List String
  pub accounts : List Account

pub record VpcInfo : Type 0 where
  pub vpc_id : String
  pub cidr_block : Option String
  pub region_id : String
  pub owner_id : Option ℕ

pub record VSwitchInfo : Type 0 where
  pub v_switch_id : String
  pub vpc_id : String
  pub route_table_id : String

pub record GatewayInstanceInfo : Type 0 where
  pub instance_id : String
  pub private_ip : String
  pub vpc_id : String
  pub v_switch_id : String
  pub status : String

pub record GatewayTopology : Type 0 where
  pub instance : GatewayInstanceInfo
  pub vpc : VpcInfo
  pub v_switch : VSwitchInfo

-- `WhitelistGroups`
pub record WhitelistGroups : Type 0 where
  pub all_groups : List Group
  pub network : List Group

pub record PeeringRequest : Type 0 where
  pub name : String
  pub gateway_vpc_id : String
  pub rds_vpc_id : String
  pub accepting_ali_uid : Option ℕ

pub data Verification : Type 0 where
  verified pending skipped : Verification

pub record GrantsPlan : Type 0 where
  pub is_changed : Bool
  pub verification : Verification
  pub issues : List String
  pub statements : List GrantStatementPlan

-- `Discovery`
pub record Discovery : Type 0 where
  pub rds : RdsInstanceInfo
  pub topology : GatewayTopology
  pub connectivity : ConnectivityPlan
  pub whitelist : WhitelistPlan
  pub account : AccountPlan
  pub grants : GrantsPlan

-- The requests of the control plane.
pub record GatewayApi (W : Type 0) : Type 0 where
  pub get_instance : String → Effect W AccessError RdsInstanceInfo
  pub get_groups : String → NetworkType → Effect W AccessError WhitelistGroups
  pub get_topology : Option String → Effect W AccessError GatewayTopology
  pub get_vpc : String → Effect W AccessError VpcInfo
  pub get_v_switch : String → Effect W AccessError VSwitchInfo
  pub get_peerings : List String → Effect W AccessError (List PeerConnectionInfo)
  pub get_routes : String → Effect W AccessError (List RouteEntryInfo)
  pub create_peering : PeeringRequest → Effect W AccessError String
  pub accept_peering : String → Effect W AccessError (Unit {0})
  pub create_route : RoutePlan → Effect W AccessError (Unit {0})
  -- The instance, the group, the address and the network.
  pub set_whitelist_group : String → String → String → NetworkType → Effect W AccessError (Unit {0})
  -- The instance, the account and its password.
  pub create_account : String → String → String → Effect W AccessError (Unit {0})

-- Queries and statements, at a URL.
pub record Postgres (W : Type 0) : Type 0 where
  pub query : String → String → Effect W AccessError (List Row)
  pub run : String → List String → Effect W AccessError (List (List Row))
