-- ===== src/Gateway/Model.antt =====
-- The data of packages/rds-access/src/gateway/model.ts and of the planners' inputs.
use alchemy_alibaba.Prelude.{ℕ, String, Bool, List, Option}

-- `AccessError` of packages/rds-access/src/model.ts.
pub record AccessError : Type 0 where
  pub message : String
  pub operation : Option String
  pub code : Option String

pub record PeerConnectionInfo : Type 0 where
  pub peering_id : String
  pub name : Option String
  pub status : String
  pub requester_vpc_id : String
  pub accepting_vpc_id : String
  pub accepting_region_id : Option String
  pub accepting_owner_uid : Option ℕ
  pub requester_cidrs : List String
  pub accepting_cidrs : List String

pub record RouteEntryInfo : Type 0 where
  pub route_entry_id : Option String
  pub destination_cidr_block : String
  pub next_hop_id : Option String
  pub next_hop_type : Option String
  pub status : Option String

-- `nextHopType` is always `VpcPeer`. The next hop is `none` where the code's `!` would hide an
-- undefined peering.
pub record RoutePlan : Type 0 where
  pub route_table_id : String
  pub destination_cidr_block : String
  pub next_hop_id : Option String
  pub description : String
  pub is_present : Bool
  pub is_changed : Bool

pub data PeeringAction : Type 0 where
  none_needed : PeeringAction
  reuse accept create : String → PeeringAction

pub record ConnectivityPlan : Type 0 where
  pub is_changed : Bool
  pub summary : String
  pub same_vpc : Bool
  pub gateway_vpc_id : String
  pub rds_vpc_id : String
  pub gateway_private_ip : String
  pub rds_private_ip : String
  pub peering : PeeringAction
  pub routes : List RoutePlan

pub record ConnectivitySide : Type 0 where
  pub vpc_id : String
  pub v_switch_id : String
  pub route_table_id : String
  pub private_ip : String
  pub vpc_cidr : Option String

pub record ConnectivityInput : Type 0 where
  pub gateway : ConnectivitySide
  pub rds : ConnectivitySide
  pub peerings : List PeerConnectionInfo
  pub gateway_routes : List RouteEntryInfo
  pub rds_routes : List RouteEntryInfo
  pub create_peering : Bool
  pub peering_name : String
