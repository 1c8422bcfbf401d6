-- ===== src/Tests/Network.antt =====
-- Blocks, routes and peerings at concrete inputs.
use alchemy_alibaba.Prelude.{
  ℕ, ◌<◌, ◌^◌, ◌≡◌, ◌↔◌, ◌⊎◌, refl, true, false, List, [], ◌∷◌, Option, none, some,
}
use alchemy_alibaba.Effect.{ok}
use alchemy_alibaba.Gateway.Address.{cidr_contains, cidr_overlaps}
use alchemy_alibaba.Gateway.Address.Blocks.{InBlock, HostIn, cidr_contains_iff, cidr_overlaps_iff}
use alchemy_alibaba.Gateway.Model.{
  PeerConnectionInfo, RouteEntryInfo, reuse, none_needed, ConnectivityInput, RoutePlan,
}
use alchemy_alibaba.Gateway.Route.{RouteRequest, plan_route, host_route}
use alchemy_alibaba.Gateway.Route.Covers.{Covers}
use alchemy_alibaba.Gateway.Route.Decision.{Decision, plan_route-Decision}
use alchemy_alibaba.Gateway.Connectivity.{plan_peering, plan_connectivity, peered_plan}
use alchemy_alibaba.Gateway.Connectivity.Plans.{
  Chosen, Joined, plan_peering-Chosen, plan_connectivity-Joined,
}

abbrev no_number : List ℕ → Option ℕ
no_number text = none

cidr_contains_iff_example :
    (cidr_contains no_number "10.1.0.0/16" "10.1.2.3" ≡ true)
    ↔ HostIn no_number "10.1.0.0/16" "10.1.2.3"
cidr_contains_iff_example = cidr_contains_iff no_number "10.1.0.0/16" "10.1.2.3"

cidr_overlaps_iff_example : (cidr_overlaps no_number "10.1.0.0/16" "10.1.128.0/17" ≡ true) ↔ (
    (v : ℕ) × (v < 2 ^ 32)
    × InBlock no_number "10.1.0.0/16" v
    × InBlock no_number "10.1.128.0/17" v)
cidr_overlaps_iff_example = cidr_overlaps_iff no_number "10.1.0.0/16" "10.1.128.0/17"

abbrev to_peer : RouteEntryInfo
to_peer = record {
  route_entry_id = some "rte-1";
  destination_cidr_block = "10.2.0.0/16";
  next_hop_id = some "pcc-1";
  next_hop_type = some "VpcPeer";
  status = some "Available";
}

abbrev by_default : RouteEntryInfo
by_default = record {
  route_entry_id = some "rte-2";
  destination_cidr_block = "0.0.0.0/0";
  next_hop_id = some "ngw-1";
  next_hop_type = some "NatGateway";
  status = some "Available";
}

abbrev to_database : RouteRequest
to_database = record {
  route_table_id = "vtb-1";
  peer_host = "10.2.0.7";
  peering_id = some "pcc-1";
  description = "route vpc-1 to the database host";
}

plan_route-Decision_example :
    Decision to_database
      (Covers no_number "10.2.0.7" (by_default ∷ to_peer ∷ []))
      (plan_route no_number to_database (by_default ∷ to_peer ∷ []))
plan_route-Decision_example = plan_route-Decision no_number to_database (by_default ∷ to_peer ∷ [])

abbrev pub peering : PeerConnectionInfo
peering = record {
  peering_id = "pcc-1";
  name = none;
  status = "Activated";
  requester_vpc_id = "vpc-2";
  accepting_vpc_id = "vpc-1";
  accepting_region_id = none;
  accepting_owner_uid = none;
  requester_cidrs = [];
  accepting_cidrs = [];
}

abbrev input : ConnectivityInput
input = record {
  gateway = record {
    vpc_id = "vpc-1";
    v_switch_id = "vsw-1";
    route_table_id = "vtb-1";
    private_ip = "10.1.2.3";
    vpc_cidr = some "10.1.0.0/16";
  };
  rds = record {
    vpc_id = "vpc-2";
    v_switch_id = "vsw-2";
    route_table_id = "vtb-2";
    private_ip = "10.2.0.7";
    vpc_cidr = some "10.2.0.0/16";
  };
  peerings = peering ∷ [];
  gateway_routes = by_default ∷ to_peer ∷ [];
  rds_routes = [];
  create_peering = false;
  peering_name = "gateway-to-rds";
}

plan_peering-Chosen_example : Chosen input (reuse "pcc-1")
unfolding plan_peering
plan_peering-Chosen_example = plan_peering-Chosen input refl

abbrev missing_route : RoutePlan
missing_route = record {
  route_table_id = "vtb-2";
  destination_cidr_block = "10.1.2.3/32";
  next_hop_id = some "pcc-1";
  description = "route vpc-2 to the gateway host";
  is_present = false;
  is_changed = true;
}

abbrev pub present_route : RoutePlan
present_route = record {
  route_table_id = "vtb-1";
  destination_cidr_block = "10.2.0.0/16";
  next_hop_id = some "pcc-1";
  description = "route vpc-1 to the database host";
  is_present = true;
  is_changed = false;
}

planned :
    plan_connectivity input no_number
    ≡ ok (peered_plan input (reuse "pcc-1") present_route missing_route)
unfolding plan_connectivity host_route plan_route cidr_overlaps cidr_contains
planned = refl

plan_connectivity-Joined_example :
    let plan = peered_plan input (reuse "pcc-1") present_route missing_route in
    ((input.gateway.vpc_id ≡ input.rds.vpc_id)
      × (plan.is_changed ≡ false)
      × (plan.peering ≡ none_needed)
      × (plan.routes ≡ []))
    ⊎ Joined input no_number plan
plan_connectivity-Joined_example =
    plan_connectivity-Joined input no_number
      (peered_plan input (reuse "pcc-1") present_route missing_route) planned
