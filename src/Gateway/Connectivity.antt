-- ===== src/Gateway/Connectivity.antt =====
-- `planPeering` and `planConnectivity` of packages/rds-access/src/gateway/connectivity.ts.
pub mod Plans
use Prim.Native.String.{◌++◌ as ◌<>◌}
use alchemy_alibaba.Prelude.{
  ℕ, String, Bool, true, false, not, ◌&&◌, ◌||◌, List, [], ◌∷◌, Option, none, some, str_eq,
  if◌then◌else◌, any, filter, length, ltb, ◌==◌,
}
use alchemy_alibaba.Effect.{Result, ok, fail}
use alchemy_alibaba.Gateway.Decimal.{decimal_text}
use alchemy_alibaba.Gateway.Model.{
  AccessError, PeerConnectionInfo, PeeringAction, none_needed, reuse, accept, create,
  ConnectivityInput, ConnectivityPlan, RoutePlan,
}
use alchemy_alibaba.Gateway.Address.{cidr_overlaps}
use alchemy_alibaba.Gateway.Route.{failure, RouteRequest, plan_route}

abbrev member : String → List String → Bool
member s l = any (str_eq s) l

abbrev pub terminal_failure : List String
terminal_failure = "Rejected" ∷ "Expired" ∷ "Deleted" ∷ "Deleting" ∷ []

-- `pairMatches`
abbrev pub pair_matches : PeerConnectionInfo → String → String → Bool
pair_matches p a b =
    (str_eq p.requester_vpc_id a && str_eq p.accepting_vpc_id b)
    || (str_eq p.requester_vpc_id b && str_eq p.accepting_vpc_id a)

abbrev pub is_candidate : ConnectivityInput → PeerConnectionInfo → Bool
is_candidate input p =
    pair_matches p input.gateway.vpc_id input.rds.vpc_id && not (member p.status terminal_failure)

-- The answer for the one candidate.
unfoldable pub use_peering : PeerConnectionInfo → Result AccessError PeeringAction
use_peering p =
    if str_eq p.status "Activated"
    then ok (reuse p.peering_id)
    else if member p.status ("Creating" ∷ "Accepting" ∷ "Updating" ∷ [])
    then ok (accept p.peering_id)
    else fail (
        failure (
          "VPC peering " <> p.peering_id <> " is " <> p.status
          <> "; it cannot be reused or repaired automatically."))

-- The answer for the candidates.
unfoldable pub choose_peering :
    ConnectivityInput → List PeerConnectionInfo → Result AccessError PeeringAction
choose_peering input [] =
    if input.create_peering
    then ok (create input.peering_name)
    else fail (
        failure (
          "No VPC peering connects " <> input.gateway.vpc_id <> " to " <> input.rds.vpc_id
          <> ". Pass --create-peering to plan its creation, or connect the VPCs manually."))
choose_peering input (p ∷ []) = use_peering p
choose_peering input (p ∷ r ∷ more) = fail (
    failure (
      "Found "
      <> decimal_text (length (p ∷ r ∷ more))
      <> " VPC peerings between "
      <> input.gateway.vpc_id
      <> " and "
      <> input.rds.vpc_id
      <> ". Refusing to choose; keep only the intended peering or onboard manually."))

unfoldable pub plan_peering : ConnectivityInput → Result AccessError PeeringAction
unfolding use_peering choose_peering
plan_peering input = choose_peering input (filter (is_candidate input) input.peerings)

-- `"peeringId" in peering ? peering.peeringId : undefined`
abbrev pub peering_id_of : PeeringAction → Option String
peering_id_of (reuse id) = some id
peering_id_of (accept id) = some id
peering_id_of _ = none

abbrev pub changes_peering : PeeringAction → Bool
changes_peering (create name) = true
changes_peering (accept id) = true
changes_peering _ = false

infixl 10 ◌>>=◌
abbrev ◌>>=◌ :
    {A B : Type 0} → Result AccessError A → (A → Result AccessError B) → Result AccessError B
ok a >>= f = f a
fail e >>= f = fail e

abbrev text_of : Option String → String
text_of none = "undefined"
text_of (some s) = s

module _ (input : ConnectivityInput) where
  abbrev pub gateway_request : PeeringAction → RouteRequest
  gateway_request peering = record {
    route_table_id = input.gateway.route_table_id;
    peer_host = input.rds.private_ip;
    peering_id = peering_id_of peering;
    description = "route " <> input.gateway.vpc_id <> " to the database host";
  }

  abbrev pub rds_request : PeeringAction → RouteRequest
  rds_request peering = record {
    route_table_id = input.rds.route_table_id;
    peer_host = input.gateway.private_ip;
    peering_id = peering_id_of peering;
    description = "route " <> input.rds.vpc_id <> " to the gateway host";
  }

  summary_of : PeeringAction → List RoutePlan → String
  summary_of (create name) routes =
      "Create peering " <> input.peering_name <> " between " <> input.gateway.vpc_id <> " and "
      <> input.rds.vpc_id <> " and add both routes."
  summary_of (accept id) routes = "Accept peering " <> id <> " and add any missing routes."
  summary_of other routes =
      if any (λ r. r.is_changed) routes
      then "Reuse peering "
        <> text_of (peering_id_of other)
        <> " and add "
        <> decimal_text (length (filter (λ r. r.is_changed) routes))
        <> " missing route(s)."
      else "Reuse peering " <> text_of (peering_id_of other) <> "; both routes already exist."

  abbrev plan_with : Bool → Bool → String → PeeringAction → List RoutePlan → ConnectivityPlan
  plan_with changed same summary peering routes = record {
    is_changed = changed;
    summary = summary;
    same_vpc = same;
    gateway_vpc_id = input.gateway.vpc_id;
    rds_vpc_id = input.rds.vpc_id;
    gateway_private_ip = input.gateway.private_ip;
    rds_private_ip = input.rds.private_ip;
    peering = peering;
    routes = routes;
  }

  pub same_vpc_plan : ConnectivityPlan
  same_vpc_plan =
      plan_with false true
        "The gateway and the database share one VPC; no peering or routes are needed." none_needed
        []

  pub peered_plan : PeeringAction → RoutePlan → RoutePlan → ConnectivityPlan
  unfolding summary_of
  peered_plan peering outward back =
      plan_with (changes_peering peering || any (λ r. r.is_changed) (outward ∷ back ∷ [])) false
        (summary_of peering (outward ∷ back ∷ [])) peering (outward ∷ back ∷ [])

  module _ (other_number : List ℕ → Option ℕ) where
    -- Across two VPCs with known blocks.
    unfoldable pub plan_peered : String → String → Result AccessError ConnectivityPlan
    unfolding plan_peering peered_plan
    plan_peered gateway_cidr rds_cidr =
        if cidr_overlaps other_number gateway_cidr rds_cidr
        then fail (
            failure (
              "VPC CIDRs " <> gateway_cidr <> " and " <> rds_cidr
              <> " overlap; overlapping networks are not supported."))
        else do
          peering ← plan_peering input
          outward ← plan_route other_number (gateway_request peering) input.gateway_routes
          back ← plan_route other_number (rds_request peering) input.rds_routes
          ok (peered_plan peering outward back)

    abbrev plan_across : Option String → Option String → Result AccessError ConnectivityPlan
    plan_across (some a) (some b) = plan_peered a b
    plan_across _ _ =
        fail (
          failure
            "Could not read both VPC CIDR blocks; cross-VPC routing cannot be planned safely.")

    unfoldable pub plan_connectivity : Result AccessError ConnectivityPlan
    unfolding plan_peered same_vpc_plan
    plan_connectivity =
        if str_eq input.gateway.vpc_id input.rds.vpc_id
        then ok same_vpc_plan
        else plan_across input.gateway.vpc_cidr input.rds.vpc_cidr
