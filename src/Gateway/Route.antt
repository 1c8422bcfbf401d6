-- ===== src/Gateway/Route.antt =====
-- `planRoute` of packages/rds-access/src/gateway/connectivity.ts: one direction, by longest prefix.
pub mod Covers
pub mod Decision
use Prim.Native.String.{◌++◌ as ◌<>◌}
use alchemy_alibaba.Prelude.{
  ℕ, max, String, Bool, true, false, not, ◌&&◌, List, [], ◌∷◌, Option, none, some, ◌==◌, str_eq,
  if◌then◌else◌, any, all, filter,
}
use alchemy_alibaba.Effect.{Result, ok, fail}
use alchemy_alibaba.Errors.Classify.{get_or}
use alchemy_alibaba.Gateway.Text.{trim_text, without_suffix}
use alchemy_alibaba.Gateway.Model.{AccessError, RouteEntryInfo, RoutePlan}
use alchemy_alibaba.Gateway.Address.{Range, parse_cidr, cidr_contains}

-- `hostRoute`
unfoldable pub host_route : String → String
unfolding trim_text without_suffix
host_route ip = without_suffix "/32" (trim_text ip) <> "/32"

abbrev pub failure : String → AccessError
failure message = record { message = message; operation = none; code = none }

-- `routeUsesPeering`
abbrev pub route_uses_peering : RouteEntryInfo → Option String → Bool
route_uses_peering route none = false
route_uses_peering route (some id) = elim route.next_hop_id [
  | none ↦ false
  | some hop ↦ str_eq hop id
]

abbrev pub Covering : Type 0
Covering = RouteEntryInfo × Range

abbrev pub uses : Option String → Covering → Bool
uses peering_id (route, range) = route_uses_peering route peering_id

abbrev pub prefix_of : Covering → ℕ
prefix_of (route, range) = range.prefix

-- `Math.max(...prefixes)`, 0 where there is no prefix.
unfoldable pub max_prefix : List Covering → ℕ
max_prefix [] = 0
max_prefix (c ∷ cs) = max (prefix_of c) (max_prefix cs)

-- The request that `planRoute` answers.
pub record RouteRequest : Type 0 where
  pub route_table_id : String
  pub peer_host : String
  pub peering_id : Option String
  pub description : String

module _ (q : RouteRequest) where
  abbrev pub new_route : RoutePlan
  new_route = record {
    route_table_id = q.route_table_id;
    destination_cidr_block = host_route q.peer_host;
    next_hop_id = some (get_or q.peering_id "pending-peering");
    description = q.description;
    is_present = false;
    is_changed = true;
  }

  abbrev pub existing_route : Covering → RoutePlan
  existing_route (route, range) = record {
    route_table_id = q.route_table_id;
    destination_cidr_block = route.destination_cidr_block;
    next_hop_id = q.peering_id;
    description = q.description;
    is_present = true;
    is_changed = false;
  }

  hop_text : RouteEntryInfo → String
  hop_text route =
      get_or route.next_hop_type "another next hop"
      <> " ("
      <> get_or route.next_hop_id "unknown"
      <> ")"

  -- The refusal, of whether some most specific route uses the peering, and the first that does not.
  unfoldable pub refusal : Bool → Covering → AccessError
  unfolding hop_text
  refusal some_via (route, range) = failure (
      "Route table "
      <> q.route_table_id
      <> " reaches "
      <> q.peer_host
      <> " most specifically through "
      <> (if some_via then "both the peering and " <> hop_text route else hop_text route)
      <> " via "
      <> route.destination_cidr_block
      <> ". Refusing to shadow an existing path; resolve the connectivity manually.")

  -- The decision between the most specific routes through the peering and the others.
  unfoldable pub choose_route : List Covering → List Covering → Result AccessError RoutePlan
  choose_route [] [] = ok new_route
  choose_route [] (f ∷ foreign) =
      if all (λ c. prefix_of c == 0) (f ∷ foreign) then ok new_route else fail (refusal false f)
  choose_route (v ∷ via) [] = ok (existing_route v)
  choose_route (v ∷ via) (f ∷ foreign) = fail (refusal true f)

abbrev pub most_specific : List Covering → List Covering
most_specific cs = filter (λ c. prefix_of c == max_prefix cs) cs

abbrev pub plan_covering : RouteRequest → List Covering → Result AccessError RoutePlan
plan_covering q [] = ok (new_route q)
plan_covering q (c ∷ cs) =
    choose_route q (filter (uses q.peering_id) (most_specific (c ∷ cs)))
      (filter (λ x. not (uses q.peering_id x)) (most_specific (c ∷ cs)))

-- The routes whose block is well formed and holds the host, with their ranges.
module _ (other_number : List ℕ → Option ℕ) where
  abbrev keep_covering : String → RouteEntryInfo → Option Range → List Covering → List Covering
  keep_covering host route none rest = rest
  keep_covering host route (some range) rest =
      if cidr_contains other_number route.destination_cidr_block host
      then (route, range) ∷ rest
      else rest

  unfoldable pub covering : String → List RouteEntryInfo → List Covering
  covering host [] = []
  covering host (route ∷ routes) =
      keep_covering host route (parse_cidr other_number route.destination_cidr_block)
        (covering host routes)

  unfoldable pub plan_route : RouteRequest → List RouteEntryInfo → Result AccessError RoutePlan
  unfolding covering choose_route max_prefix
  plan_route q routes = plan_covering q (covering q.peer_host routes)
