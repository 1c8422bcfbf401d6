-- ===== src/Gateway/Onboard/Apply.antt =====
-- `planGatewayOnboarding` and `applyGatewayOnboarding` of packages/rds-access/src/gateway/onboard.ts.
use Prim.Native.String.{◌++◌ as ◌<>◌}
use alchemy_alibaba.Prelude.{
  ℕ, String, Bool, true, false, not, List, [], ◌∷◌, ◌++◌, Option, none, some, str_eq, if◌then◌else◌,
  any,
}
use alchemy_alibaba.Effect.{Effect, succeed, raise, ◌>>=◌, Runtime}
use alchemy_alibaba.Gateway.Model.{AccessError, ConnectivityPlan}
use alchemy_alibaba.Gateway.Route.{failure}
use alchemy_alibaba.Gateway.Planners.{WhitelistPlan, AccountPlan}
use alchemy_alibaba.Gateway.Grants.{is_empty}
use alchemy_alibaba.Gateway.Grants.Queries.{join}
use alchemy_alibaba.Gateway.Onboard.Api.{
  OnboardingInput, OnboardingOptions, Discovery, GrantsPlan, verified, pending, skipped, GatewayApi,
  Postgres,
}
use alchemy_alibaba.Gateway.Onboard.Steps.{
  apply_connectivity, apply_whitelist, apply_account, apply_grants, is_verified,
}
use alchemy_alibaba.Gateway.Onboard.Discover.{discover}

pub data OnboardingStep : Type 0 where
  connectivity_step : ConnectivityPlan → OnboardingStep
  whitelist_step : WhitelistPlan → OnboardingStep
  account_step : AccountPlan → OnboardingStep
  grants_step : GrantsPlan → OnboardingStep

abbrev pub changes : OnboardingStep → Bool
changes (connectivity_step p) = p.is_changed
changes (whitelist_step p) = p.is_changed
changes (account_step p) = p.is_changed
changes (grants_step p) = p.is_changed

-- `GatewayOnboardingPlan`; the dialect is always `postgresql`.
pub record OnboardingPlan : Type 0 where
  pub instance_id : String
  pub region_id : String
  pub display_name : String
  pub alias : String
  pub is_changed : Bool
  pub host : String
  pub port : ℕ
  pub database : String
  pub account : String
  pub steps : List OnboardingStep
  pub warnings : List String

pub data StepKind : Type 0 where
  connectivity whitelist account grants : StepKind

pub record AppliedStep : Type 0 where
  pub kind : StepKind
  pub is_changed : Bool
  pub is_applied : Bool
  pub summary : String

pub record OnboardingResult : Type 0 where
  pub is_applied : Bool
  pub plan : OnboardingPlan
  pub steps : List AppliedStep

abbrev pub plan_steps : Discovery → List OnboardingStep
plan_steps d =
    connectivity_step d.connectivity
    ∷ whitelist_step d.whitelist
    ∷ account_step d.account
    ∷ grants_step d.grants
    ∷ []

abbrev is_skipped : GrantsPlan → Bool
is_skipped g = elim g.verification [ verified ↦ false | pending ↦ false | skipped ↦ true ]

abbrev warnings_of : OnboardingInput → Discovery → List String
warnings_of input d =
    (if is_empty input.owner_roles
      then "No owner roles were provided; SELECT will be granted on existing tables only. Pass --owner-role for each role that creates future tables."
        ∷ []
      else [])
    ++ (if is_skipped d.grants
        then "The account password was not available; permission verification and grants were not planned against PostgreSQL."
          ∷ []
        else [])

-- `buildPlan`
unfoldable pub build_plan : OnboardingInput → Discovery → OnboardingPlan
build_plan input d = record {
  instance_id = input.instance_id;
  region_id = input.region_id;
  display_name = input.display_name;
  alias = input.alias;
  is_changed = any changes (plan_steps d);
  host = d.rds.endpoint.host;
  port = d.rds.endpoint.port;
  database = input.database;
  account = input.account;
  steps = plan_steps d;
  warnings = warnings_of input d;
}

-- `texts.join(", ") || "absent"`
abbrev listed_or_absent : List String → String
listed_or_absent l = if str_eq (join ", " l) "" then "absent" else join ", " l

abbrev pub is_any_applied : List AppliedStep → Bool
is_any_applied = any (λ s. s.is_applied)

-- `decode` is the decoding of the input's schema, `none` where it fails.
module _ (decode : OnboardingInput → Option OnboardingInput) (encode lower : String → String)
    (other_number : List ℕ → Option ℕ) {W : Type 0} (api : GatewayApi W) (sql : Postgres W)
    (rt : Runtime W) where
  -- `validateInput`
  unfoldable pub validate_input : OnboardingInput → Effect W AccessError OnboardingInput
  validate_input raw = elim (decode raw) [
    | none ↦ raise (
        failure
          "Invalid onboarding input. Check the instance, database, name, alias, account and schema identifiers.")
    | some input ↦ succeed input
  ]

  unfoldable pub plan_gateway_onboarding :
      OnboardingInput → OnboardingOptions → Effect W AccessError OnboardingPlan
  unfolding validate_input build_plan
  plan_gateway_onboarding raw options = do
    input ← validate_input raw
    found ← discover encode lower other_number api sql rt input options
    succeed (build_plan input found)

  module _ (input : OnboardingInput) (options : OnboardingOptions) (before : Discovery) where
    abbrev pub applied_steps : Bool → Bool → Bool → GrantsPlan → List AppliedStep
    applied_steps connectivity_changed whitelist_changed account_changed after =
        record {
          kind = connectivity;
          is_changed = before.connectivity.is_changed;
          is_applied = connectivity_changed;
          summary = before.connectivity.summary;
        }
        ∷ record {
          kind = whitelist;
          is_changed = before.whitelist.is_changed;
          is_applied = whitelist_changed;
          summary =
              before.whitelist.group_name
              <> ": "
              <> listed_or_absent before.whitelist.previous
              <> " -> "
              <> listed_or_absent before.whitelist.desired;
        }
        ∷ record {
          kind = account;
          is_changed = before.account.is_changed;
          is_applied = account_changed;
          summary =
              (if before.account.is_present
                then "Reused " <> before.account.account_name
                else "Created " <> before.account.account_name);
        }
        ∷ record {
          kind = grants;
          is_changed = before.grants.is_changed;
          is_applied = not (is_verified encode rt api sql input before.grants);
          summary =
              (if is_empty after.issues
                then "Verified read-only permissions for " <> input.account
                else "Applied read-only grants; outstanding: " <> join "; " after.issues);
        }
        ∷ []

    -- The steps after the first.
    unfoldable pub apply_remaining : String → Bool → Effect W AccessError OnboardingResult
    apply_remaining password connectivity_changed = do
      whitelist_changed ←
          apply_whitelist rt api lower input before.topology.instance.private_ip before.whitelist
      account_changed ← apply_account rt api lower input password before.account
      after ← apply_grants encode rt api sql input options password before.grants
      succeed (record {
        is_applied =
            is_any_applied
              (applied_steps connectivity_changed whitelist_changed account_changed after);
        plan = build_plan input before;
        steps = applied_steps connectivity_changed whitelist_changed account_changed after;
      })

    -- The steps, after the discovery and with the password.
    unfoldable pub apply_steps : String → Effect W AccessError OnboardingResult
    unfolding apply_remaining
    apply_steps password =
        apply_connectivity rt api before.connectivity >>= apply_remaining password

    abbrev pub apply_with : Option String → Effect W AccessError OnboardingResult
    apply_with none = raise (
        failure
          "No account password was provided. Pass --account-password-file (the file is created with mode 0600 and a generated password when absent), then rerun.")
    apply_with (some password) = apply_steps password

  unfoldable pub apply_gateway_onboarding :
      OnboardingInput → OnboardingOptions → Effect W AccessError OnboardingResult
  unfolding validate_input build_plan apply_steps
  apply_gateway_onboarding raw options = do
    input ← validate_input raw
    before ← discover encode lower other_number api sql rt input options
    apply_with input options before options.account_password
