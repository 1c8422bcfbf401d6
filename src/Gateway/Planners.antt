-- ===== src/Gateway/Planners.antt =====
-- `planWhitelist` and `planAccount` of packages/rds-access/src/gateway/planners.ts.
pub mod Plans
use Prim.Native.String.{◌++◌ as ◌<>◌}
use alchemy_alibaba.Prelude.{
  ℕ, String, Bool, true, false, not, ◌&&◌, ◌||◌, List, [], ◌∷◌, map, Option, none, some, str_eq,
  if◌then◌else◌, any, filter, length, ltb, ◌==◌,
}
use alchemy_alibaba.Effect.{Result, ok, fail}
use alchemy_alibaba.Gateway.Model.{AccessError}
use alchemy_alibaba.Gateway.Route.{failure}
use alchemy_alibaba.Gateway.Text.{trim_text, without_suffix, split_text}

-- `normalize`
unfoldable pub normalize : String → String
unfolding trim_text without_suffix
normalize value = without_suffix "/32" (trim_text value)

-- `NetworkType`
pub data NetworkType : Type 0 where
  mix vpc classic : NetworkType

abbrev pub network_name : NetworkType → String
network_name mix = "MIX"
network_name vpc = "VPC"
network_name classic = "Classic"

-- `Group`, an allowlist of an instance.
pub record Group : Type 0 where
  pub array_name : String
  pub security_ip_list : String
  pub array_attribute : Option String
  pub security_ip_type : Option String
  pub whitelist_network_type : Option String

pub record WhitelistPlan : Type 0 where
  pub is_changed : Bool
  pub group_name : String
  pub network_type : NetworkType
  pub previous : List String
  pub desired : List String

pub record AccountPlan : Type 0 where
  pub is_changed : Bool
  pub account_name : String
  pub is_present : Bool
  pub account_type : Option String

-- The list that the comma-separated text of a group holds.
unfoldable pub entries : Group → List String
unfolding normalize split_text
entries g = filter (λ s. not (str_eq s "")) (map normalize (split_text b',' g.security_ip_list))

-- A value that is given and is not the wanted one.
abbrev pub differs : Option String → String → Bool
differs none wanted = false
differs (some s) wanted = not (str_eq s wanted)

abbrev pub is_incompatible : NetworkType → Group → Bool
is_incompatible network g =
    differs g.array_attribute ""
    || differs g.security_ip_type "IPv4"
    || differs g.whitelist_network_type (network_name network)

-- `previous.length !== 1 || previous[0] !== options.gatewayIp`
abbrev pub is_not_only : List String → String → Bool
is_not_only (x ∷ []) ip = not (str_eq x ip)
is_not_only _ ip = true

pub record WhitelistRequest : Type 0 where
  pub groups : List Group
  pub network_groups : List Group
  pub group_name : String
  pub network_type : NetworkType
  pub gateway_ip : String

pub record Account : Type 0 where
  pub name : String
  pub kind : Option String

-- `lower` is `toLowerCase`.
module _ (lower : String → String) where
  abbrev pub is_named : String → Group → Bool
  is_named name g = str_eq (lower g.array_name) (lower name)

  module _ (o : WhitelistRequest) where
    abbrev pub new_group : WhitelistPlan
    new_group = record {
      is_changed = true;
      group_name = o.group_name;
      network_type = o.network_type;
      previous = [];
      desired = o.gateway_ip ∷ [];
    }

    abbrev pub update_group : Group → WhitelistPlan
    update_group g = record {
      is_changed = is_not_only (entries g) o.gateway_ip;
      group_name = o.group_name;
      network_type = o.network_type;
      previous = entries g;
      desired = o.gateway_ip ∷ [];
    }

    -- One group has the name; these groups of the network have it.
    unfoldable pub plan_group : Group → List Group → Result AccessError WhitelistPlan
    unfolding entries
    plan_group g (n ∷ []) =
        if any (is_incompatible o.network_type) (g ∷ n ∷ [])
        then fail (
            failure (
              "Allowlist group " <> o.group_name
              <> " has incompatible attributes or network type; it is not a dedicated gateway group."))
        else ok (update_group n)
    plan_group g _ = fail (
        failure (
          "Could not confirm "
          <> o.group_name
          <> " in the "
          <> network_name o.network_type
          <> " network; access was not changed by this read."))

    unfoldable pub plan_groups : List Group → List Group → Result AccessError WhitelistPlan
    unfolding plan_group
    plan_groups [] network = ok new_group
    plan_groups (g ∷ []) network = plan_group g network
    plan_groups (g ∷ h ∷ more) network = fail (
        failure (
          "Multiple allowlist groups are named " <> o.group_name
          <> "; resolve the duplicates first."))

    unfoldable pub plan_whitelist : Result AccessError WhitelistPlan
    unfolding plan_groups
    plan_whitelist =
        plan_groups (filter (is_named o.group_name) o.groups)
          (filter (is_named o.group_name) o.network_groups)

  module _ (account_name : String) where
    -- The answer for the accounts that have the name.
    unfoldable pub plan_accounts : List Account → Result AccessError AccountPlan
    plan_accounts [] = ok (record {
      is_changed = true;
      account_name = account_name;
      is_present = false;
      account_type = none;
    })
    plan_accounts (a ∷ []) =
        if differs a.kind "Normal"
        then fail (
            failure (
              "Account "
              <> account_name
              <> " is "
              <> (elim a.kind [ none ↦ "undefined" | some kind ↦ kind ])
              <> "; the gateway requires a Normal account."))
        else ok (record {
          is_changed = false;
          account_name = account_name;
          is_present = true;
          account_type = a.kind;
        })
    plan_accounts (a ∷ b ∷ more) = fail (
        failure
          ("Multiple RDS accounts are named " <> account_name <> "; resolve the duplicates first."))

    unfoldable pub plan_account : List Account → Result AccessError AccountPlan
    unfolding plan_accounts
    plan_account accounts =
        plan_accounts (filter (λ a. str_eq (lower a.name) (lower account_name)) accounts)
