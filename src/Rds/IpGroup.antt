-- ===== src/Rds/IpGroup.antt =====
-- The provider of src/rds/security-ip-group.ts: an allowlist of an RDS instance. `lower` is
-- `toLowerCase`.
pub mod Operations
use alchemy_alibaba.Prelude.{
  String, Bool, true, false, not, ◌&&◌, ◌||◌, List, [], ◌∷◌, Option, none, some, str_eq, length,
  ◌==◌, if◌then◌else◌,
}
use alchemy_alibaba.Effect.{Effect, succeed, raise}
use alchemy_alibaba.Effect.Chain.{◌>>=◌}
use alchemy_alibaba.Errors.{Failure, rds}
use alchemy_alibaba.Errors.Classify.{get_or, or_else}
use alchemy_alibaba.Lifecycle.Identity.{invariant_error}
use alchemy_alibaba.Lifecycle.Identity.Tags.{TagRecord}
use alchemy_alibaba.Lifecycle.Wait.{wait_for, wait_for_present}
use alchemy_alibaba.Gateway.Grants.Queries.{join}
use alchemy_alibaba.Provider.{
  Context, call, wait_label, Planned, unresolved, resolved, Plan, keep, replace, differs_if_wanted,
  when, ignore_missing, found_or_missing, run_once,
}
use alchemy_alibaba.Rds.Client.{RdsClients, SdkIpGroup, ModifySecurityIps}
use alchemy_alibaba.Rds.IpLists.{normalize, listed_ips, same_ips}

-- `settings`; `others` are the settings that the code does not read.
pub record IpSettings : Type 0 where
  pub array_attribute : Option String
  pub security_ip_type : Option String
  pub others : TagRecord

pub record SecurityIpGroupProps : Type 0 where
  pub instance_id : String
  pub name : Option String
  pub security_ips : List String
  pub settings : Option IpSettings
  pub reset_to : Option (List String)

-- The inputs as an earlier run has stored them.
pub record StoredIpGroup : Type 0 where
  pub instance_id : Option String
  pub name : Option String
  pub security_ips : Option (List String)
  pub settings : Option IpSettings
  pub reset_to : Option (List String)

pub record SecurityIpGroupAttributes : Type 0 where
  pub instance_id : String
  pub name : String
  pub security_ips : List String
  pub attribute : Option String
  pub security_ip_type : Option String

-- `SecurityIpGroup.Type`
abbrev pub ip_group_type : String
ip_group_type = "Alibaba.RDS.SecurityIpGroup"

abbrev pub no_settings : IpSettings
no_settings = record { array_attribute = none; security_ip_type = none; others = [] }

abbrev pub output_instance : Option SecurityIpGroupAttributes → Option String
output_instance none = none
output_instance (some o) = some o.instance_id

abbrev pub output_name : Option SecurityIpGroupAttributes → Option String
output_name none = none
output_name (some o) = some o.name

-- `observedIps`
abbrev pub observed_ips : SdkIpGroup → List String
observed_ips g = listed_ips g.security_ip_list

-- `toAttributes`
unfoldable pub ip_group_attributes : String → String → SdkIpGroup → SecurityIpGroupAttributes
unfolding listed_ips
ip_group_attributes instance_id name g = record {
  instance_id = instance_id;
  name = get_or g.array_name name;
  security_ips = observed_ips g;
  attribute = g.array_attribute;
  security_ip_type = g.security_ip_type;
}

-- The group holds the wanted addresses and settings.
unfoldable pub ip_group_settled : IpSettings → List String → SdkIpGroup → Bool
unfolding same_ips listed_ips
ip_group_settled settings desired g =
    same_ips (observed_ips g) desired
    && not (differs_if_wanted settings.array_attribute g.array_attribute)
    && not (differs_if_wanted settings.security_ip_type g.security_ip_type)

abbrev needs_change : IpSettings → List String → Option SdkIpGroup → Bool
needs_change settings desired none = true
needs_change settings desired (some g) = not (ip_group_settled settings desired g)

abbrev observed_name : String → Option SdkIpGroup → String
observed_name name none = name
observed_name name (some g) = get_or g.array_name name

-- The wait after a reset: the group is gone or holds the addresses.
abbrev pub is_reset : List String → Option SdkIpGroup → Bool
is_reset addresses none = true
is_reset addresses (some g) = same_ips (observed_ips g) addresses

abbrev cover : IpSettings → String → String → List String → ModifySecurityIps
cover settings instance_id name ips = record {
  others = settings.others;
  array_attribute = settings.array_attribute;
  security_ip_type = settings.security_ip_type;
  db_instance_id = instance_id;
  array_name = name;
  modify_mode = "Cover";
  security_ips = join "," ips;
}

module _ (lower : String → String) where
  abbrev has_name : String → SdkIpGroup → Bool
  has_name name g = elim g.array_name [ none ↦ false | some n ↦ str_eq (lower n) (lower name) ]

  -- `diff`, which sends no request.
  unfoldable pub diff_ip_group : StoredIpGroup → Planned SecurityIpGroupProps → Plan
  diff_ip_group olds unresolved = keep
  diff_ip_group olds (resolved news) = elim olds.instance_id [
    | none ↦ keep
    | some old_instance ↦ elim olds.security_ips [
      | none ↦ keep
      | some ips ↦
          if not (str_eq old_instance news.instance_id)
            || not
                (str_eq (lower (get_or olds.name "Default")) (lower (get_or news.name "Default")))
          then replace
          else keep
    ]
  ]
