-- ===== src/Tair/IpGroup.antt =====
-- The provider of src/tair/security-ip-group.ts: an allowlist of a Tair instance.
pub mod Operations
use alchemy_alibaba.Prelude.{
  String, Bool, true, not, ◌&&◌, ◌||◌, List, [], ◌∷◌, Option, none, some, str_eq, length, ◌==◌,
  if◌then◌else◌,
}
use alchemy_alibaba.Effect.{Effect, succeed, raise}
use alchemy_alibaba.Effect.Chain.{◌>>=◌}
use alchemy_alibaba.Errors.{Failure, tair}
use alchemy_alibaba.Errors.Classify.{get_or, or_else}
use alchemy_alibaba.Lifecycle.Identity.{invariant_error}
use alchemy_alibaba.Lifecycle.Wait.{wait_for, wait_for_present}
use alchemy_alibaba.Gateway.Grants.Queries.{join}
use alchemy_alibaba.Provider.{
  Context, call, wait_label, Planned, unresolved, resolved, Plan, keep, replace, differs_if_wanted,
  is_text, when, ignore_missing, found_or_missing, run,
}
use alchemy_alibaba.Rds.IpLists.{normalize, listed_ips, same_ips}
use alchemy_alibaba.Tair.Client.{TairClients, SdkIpGroup, request_mutation}

pub record SecurityIpGroupProps : Type 0 where
  pub instance_id : String
  pub name : Option String
  pub security_ips : List String
  pub attribute : Option String

-- The inputs as an earlier run has stored them.
pub record StoredIpGroup : Type 0 where
  pub instance_id : Option String
  pub name : Option String
  pub security_ips : Option (List String)

pub record SecurityIpGroupAttributes : Type 0 where
  pub instance_id : String
  pub name : String
  pub security_ips : List String
  pub attribute : Option String

-- `SecurityIpGroup.Type`
abbrev pub ip_group_type : String
ip_group_type = "Alibaba.Tair.SecurityIpGroup"

-- `DEFAULT_GROUP_FALLBACK_IPS`
abbrev pub fallback_ips : List String
fallback_ips = "127.0.0.1" ∷ []

abbrev pub output_instance : Option SecurityIpGroupAttributes → Option String
output_instance none = none
output_instance (some o) = some o.instance_id

abbrev pub output_name : Option SecurityIpGroupAttributes → Option String
output_name none = none
output_name (some o) = some o.name

-- `observedIps`
abbrev pub observed_ips : SdkIpGroup → List String
observed_ips g = listed_ips g.security_ip_list

-- `toAttributes`
unfoldable pub ip_group_attributes : String → String → SdkIpGroup → SecurityIpGroupAttributes
unfolding listed_ips
ip_group_attributes instance_id name g = record {
  instance_id = instance_id;
  name = get_or g.group_name name;
  security_ips = observed_ips g;
  attribute = g.group_attribute;
}

-- `diff`, which sends no request.
unfoldable pub diff_ip_group : StoredIpGroup → Planned SecurityIpGroupProps → Plan
diff_ip_group olds unresolved = keep
diff_ip_group olds (resolved news) = elim olds.instance_id [
  | none ↦ keep
  | some old_instance ↦ elim olds.security_ips [
    | none ↦ keep
    | some ips ↦
        if not (str_eq old_instance news.instance_id)
          || not (str_eq (get_or olds.name "default") (get_or news.name "default"))
        then replace
        else keep
  ]
]

-- The group holds the wanted addresses and attribute.
unfoldable pub ip_group_settled : Option String → List String → SdkIpGroup → Bool
unfolding same_ips listed_ips
ip_group_settled attribute desired g =
    same_ips (observed_ips g) desired && not (differs_if_wanted attribute g.group_attribute)

abbrev needs_change : Option String → List String → Option SdkIpGroup → Bool
needs_change attribute desired none = true
needs_change attribute desired (some g) = not (ip_group_settled attribute desired g)

-- The wait after a removal: the group is gone or holds what is left.
abbrev pub is_reset : List String → Option SdkIpGroup → Bool
is_reset addresses none = true
is_reset addresses (some g) = same_ips (observed_ips g) addresses

abbrev is_default : String → Bool
is_default name = str_eq name "default"
