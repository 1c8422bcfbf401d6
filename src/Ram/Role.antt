-- ===== src/Ram/Role.antt =====
-- The provider of src/ram/role.ts: RAM roles. `json_text` is `JSON.stringify` of a policy document and
-- `parse` is `JSON.parse`.
pub mod Operations
use Prim.Native.String.{◌++◌ as ◌<>◌}
use alchemy_alibaba.Prelude.{
  ℕ, String, Bool, true, false, not, ◌&&◌, List, [], ◌∷◌, ◌++◌, Option, none, some, ◌==◌,
  if◌then◌else◌, str_eq,
}
use alchemy_alibaba.Effect.{Effect, succeed, fmap}
use alchemy_alibaba.Effect.Chain.{◌>>=◌, ◌>>◌}
use alchemy_alibaba.Errors.{Failure, ram}
use alchemy_alibaba.Errors.Classify.{get_or, or_else}
use alchemy_alibaba.Lifecycle.Identity.{
  require_value, physical_name, require_recovery_ownership, same_option as same_text,
}
use alchemy_alibaba.Lifecycle.Identity.Tags.{TagRecord, tags_equal}
use alchemy_alibaba.Lifecycle.Wait.{wait_for_present, wait_for_absent}
use alchemy_alibaba.Provider.{
  Context, call, wait_label, Planned, unresolved, resolved, Plan, keep, update, replace, Reading,
  missing, owned, unowned, differs_if_wanted, when, planned, widen, unless_missing, ignore_missing,
  run,
}
use alchemy_alibaba.Provider.Tags.{tag_list, desired_tags, user_tags}
use alchemy_alibaba.Ram.Client.{
  RamClients, SdkRole, RolesBody, MarkedPage, pages, read_tags, sync_tags,
}

pub record RoleProps (Document : Type 0) : Type 0 where
  pub name : Option String
  pub assume_role_policy : Document
  pub description : Option String
  pub max_session_duration : Option ℕ
  pub tags : Option TagRecord

pub record RoleAttributes : Type 0 where
  pub name : String
  pub role_id : String
  pub arn : String
  pub assume_role_policy : String
  pub description : Option String
  pub max_session_duration : Option ℕ
  pub tags : TagRecord

-- `Role.Type`
abbrev pub role_type : String
role_type = "Alibaba.RAM.Role"

abbrev pub output_name : Option RoleAttributes → Option String
output_name none = none
output_name (some o) = some o.name

abbrev is_number : ℕ → Option ℕ → Bool
is_number n none = false
is_number n (some m) = m == n

abbrev is_true : Option Bool → Bool
is_true none = false
is_true (some b) = b

abbrev names_page : RolesBody → MarkedPage (Option String)
names_page b = record {
  items = get_or b.roles [];
  next = if is_true b.is_truncated then b.marker else none;
}
