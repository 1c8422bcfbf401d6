-- ===== src/Ram/Policy.antt =====
-- The provider of src/ram/policy.ts: RAM policies of the account. `json_text` is `JSON.stringify` of a
-- policy document and `parse` is `JSON.parse`.
pub mod Operations
use alchemy_alibaba.Prelude.{
  String, Bool, true, false, not, ◌&&◌, List, [], ◌∷◌, Option, none, some, if◌then◌else◌,
}
use alchemy_alibaba.Effect.{Effect, succeed, fmap}
use alchemy_alibaba.Effect.Chain.{◌>>=◌, ◌>>◌}
use alchemy_alibaba.Errors.{Failure, ram}
use alchemy_alibaba.Errors.Classify.{get_or, or_else}
use alchemy_alibaba.Lifecycle.Identity.{
  physical_name, require_recovery_ownership, same_option as same_text,
}
use alchemy_alibaba.Lifecycle.Identity.Tags.{TagRecord, tags_equal}
use alchemy_alibaba.Lifecycle.Wait.{wait_for_present, wait_for_absent}
use alchemy_alibaba.Provider.{
  Context, call, wait_label, Planned, unresolved, resolved, Plan, keep, update, replace, Reading,
  missing, owned, unowned, is_given, is_text, differs_if_wanted, when, planned, widen,
  unless_missing, ignore_missing, run,
}
use alchemy_alibaba.Provider.Tags.{tag_list, desired_tags, user_tags}
use alchemy_alibaba.Ram.Client.{RamClients, SdkPolicy, SdkVersion, PolicyBody, read_tags, sync_tags}

pub record PolicyProps (Document : Type 0) : Type 0 where
  pub name : Option String
  pub document : Document
  pub description : Option String
  pub tags : Option TagRecord

pub record PolicyAttributes : Type 0 where
  pub name : String
  pub policy_type : String
  pub default_version : Option String
  pub document : String
  pub description : Option String
  pub tags : TagRecord

-- What `get` returns: a policy with the document in force.
pub record ObservedPolicy : Type 0 where
  pub policy : SdkPolicy
  pub document : Option String

-- `Policy.Type`
abbrev pub policy_type : String
policy_type = "Alibaba.RAM.Policy"

abbrev pub output_name : Option PolicyAttributes → Option String
output_name none = none
output_name (some o) = some o.name

abbrev observed_policy : PolicyBody → Option ObservedPolicy
observed_policy b = elim b.policy [
  | none ↦ none
  | some p ↦ some (record { policy = p; document = or_else b.default_document p.policy_document })
]

abbrev is_true : Option Bool → Bool
is_true none = false
is_true (some b) = b
