-- ===== src/Ecs/Disk.antt =====
-- The provider of src/ecs/disk.ts: data disks.
pub mod Operations
use Prim.Native.String.{◌++◌ as ◌<>◌}
use alchemy_alibaba.Prelude.{
  ℕ, String, Bool, true, false, not, ◌&&◌, ◌||◌, List, [], Option, none, some, ◌==◌, ltb,
  if◌then◌else◌, filter, str_eq,
}
use alchemy_alibaba.Effect.{Effect, succeed, raise}
use alchemy_alibaba.Effect.Chain.{◌>>=◌, ◌>>◌}
use alchemy_alibaba.Errors.{Failure, ProviderError, ecs}
use alchemy_alibaba.Errors.Calls.{sdk_call}
use alchemy_alibaba.Errors.Classify.{get_or, or_else, is_transient, is_incorrect_instance_state}
use alchemy_alibaba.Lifecycle.Identity.{
  unique_match, require_region, require_value, physical_name, invariant_error,
  require_recovery_ownership, same_option as same_text,
}
use alchemy_alibaba.Lifecycle.Identity.Tags.{TagRecord, tags_equal}
use alchemy_alibaba.Lifecycle.Paginate.{paginate}
use alchemy_alibaba.Lifecycle.Wait.{wait_for_present, wait_for_absent, wait_until_accepted}
use alchemy_alibaba.Provider.{
  Context, call, wait_label, Planned, unresolved, resolved, Plan, keep, Reading, missing, owned,
  unowned, is_given, is_text, differs_if_wanted, when, planned, replace_named, widen,
  ignore_missing, run, page_or_empty, for_each,
}
use alchemy_alibaba.Provider.Tags.{tag_list, tag_record, desired_tags, user_tags}
use alchemy_alibaba.Ecs.Client.{EcsClients, SdkDisk, sync_tags}

pub record DiskProps : Type 0 where
  pub name : Option String
  pub zone_id : String
  pub size : ℕ
  pub category : Option String
  pub encrypted : Option Bool
  pub kms_key_id : Option String
  pub description : Option String
  pub tags : Option TagRecord

pub record DiskAttributes : Type 0 where
  pub disk_id : String
  pub name : String
  pub zone_id : String
  pub region_id : String
  pub size : ℕ
  pub status : Option String
  pub instance_id : Option String
  pub tags : TagRecord

-- `Disk.Type`
abbrev pub disk_type : String
disk_type = "Alibaba.ECS.Disk"

abbrev pub output_region : Option DiskAttributes → Option String
output_region none = none
output_region (some o) = some o.region_id

abbrev pub output_id : Option DiskAttributes → Option String
output_id none = none
output_id (some o) = some o.disk_id

abbrev pub output_name : Option DiskAttributes → Option String
output_name none = none
output_name (some o) = some o.name

-- `[diskId]` as JSON; an id is plain letters and digits.
abbrev json_list : String → String
json_list id = "[\"" <> id <> "\"]"

-- `diskId ? v.diskId === diskId : v.diskName === name`
abbrev pub is_disk : Option String → Option String → SdkDisk → Bool
is_disk disk_id name v =
    if is_given disk_id then same_text v.disk_id disk_id else same_text v.disk_name name

abbrev same_flag : Bool → Bool → Bool
same_flag a b = if a then b else not b

-- `isDeepStrictEqual(identity(olds), identity(news))`
unfoldable pub same_identity : DiskProps → DiskProps → Bool
same_identity a b =
    str_eq a.zone_id b.zone_id
    && str_eq (get_or a.category "cloud_essd") (get_or b.category "cloud_essd")
    && same_flag (get_or a.encrypted false) (get_or b.encrypted false)
    && same_text a.kms_key_id b.kms_key_id

abbrev pub is_size : ℕ → Option ℕ → Bool
is_size n none = false
is_size n (some m) = m == n

-- `v.instanceId || undefined`
abbrev or_undefined : Option String → Option String
or_undefined none = none
or_undefined (some s) = if str_eq s "" then none else some s

-- The test that ends a reconcile.
unfoldable pub disk_settled : String → ℕ → TagRecord → SdkDisk → Bool
disk_settled name size tags v =
    is_size size v.size && is_text name v.disk_name && tags_equal (tag_record v.tags) tags

-- `retryIf` of a resize, for the disk that was read.
unfoldable pub resize_may_wait : SdkDisk → ProviderError → Bool
resize_may_wait v e =
    is_transient e
    || is_incorrect_instance_state e
    || is_text "InvalidStatus.Upgrading" e.code
    || is_text "InvalidInstanceStatus.NotRunning" e.code
    || (is_text "OperationDenied" e.code && is_given v.instance_id)
