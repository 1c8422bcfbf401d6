-- ===== src/Ecs/Attachment.antt =====
-- The provider of src/ecs/disk-attachment.ts: the attachment of a disk to an instance.
pub mod Operations
use alchemy_alibaba.Prelude.{
  String, Bool, true, false, not, ◌&&◌, ◌||◌, Option, none, some, str_eq, if◌then◌else◌,
}
use alchemy_alibaba.Effect.{Effect, succeed, raise, fmap}
use alchemy_alibaba.Effect.Chain.{◌>>=◌, ◌>>◌}
use alchemy_alibaba.Errors.{Failure, ecs}
use alchemy_alibaba.Lifecycle.Identity.{require_region, invariant_error}
use alchemy_alibaba.Lifecycle.Wait.{wait_for}
use alchemy_alibaba.Provider.{
  Context, call, wait_label, Planned, unresolved, resolved, Plan, keep, replace_first, is_given,
  is_text, planned, run, ignore_missing,
}
use alchemy_alibaba.Ecs.Client.{EcsClients, SdkDisk}
use alchemy_alibaba.Ecs.Disk.Operations.{get_disk}

pub record DiskAttachmentProps : Type 0 where
  pub disk_id : String
  pub instance_id : String

pub record DiskAttachmentAttributes : Type 0 where
  pub props : DiskAttachmentProps
  pub region_id : String
  pub device : Option String

-- `DiskAttachment.Type`
abbrev pub attachment_type : String
attachment_type = "Alibaba.ECS.DiskAttachment"

abbrev pub output_region : Option DiskAttachmentAttributes → Option String
output_region none = none
output_region (some o) = some o.region_id

abbrev same_props : DiskAttachmentProps → DiskAttachmentProps → Bool
same_props a b = str_eq a.disk_id b.disk_id && str_eq a.instance_id b.instance_id

abbrev instance_of : Option SdkDisk → Option String
instance_of none = none
instance_of (some v) = v.instance_id

abbrev device_of : Option SdkDisk → Option String
device_of none = none
device_of (some v) = v.device

abbrev is_false : Option Bool → Bool
is_false (some false) = true
is_false _ = false

abbrev stays : Option SdkDisk → Bool
stays none = false
stays (some v) = is_false v.delete_with_instance

-- `!v || v.status === "Available"`
abbrev pub is_detached : Option SdkDisk → Bool
is_detached none = true
is_detached (some v) = is_text "Available" v.status

abbrev status_of : Option SdkDisk → Option String
status_of none = none
status_of (some v) = v.status

-- The test that ends a reconcile.
unfoldable pub attachment_settled : DiskAttachmentProps → Option SdkDisk → Bool
attachment_settled news v =
    is_text news.instance_id (instance_of v) && is_text "In_use" (status_of v) && stays v
