-- ===== src/Ecs/Attachment/Operations.antt =====
-- The operations of src/ecs/disk-attachment.ts.
use alchemy_alibaba.Prelude.{String, false, not, ◌||◌, Option, none, some, str_eq, if◌then◌else◌}
use alchemy_alibaba.Effect.{Effect, succeed, raise, fmap}
use alchemy_alibaba.Effect.Chain.{◌>>=◌, ◌>>◌}
use alchemy_alibaba.Errors.{Failure, ecs}
use alchemy_alibaba.Lifecycle.Identity.{require_region, invariant_error}
use alchemy_alibaba.Lifecycle.Wait.{wait_for}
use alchemy_alibaba.Provider.{
  Context, call, wait_label, Planned, unresolved, resolved, Plan, keep, replace_first, is_given,
  is_text, planned, run, ignore_missing,
}
use alchemy_alibaba.Ecs.Client.{EcsClients, SdkDisk}
use alchemy_alibaba.Ecs.Disk.Operations.{get_disk}
use alchemy_alibaba.Ecs.Attachment.{
  DiskAttachmentProps, DiskAttachmentAttributes, attachment_type, output_region, same_props,
  instance_of, device_of, stays, is_detached, attachment_settled,
}

module _ {W : Type 0} (c : Context (EcsClients W) W) where
  abbrev disk_by_id : String → Effect W Failure (Option SdkDisk)
  disk_by_id disk_id = get_disk c (some disk_id) none

  abbrev diff_observed :
      DiskAttachmentProps → Option DiskAttachmentAttributes → Effect W Failure Plan
  diff_observed news none = succeed keep
  diff_observed news (some output) = do
    here ← require_region attachment_type c.clients.region_id (some output.region_id)
    disk ← disk_by_id news.disk_id
    planned (not (is_text news.instance_id (instance_of disk)))

  -- `diff`
  unfoldable pub diff_attachment :
      DiskAttachmentProps
      → Planned DiskAttachmentProps
      → Option DiskAttachmentAttributes
      → Effect W Failure Plan
  diff_attachment olds unresolved output = succeed keep
  diff_attachment olds (resolved news) output =
      if same_props olds news then diff_observed news output else succeed replace_first

  abbrev props_or : DiskAttachmentProps → Option DiskAttachmentAttributes → DiskAttachmentProps
  props_or olds none = olds
  props_or olds (some o) = o.props

  abbrev attributes : DiskAttachmentProps → Option SdkDisk → DiskAttachmentAttributes
  attributes p v = record { props = p; region_id = c.clients.region_id; device = device_of v }

  abbrev reading : DiskAttachmentProps → Option SdkDisk → Option DiskAttachmentAttributes
  reading p v = if is_text p.instance_id (instance_of v) then some (attributes p v) else none

  -- `read`, of inputs that are resolved.
  unfoldable pub read_attachment :
      DiskAttachmentProps
      → Option DiskAttachmentAttributes
      → Effect W Failure (Option DiskAttachmentAttributes)
  read_attachment olds output =
      require_region attachment_type c.clients.region_id (output_region output) >>= λ here.
      let p = props_or olds output in
      if str_eq p.disk_id "" || str_eq p.instance_id ""
      then succeed none
      else disk_by_id p.disk_id >>= λ v. succeed (reading p v)

  abbrev detach : DiskAttachmentProps → Effect W Failure (Unit {0})
  detach p = run (
      call c ecs "DetachDisk" (
        c.clients.detach_disk (record {
          disk_id = p.disk_id;
          instance_id = p.instance_id;
          delete_with_instance = false;
        })))

  abbrev await_detached : String → DiskAttachmentProps → Effect W Failure (Unit {0})
  await_detached operation p =
      fmap (λ _. tt)
        (wait_for c.runtime (wait_label c ecs operation) is_detached (disk_by_id p.disk_id))

  abbrev detach_if_attached : DiskAttachmentProps → Option SdkDisk → Effect W Failure (Unit {0})
  detach_if_attached p disk =
      if is_text p.instance_id (instance_of disk)
      then detach p >> await_detached "DetachPreviousDisk" p
      else succeed tt

  -- The attachment that the resource had before.
  unfoldable pub detach_previous :
      DiskAttachmentProps → Option DiskAttachmentAttributes → Effect W Failure (Unit {0})
  detach_previous news none = succeed tt
  detach_previous news (some output) =
      if same_props output.props news
      then succeed tt
      else disk_by_id output.props.disk_id >>= detach_if_attached output.props

  -- The requests that bring the disk to the instance, and keep it when the instance goes.
  unfoldable pub attach_or_modify :
      DiskAttachmentProps → Option SdkDisk → Effect W Failure (Unit {0})
  attach_or_modify news v =
      if is_text news.instance_id (instance_of v)
      then (if stays v
          then succeed tt
          else run (
              call c ecs "ModifyDiskAttribute" (
                c.clients.modify_disk_attribute (record {
                  disk_id = news.disk_id;
                  delete_with_instance = some false;
                  disk_name = none;
                  description = none;
                }))))
      else if is_given (instance_of v)
      then raise (
          invariant_error attachment_type "AttachDisk"
            "Disk is already attached to another instance")
      else run (
          call c ecs "AttachDisk" (
            c.clients.attach_disk (record {
              disk_id = news.disk_id;
              instance_id = news.instance_id;
              delete_with_instance = false;
              bootable = false;
            })))

  -- `reconcile`
  unfoldable pub reconcile_attachment :
      DiskAttachmentProps
      → Option DiskAttachmentAttributes
      → Effect W Failure DiskAttachmentAttributes
  unfolding detach_previous attach_or_modify attachment_settled
  reconcile_attachment news output = do
    here ← require_region attachment_type c.clients.region_id (output_region output)
    detached ← detach_previous news output
    found ← disk_by_id news.disk_id
    attached ← attach_or_modify news found
    v ←
        wait_for c.runtime (wait_label c ecs "AttachDisk") (attachment_settled news)
          (disk_by_id news.disk_id)
    succeed (attributes news v)

  abbrev remove : DiskAttachmentProps → Option SdkDisk → Effect W Failure (Unit {0})
  remove p disk =
      if is_text p.instance_id (instance_of disk)
      then ignore_missing (
          call c ecs "DetachDisk" (
            c.clients.detach_disk (record {
              disk_id = p.disk_id;
              instance_id = p.instance_id;
              delete_with_instance = false;
            })))
        >> await_detached "DetachDisk" p
      else succeed tt

  -- `delete`
  unfoldable pub delete_attachment : DiskAttachmentAttributes → Effect W Failure (Unit {0})
  delete_attachment output =
      require_region attachment_type c.clients.region_id (some output.region_id) >>= λ here.
      disk_by_id output.props.disk_id >>= remove output.props
