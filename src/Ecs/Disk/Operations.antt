-- ===== src/Ecs/Disk/Operations.antt =====
-- The operations of src/ecs/disk.ts.
use Prim.Native.String.{◌++◌ as ◌<>◌}
use alchemy_alibaba.Prelude.{
  ℕ, String, Bool, true, false, not, ◌||◌, List, [], Option, none, some, ltb, if◌then◌else◌, filter,
}
use alchemy_alibaba.Effect.{Effect, succeed, raise}
use alchemy_alibaba.Effect.Chain.{◌>>=◌, ◌>>◌}
use alchemy_alibaba.Errors.{Failure, ecs}
use alchemy_alibaba.Errors.Calls.{sdk_call}
use alchemy_alibaba.Errors.Classify.{get_or, or_else}
use alchemy_alibaba.Lifecycle.Identity.{
  unique_match, require_region, require_value, physical_name, invariant_error,
  require_recovery_ownership,
}
use alchemy_alibaba.Lifecycle.Identity.Tags.{TagRecord, tags_equal}
use alchemy_alibaba.Lifecycle.Paginate.{paginate}
use alchemy_alibaba.Lifecycle.Wait.{wait_for_present, wait_for_absent, wait_until_accepted}
use alchemy_alibaba.Provider.{
  Context, call, wait_label, Planned, unresolved, resolved, Plan, keep, Reading, missing, owned,
  unowned, is_given, is_text, differs_if_wanted, when, planned, replace_named, widen,
  ignore_missing, run, page_or_empty, for_each,
}
use alchemy_alibaba.Provider.Tags.{tag_list, tag_record, desired_tags, user_tags}
use alchemy_alibaba.Ecs.Client.{EcsClients, SdkDisk, sync_tags}
use alchemy_alibaba.Ecs.Disk.{
  DiskProps, DiskAttributes, disk_type, output_region, output_id, output_name, json_list, is_disk,
  same_identity, is_size, or_undefined, disk_settled, resize_may_wait,
}

module _ {W : Type 0} (c : Context (EcsClients W) W) where
  -- `inventory`
  unfoldable pub disk_inventory : Option String → Option String → Effect W Failure (List SdkDisk)
  disk_inventory disk_id name =
      paginate
        (record { service = ecs; operation = "DescribeDisks"; page_size = none; max_pages = none })
        (λ number size. page_or_empty (
          call c ecs "DescribeDisks" (
            c.clients.describe_disks (record {
              region_id = c.clients.region_id;
              disk_ids = if is_given disk_id then some (json_list (get_or disk_id "")) else none;
              disk_name = name;
              disk_type = "data";
              page_number = number;
              page_size = size;
            }))))

  -- `getDisk`
  unfoldable pub get_disk : Option String → Option String → Effect W Failure (Option SdkDisk)
  unfolding disk_inventory
  get_disk disk_id name = disk_inventory disk_id name >>= λ items.
      unique_match (filter (is_disk disk_id name) items) disk_type

  -- `attrs`
  unfoldable pub disk_attributes : SdkDisk → Effect W Failure DiskAttributes
  disk_attributes v = do
    disk_id ← require_value v.disk_id disk_type "Read" "Missing disk id"
    zone_id ← require_value v.zone_id disk_type "Read" "Missing disk zone"
    size ← require_value v.size disk_type "Read" "Missing disk size"
    succeed (record {
      disk_id = disk_id;
      name = get_or v.disk_name "";
      zone_id = zone_id;
      region_id = c.clients.region_id;
      size = size;
      status = v.status;
      instance_id = or_undefined v.instance_id;
      tags = user_tags c.alchemy.strip_internal_tags (some (tag_record v.tags));
    })

  -- `list`
  unfoldable pub list_disks : Effect W Failure (List DiskAttributes)
  list_disks = disk_inventory none none >>= for_each disk_attributes

  abbrev pub disk_needs_update : DiskProps → DiskAttributes → Option SdkDisk → Bool
  disk_needs_update news output none = true
  disk_needs_update news output (some v) =
      not (is_size news.size v.size)
      || not (is_text (get_or news.name output.name) v.disk_name)
      || not (
          tags_equal (user_tags c.alchemy.strip_internal_tags (some (tag_record v.tags)))
            (get_or news.tags []))

  abbrev diff_observed : DiskProps → Option DiskAttributes → Effect W Failure Plan
  diff_observed news none = succeed keep
  diff_observed news (some output) = do
    here ← require_region disk_type c.clients.region_id (some output.region_id)
    value ← get_disk (some output.disk_id) none
    planned (disk_needs_update news output value)

  -- `diff`
  unfoldable pub diff_disk :
      DiskProps → Planned DiskProps → Option DiskAttributes → Effect W Failure Plan
  unfolding get_disk same_identity
  diff_disk olds unresolved output = succeed keep
  diff_disk olds (resolved news) output =
      if same_identity olds news
      then diff_observed news output
      else replace_named disk_type olds.name news.name

  abbrev reading : String → Option SdkDisk → Effect W Failure (Reading DiskAttributes)
  reading id none = succeed missing
  reading id (some v) = do
    result ← disk_attributes v
    ours ← c.alchemy.has_alchemy_tags id (tag_record v.tags)
    succeed (if ours then owned result else unowned result)

  -- `read`
  unfoldable pub read_disk :
      String → DiskProps → Option DiskAttributes → Effect W Failure (Reading DiskAttributes)
  unfolding get_disk disk_attributes
  read_disk id olds output = do
    here ← require_region disk_type c.clients.region_id (output_region output)
    name ←
        physical_name c.alchemy.create_physical_name id (or_else olds.name (output_name output)) 128
    value ← get_disk (output_id output) (some name)
    reading id value

  abbrev pub recover : String → Option DiskAttributes → Option SdkDisk → Effect W Failure (Unit {0})
  recover id none (some v) =
      require_recovery_ownership c.alchemy.has_alchemy_tags id disk_type (tag_record v.tags)
  recover id output value = succeed tt

  unfoldable pub create_disk_if_missing :
      String → DiskProps → String → TagRecord → Option SdkDisk → Effect W Failure SdkDisk
  unfolding get_disk
  create_disk_if_missing instance_id news name tags (some v) = succeed v
  create_disk_if_missing instance_id news name tags none = do
    noted ← c.alchemy.note ("Creating data disk " <> name)
    response ← widen (
        call c ecs "CreateDisk" (
          c.clients.create_disk (record {
            region_id = c.clients.region_id;
            zone_id = news.zone_id;
            disk_name = name;
            size = news.size;
            disk_category = get_or news.category "cloud_essd";
            encrypted = get_or news.encrypted false;
            kms_key_id = news.kms_key_id;
            description = news.description;
            client_token = "create-" <> instance_id;
            tag = tag_list tags;
          })))
    disk_id ← require_value response disk_type "CreateDisk" "Missing disk id"
    wait_for_present c.runtime (wait_label c ecs "CreateDisk") (λ v. is_text "Available" v.status)
        (get_disk (some disk_id) none)

  -- A disk grows, and is never made smaller.
  unfoldable pub grow_disk : String → ℕ → SdkDisk → Effect W Failure (Unit {0})
  unfolding resize_may_wait
  grow_disk disk_id size v =
      if ltb size (get_or v.size 0)
      then raise (invariant_error disk_type "ResizeDisk" "ECS data disks cannot shrink")
      else when (not (is_size size v.size)) (
          widen (
            wait_until_accepted c.runtime (resize_may_wait v) c.wait (
              sdk_call ecs "ResizeDisk" (
                c.clients.resize_disk (record {
                  disk_id = disk_id;
                  new_size = size;
                  type = if is_text "In_use" v.status then "online" else "offline";
                })))))

  abbrev modify_if_needed : String → String → DiskProps → SdkDisk → Effect W Failure (Unit {0})
  modify_if_needed disk_id name news v =
      when (not (is_text name v.disk_name) || differs_if_wanted news.description v.description) (
        run (
          call c ecs "ModifyDiskAttribute" (
            c.clients.modify_disk_attribute (record {
              disk_id = disk_id;
              delete_with_instance = none;
              disk_name = some name;
              description = news.description;
            }))))

  -- The rest of `reconcile`, from the disk that was found or created.
  unfoldable pub settle_disk :
      String → TagRecord → DiskProps → SdkDisk → Effect W Failure DiskAttributes
  unfolding get_disk grow_disk
  settle_disk name tags news value = do
    disk_id ← require_value value.disk_id disk_type "Read" "Missing disk id"
    grown ← grow_disk disk_id news.size value
    modified ← modify_if_needed disk_id name news value
    tagged ← sync_tags c "disk" disk_id (tag_record value.tags) tags
    wait_for_present c.runtime (wait_label c ecs "ReconcileDisk") (disk_settled name news.size tags)
          (get_disk (some disk_id) none)
        >>= disk_attributes

  -- `reconcile`
  unfoldable pub reconcile_disk :
      String → String → DiskProps → Option DiskAttributes → Effect W Failure DiskAttributes
  unfolding get_disk create_disk_if_missing settle_disk
  reconcile_disk id instance_id news output = do
    here ← require_region disk_type c.clients.region_id (output_region output)
    name ←
        physical_name c.alchemy.create_physical_name id (or_else news.name (output_name output)) 128
    tags ← desired_tags c.alchemy.create_internal_tags id news.tags
    found ← get_disk (output_id output) (some name)
    recovered ← recover id output found
    value ← create_disk_if_missing instance_id news name tags found
    settle_disk name tags news value

  abbrev remove : DiskAttributes → Option SdkDisk → Effect W Failure (Unit {0})
  remove output none = succeed tt
  remove output (some v) =
      ignore_missing (call c ecs "DeleteDisk" (c.clients.delete_disk output.disk_id))
      >> wait_for_absent c.runtime (wait_label c ecs "DeleteDisk")
          (get_disk (some output.disk_id) none)

  -- `delete`
  unfoldable pub delete_disk : DiskAttributes → Effect W Failure (Unit {0})
  unfolding get_disk
  delete_disk output =
      require_region disk_type c.clients.region_id (some output.region_id) >>= λ here.
      get_disk (some output.disk_id) none >>= remove output
