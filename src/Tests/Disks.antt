-- ===== src/Tests/Disks.antt =====
-- The ECS and RAM code over small clouds: a world of data disks, and a list in two pages.
use alchemy_alibaba.Prelude.{ℕ, ◌≤◌, refl, String, false, [], ◌∷◌, map, Option, none, some}
use alchemy_alibaba.Effect.{ok, Effect, succeed}
use alchemy_alibaba.Effect.Chain.{◌>>=◌}
use alchemy_alibaba.Errors.{Failure}
use alchemy_alibaba.Errors.Classify.{SdkCause}
use alchemy_alibaba.Errors.Calls.{retrying_sdk_call, retry_within_budget, sdk_call}
use alchemy_alibaba.Lifecycle.Identity.{unique_match, require_region, require_value, physical_name}
use alchemy_alibaba.Lifecycle.Identity.Tags.{lookup, tags_equal}
use alchemy_alibaba.Lifecycle.Paginate.{paginate, drain, reached_end}
use alchemy_alibaba.Lifecycle.Observe.{with_defaults, observe_until}
use alchemy_alibaba.Lifecycle.Wait.{wait_for_present, wait_until_accepted}
use alchemy_alibaba.Provider.{Context, call}
use alchemy_alibaba.Provider.Tags.{tag_record, desired_tags, user_tags, spread, put_entry, put_tags}
use alchemy_alibaba.Ecs.Client.{EcsClients, SdkDisk, ResizeDisk, sync_tags}
use alchemy_alibaba.Ecs.Disk.{DiskProps, DiskAttributes, disk_settled}
use alchemy_alibaba.Ecs.Disk.Operations.{
  get_disk, disk_inventory, disk_attributes, grow_disk, settle_disk, create_disk_if_missing,
  reconcile_disk,
}
use alchemy_alibaba.Ecs.Reconcile.{GrownDisk, reconcile_disk-Grown}
use alchemy_alibaba.Ram.Client.{MarkedPage, pages, follow_markers}
use alchemy_alibaba.Ram.Pages.{Fetched, pages-Fetched}
use alchemy_alibaba.Tests.Databases.{plain}
use alchemy_alibaba.Tests.Clock.{Scripted, clock, clock_lawful, script}

abbrev Disks : Type 0
Disks = Scripted SdkDisk

abbrev done : Effect Disks SdkCause (Unit {0})
done = succeed tt

abbrev resized : ResizeDisk → SdkDisk → SdkDisk
resized r v = record v { size = some r.new_size }

abbrev disk : ℕ → SdkDisk
disk size = record {
  disk_id = some "d-1";
  disk_name = some "web-1";
  zone_id = some "cn-hangzhou-h";
  size = some size;
  description = none;
  tags = none;
  instance_id = none;
  status = some "Available";
  device = none;
  delete_with_instance = some false;
}

abbrev disk_clients : EcsClients Disks
disk_clients = record {
  region_id = "cn-hangzhou";
  describe_security_group_attribute =
      λ q. succeed (record { permissions = none; next_token = none });
  authorize_security_group = λ r. done;
  authorize_security_group_egress = λ r. done;
  revoke_security_group = λ r. done;
  revoke_security_group_egress = λ r. done;
  detach_disk = λ r. done;
  attach_disk = λ r. done;
  describe_disks = λ q s. (ok (record { entries = some s.answers; total_count = none }), s);
  create_disk = λ r. succeed none;
  resize_disk = λ r s. (ok tt, record s { answers = map (resized r) s.answers });
  delete_disk = λ r. done;
  tag_resources = λ r. done;
  untag_resources = λ r. done;
  modify_disk_attribute = λ r. done;
}

abbrev disk_cloud : Context (EcsClients Disks) Disks
disk_cloud = record {
  runtime = clock SdkDisk;
  alchemy = plain;
  clients = disk_clients;
  wait = record { attempts = some 3; interval = some 10 };
}

abbrev larger : DiskProps
larger = record {
  name = none;
  zone_id = "cn-hangzhou-h";
  size = 40;
  category = none;
  encrypted = none;
  kms_key_id = none;
  description = none;
  tags = none;
}

abbrev disk_attributes_of : ℕ → DiskAttributes
disk_attributes_of size = record {
  disk_id = "d-1";
  name = "web-1";
  zone_id = "cn-hangzhou-h";
  region_id = "cn-hangzhou";
  size = size;
  status = some "Available";
  instance_id = none;
  tags = [];
}

reconcile_disk-Grown_example :
    GrownDisk disk_cloud "web" "i-1" larger
      (some (disk_attributes_of 20))
      (disk_attributes_of 40)
      (script (disk 20 ∷ []))
      (script (disk 40 ∷ []))
unfolding reconcile_disk disk_attributes get_disk disk_inventory desired_tags spread put_entry
    tag_record put_tags user_tags paginate drain reached_end unique_match require_region
    require_value physical_name create_disk_if_missing settle_disk grow_disk call retrying_sdk_call
    retry_within_budget sdk_call wait_for_present wait_until_accepted observe_until with_defaults
    disk_settled tags_equal lookup sync_tags ◌>>=◌
reconcile_disk-Grown_example =
    reconcile_disk-Grown disk_cloud "web" "i-1" larger (some (disk_attributes_of 20))
      (clock_lawful SdkDisk) (disk_attributes_of 40) (script (disk 20 ∷ [])) (script (disk 40 ∷ []))
      refl

abbrev two_pages : Option String → Effect ℕ Failure (MarkedPage ℕ)
two_pages none s = (ok (record { items = 1 ∷ 2 ∷ []; next = some "m" }), 1)
two_pages (some marker) s = (ok (record { items = 3 ∷ []; next = none }), 2)

pages-Fetched_example :
    (n : ℕ) × (n ≤ 200) × Fetched "ListRoles" two_pages none 0 n (1 ∷ 2 ∷ 3 ∷ []) 2
unfolding pages follow_markers ◌>>=◌
pages-Fetched_example = pages-Fetched "ListRoles" two_pages 0 2 (1 ∷ 2 ∷ 3 ∷ []) refl
