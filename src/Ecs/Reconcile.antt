-- ===== src/Ecs/Reconcile.antt =====
-- What a reconcile of src/ecs/disk.ts has seen when it returns, and what it started from.
use alchemy_alibaba.Prelude.{ℕ, ◌≤◌, String, true, Option, none, some, ◌≡◌, arith, ==_iff}
use alchemy_alibaba.Effect.{ok, IsRuntime}
use alchemy_alibaba.Effect.Chain.{◌>>=◌, chain-steps}
use alchemy_alibaba.Errors.{ecs}
use alchemy_alibaba.Errors.Classify.{get_or, or_else}
use alchemy_alibaba.Lifecycle.Identity.{physical_name, require_value, require_region}
use alchemy_alibaba.Lifecycle.Wait.{wait_for_present}
use alchemy_alibaba.Lifecycle.Identity.Tags.{TagRecord}
use alchemy_alibaba.Provider.{Context, wait_label}
use alchemy_alibaba.Provider.Tags.{desired_tags}
use alchemy_alibaba.Provider.Ensures.{Ensures, bind-Ensures}
use alchemy_alibaba.Provider.Settled.{SettledAt, wait_for_present-Ensures}
use alchemy_alibaba.Ecs.Client.{EcsClients, SdkDisk}
use alchemy_alibaba.Ecs.Disk.{DiskProps, DiskAttributes, disk_settled, is_size, disk_type}
use alchemy_alibaba.Ecs.Disk.Operations.{
  recover, get_disk, disk_attributes, grow_disk, create_disk_if_missing, settle_disk,
  reconcile_disk,
}
use alchemy_alibaba.Ecs.Disk

is_size_eq : (n : ℕ) (o : Option ℕ) (m : ℕ) → is_size n o ≡ true → o ≡ some m → m ≡ n
is_size_eq n none m h e = cc
is_size_eq n (some k) m h e = ground (arith, ==_iff k n)

module _ {W : Type 0} (c : Context (EcsClients W) W) (id instance_id : String) (news : DiskProps)
    (output : Option DiskAttributes) where
  -- The run of a reconcile from `s`: each of its first steps succeeds in the world that the step
  -- before has left. The disk that it starts from, `earlier`, is the one that its first read found,
  -- or the one that it created, and it is no larger than the wanted size; the last read saw the
  -- disk with that id settled.
  pub record GrownDisk (a : DiskAttributes) (s u : W) : Type 0 where
    pub name : String
    pub tags : TagRecord
    pub disk_id : String
    pub found : Option SdkDisk
    pub earlier : SdkDisk
    pub in_region : W
    pub with_name : W
    pub with_tags : W
    pub after_read : W
    pub recovered : W
    pub started : W
    pub region :
        require_region disk_type c.clients.region_id (Disk.output_region output) s
        ≡ (ok tt, in_region)
    pub named :
        physical_name c.alchemy.create_physical_name id
          (or_else news.name (Disk.output_name output))
          128
          in_region
        ≡ (ok name, with_name)
    pub tagged :
        desired_tags c.alchemy.create_internal_tags id news.tags with_name ≡ (ok tags, with_tags)
    pub read : get_disk c (Disk.output_id output) (some name) with_tags ≡ (ok found, after_read)
    pub checked : recover c id output found after_read ≡ (ok tt, recovered)
    pub starts :
        create_disk_if_missing c instance_id news name tags found recovered ≡ (ok earlier, started)
    pub has_id : earlier.disk_id ≡ some disk_id
    pub no_larger : get_or earlier.size 0 ≤ news.size
    pub settled :
        SettledAt
          (get_disk c (some disk_id) none)
          (disk_settled name news.size tags)
          (disk_attributes c)
          a
          u
    pub has_size : a.size ≡ news.size

  grow_disk-bound :
      (disk_id : String) (size : ℕ) (v : SdkDisk) (t : W) {u : W}
      → grow_disk c disk_id size v t ≡ (ok tt, u)
      → get_or v.size 0 ≤ size
  unfolding grow_disk
  grow_disk-bound disk_id size v t h = ground arith

  required :
      (v : SdkDisk) (t : W) {disk_id : String} {u : W}
      → require_value v.disk_id disk_type "Read" "Missing disk id" t ≡ (ok disk_id, u)
      → v.disk_id ≡ some disk_id
  unfolding require_value
  required v t h = ground arith

  attributes_size :
      (v : SdkDisk) {a : DiskAttributes} (s : W) {u : W}
      → disk_attributes c v s ≡ (ok a, u)
      → v.size ≡ some a.size
  unfolding disk_attributes require_value ◌>>=◌
  attributes_size v s h = ground arith

  settled_size :
      (name : String) (tags : TagRecord) (v : SdkDisk)
      → disk_settled name news.size tags v ≡ true
      → is_size news.size v.size ≡ true
  unfolding disk_settled
  settled_size name tags v h = ground arith

  module _ (L : IsRuntime c.runtime) where
    settled_end :
        (name disk_id : String) (tags : TagRecord)
        → Ensures
            (SettledAt
              (get_disk c (some disk_id) none)
              (disk_settled name news.size tags)
              (disk_attributes c))
            (wait_for_present c.runtime
                (wait_label c ecs "ReconcileDisk")
                (disk_settled name news.size tags)
                (get_disk c (some disk_id) none)
              >>= disk_attributes c)
    settled_end name disk_id tags =
        wait_for_present-Ensures c.runtime L (wait_label c ecs "ReconcileDisk")
          (get_disk c (some disk_id) none) (disk_settled name news.size tags) (disk_attributes c)

    -- What the rest of a reconcile has seen, from the disk that it starts from.
    settle_disk-Settled :
        (name : String) (tags : TagRecord) (earlier : SdkDisk) (t : W) {a : DiskAttributes} {u : W}
        → settle_disk c name tags news earlier t ≡ (ok a, u)
        → (disk_id : String) × (earlier.disk_id ≡ some disk_id)
          × (get_or earlier.size 0 ≤ news.size)
          × SettledAt
              (get_disk c (some disk_id) none)
              (disk_settled name news.size tags)
              (disk_attributes c)
              a
              u
    unfolding settle_disk
    settle_disk-Settled name tags earlier t h =
        let (disk_id, t1, h1, identified) = chain-steps _ _ t h in
        let (_, t2, h2, grown) = chain-steps _ _ t1 h1 in
        let rest =
          bind-Ensures _ λ modified _. bind-Ensures _ λ synced _. settled_end name disk_id tags in
        (
          disk_id,
          required earlier t identified,
          grow_disk-bound disk_id news.size earlier t1 grown,
          rest.holds_after h2,
        )

    -- Over a runtime that repeats as documented, a reconcile of a data disk that succeeds started
    -- from a disk no larger than the wanted size: the disk that its first read found in this run,
    -- or the one that it then created; its last request was a read, by the id of that disk, that saw
    -- it with the wanted size, its name and exactly the tags from `desiredTags`; and its result has
    -- the wanted size.
    pub reconcile_disk-Grown :
        (a : DiskAttributes) (s u : W)
        → reconcile_disk c id instance_id news output s ≡ (ok a, u)
        → GrownDisk a s u
    unfolding reconcile_disk
    reconcile_disk-Grown a s u h =
        let (_, w0, h0, region) = chain-steps _ _ s h in
        let (name, w1, h1, named) = chain-steps _ _ w0 h0 in
        let (tags, w2, h2, tagged) = chain-steps _ _ w1 h1 in
        let (found, w3, h3, read) = chain-steps _ _ w2 h2 in
        let (_, w4, h4, checked) = chain-steps _ _ w3 h3 in
        let (earlier, w5, h5, starts) = chain-steps _ _ w4 h4 in
        let (disk_id, has_id, no_larger, settled) = settle_disk-Settled name tags earlier w5 h5 in
        record {
          name = name;
          tags = tags;
          disk_id = disk_id;
          found = found;
          earlier = earlier;
          in_region = w0;
          with_name = w1;
          with_tags = w2;
          after_read = w3;
          recovered = w4;
          started = w5;
          region = region;
          named = named;
          tagged = tagged;
          read = read;
          checked = checked;
          starts = starts;
          has_id = has_id;
          no_larger = no_larger;
          settled = settled;
          has_size =
              is_size_eq news.size settled.value.size a.size
                (settled_size name tags settled.value settled.is_settled)
                (attributes_size settled.value settled.next settled.returned);
        }
