-- ===== src/Ecs/Client.antt =====
-- The operations of the ECS client that the providers call, each with its request, and `missing` and
-- `unique` of src/ecs/internal.ts.
use alchemy_alibaba.Prelude.{
  ℕ, String, Bool, true, false, ◌&&◌, List, Option, length, ltb, leb, if◌then◌else◌, [], ◌∷◌,
}
use alchemy_alibaba.Effect.{Effect, succeed, raise}
use alchemy_alibaba.Errors.{Service, ecs, ProviderError, Failure}
use alchemy_alibaba.Errors.Classify.{SdkCause}
use alchemy_alibaba.Lifecycle.Identity.{invariant_error, head?}
use alchemy_alibaba.Effect.Chain.{◌>>◌}
use alchemy_alibaba.Lifecycle.Identity.Tags.{TagRecord, tags_equal}
use alchemy_alibaba.Provider.{Context, TagDiff, ListBody, call, is_text, run, when}
use alchemy_alibaba.Provider.Tags.{SdkTag, tag_list, spread}

-- Where the traffic of a rule comes from, or goes to.
pub record Peer : Type 0 where
  pub cidr_ip : Option String
  pub ipv6_cidr_ip : Option String
  pub group_id : Option String

pub record RuleQuery : Type 0 where
  pub region_id : String
  pub security_group_id : String
  pub direction : String
  pub max_results : ℕ
  pub next_token : Option String

pub record AuthorizeRule : Type 0 where
  pub region_id : String
  pub security_group_id : String
  pub ip_protocol : String
  pub port_range : String
  pub peer : Peer
  pub priority : String
  pub policy : String
  pub nic_type : String

pub record RevokeRule : Type 0 where
  pub region_id : String
  pub security_group_id : String
  pub security_group_rule_id : List String

pub record SdkRule : Type 0 where
  pub security_group_rule_id : Option String
  pub direction : Option String
  pub policy : Option String
  pub nic_type : Option String
  pub ip_protocol : Option String
  pub port_range : Option String
  pub source : Peer
  pub destination : Peer
  pub priority : Option String

pub record RulePage : Type 0 where
  pub permissions : Option (List SdkRule)
  pub next_token : Option String

pub record DetachDisk : Type 0 where
  pub disk_id : String
  pub instance_id : String
  pub delete_with_instance : Bool

pub record AttachDisk : Type 0 where
  pub disk_id : String
  pub instance_id : String
  pub delete_with_instance : Bool
  pub bootable : Bool

-- A field that is `none` is not sent.
pub record ModifyDisk : Type 0 where
  pub disk_id : String
  pub delete_with_instance : Option Bool
  pub disk_name : Option String
  pub description : Option String

pub record DiskQuery : Type 0 where
  pub region_id : String
  -- A JSON list of one id.
  pub disk_ids : Option String
  pub disk_name : Option String
  pub disk_type : String
  pub page_number : ℕ
  pub page_size : ℕ

pub record CreateDisk : Type 0 where
  pub region_id : String
  pub zone_id : String
  pub disk_name : String
  pub size : ℕ
  pub disk_category : String
  pub encrypted : Bool
  pub kms_key_id : Option String
  pub description : Option String
  pub client_token : String
  pub tag : List SdkTag

pub record ResizeDisk : Type 0 where
  pub disk_id : String
  pub new_size : ℕ
  pub type : String

pub record TagResources : Type 0 where
  pub region_id : String
  pub resource_type : String
  pub resource_id : List String
  pub tag : List SdkTag

pub record UntagResources : Type 0 where
  pub region_id : String
  pub resource_type : String
  pub resource_id : List String
  pub tag_key : List String
  pub all : Bool

pub record SdkDisk : Type 0 where
  pub disk_id : Option String
  pub disk_name : Option String
  pub zone_id : Option String
  pub size : Option ℕ
  pub description : Option String
  pub tags : Option (List SdkTag)
  pub instance_id : Option String
  pub status : Option String
  pub device : Option String
  pub delete_with_instance : Option Bool

pub record EcsClients (W : Type 0) : Type 0 where
  pub region_id : String
  pub describe_security_group_attribute : RuleQuery → Effect W SdkCause RulePage
  pub authorize_security_group : AuthorizeRule → Effect W SdkCause (Unit {0})
  pub authorize_security_group_egress : AuthorizeRule → Effect W SdkCause (Unit {0})
  pub revoke_security_group : RevokeRule → Effect W SdkCause (Unit {0})
  pub revoke_security_group_egress : RevokeRule → Effect W SdkCause (Unit {0})
  pub detach_disk : DetachDisk → Effect W SdkCause (Unit {0})
  pub attach_disk : AttachDisk → Effect W SdkCause (Unit {0})
  pub describe_disks : DiskQuery → Effect W SdkCause (ListBody SdkDisk)
  -- The answer is the id that the body holds, if any.
  pub create_disk : CreateDisk → Effect W SdkCause (Option String)
  pub resize_disk : ResizeDisk → Effect W SdkCause (Unit {0})
  pub delete_disk : String → Effect W SdkCause (Unit {0})
  pub tag_resources : TagResources → Effect W SdkCause (Unit {0})
  pub untag_resources : UntagResources → Effect W SdkCause (Unit {0})
  pub modify_disk_attribute : ModifyDisk → Effect W SdkCause (Unit {0})

abbrev is_ecs : Service → Bool
is_ecs ecs = true
is_ecs _ = false

-- `missing`, of a provider error.
unfoldable pub is_missing : String → ProviderError → Bool
is_missing code e = is_ecs e.service && is_text code e.code

-- `unique`
unfoldable pub unique : {W A : Type 0} → List A → String → Effect W Failure (Option A)
unique items resource_type =
    if ltb 1 (length items)
    then raise (
        invariant_error resource_type "ObserveIdentity"
          "Multiple resources match the requested identity; resolve the inventory before continuing")
    else succeed (head? items)

abbrev is_filled : {A : Type 0} → List A → Bool
is_filled xs = leb 1 (length xs)

module _ {W : Type 0} (c : Context (EcsClients W) W) where
  abbrev send_tags : String → String → TagDiff → Effect W Failure (Unit {0})
  send_tags resource_type resource_id d =
      let changed = spread [] d.upsert in
      when (is_filled changed) (
        run (
          call c ecs "TagResources" (
            c.clients.tag_resources (record {
              region_id = c.clients.region_id;
              resource_type = resource_type;
              resource_id = resource_id ∷ [];
              tag = tag_list changed;
            }))))
      >> when (is_filled d.removed) (
          run (
            call c ecs "UntagResources" (
              c.clients.untag_resources (record {
                region_id = c.clients.region_id;
                resource_type = resource_type;
                resource_id = resource_id ∷ [];
                tag_key = d.removed;
                all = false;
              }))))

  -- `syncTags`
  unfoldable pub sync_tags : String → String → TagRecord → TagRecord → Effect W Failure (Unit {0})
  unfolding spread
  sync_tags resource_type resource_id observed desired =
      if tags_equal observed desired
      then succeed tt
      else send_tags resource_type resource_id
          (c.alchemy.diff_tags (spread [] observed) (spread [] desired))
