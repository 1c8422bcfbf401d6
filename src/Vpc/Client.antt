-- ===== src/Vpc/Client.antt =====
-- The operations of the VPC client that the providers call, each with its request, and `syncTags`
-- of src/vpc/internal.ts.
use alchemy_alibaba.Prelude.{ℕ, String, Bool, false, List, [], ◌∷◌, Option, leb, length}
use alchemy_alibaba.Effect.{Effect}
use alchemy_alibaba.Effect.Chain.{◌>>◌}
use alchemy_alibaba.Errors.{Failure, vpc}
use alchemy_alibaba.Errors.Classify.{SdkCause}
use alchemy_alibaba.Lifecycle.Identity.Tags.{TagRecord}
use alchemy_alibaba.Provider.{Context, call, run, when, ListBody}
use alchemy_alibaba.Provider.Tags.{SdkTag, tag_list}

pub record EipQuery : Type 0 where
  pub region_id : String
  pub allocation_id : Option String
  pub eip_name : Option String
  pub page_number : Option ℕ
  pub page_size : Option ℕ

pub record AllocateEip : Type 0 where
  pub region_id : String
  pub name : String
  pub bandwidth : String
  pub description : Option String
  pub internet_charge_type : String
  pub instance_charge_type : String
  pub client_token : String
  pub tag : List SdkTag

pub record ModifyEip : Type 0 where
  pub region_id : String
  pub allocation_id : String
  pub name : String
  pub bandwidth : String
  pub description : Option String

pub record ReleaseEip : Type 0 where
  pub region_id : String
  pub allocation_id : String

pub record AssociateEip : Type 0 where
  pub allocation_id : String
  pub instance_id : String
  pub instance_type : String
  pub region_id : String

pub record UnassociateEip : Type 0 where
  pub allocation_id : String
  pub instance_id : String
  pub instance_type : String
  pub region_id : String
  pub force : Bool

pub record NatQuery : Type 0 where
  pub region_id : String
  pub nat_gateway_id : Option String
  pub name : Option String
  pub page_number : ℕ
  pub page_size : ℕ

pub record CreateNat : Type 0 where
  pub region_id : String
  pub name : String
  pub vpc_id : String
  pub v_switch_id : String
  pub description : Option String
  pub nat_type : String
  pub network_type : String
  pub instance_charge_type : String
  pub internet_charge_type : String
  pub eip_bind_mode : String
  pub client_token : String
  pub tag : List SdkTag

pub record ModifyNat : Type 0 where
  pub region_id : String
  pub nat_gateway_id : String
  pub name : String
  pub description : Option String

pub record DeleteNat : Type 0 where
  pub region_id : String
  pub nat_gateway_id : String
  pub force : Bool

pub record SnatQuery : Type 0 where
  pub region_id : String
  pub snat_table_id : String
  pub snat_entry_id : Option String
  pub source_v_switch_id : Option String
  pub page_number : ℕ
  pub page_size : ℕ

pub record CreateSnat : Type 0 where
  pub region_id : String
  pub snat_table_id : String
  pub source_v_switch_id : String
  pub snat_ip : String
  pub snat_entry_name : String
  pub client_token : String

pub record ModifySnat : Type 0 where
  pub region_id : String
  pub snat_table_id : String
  pub snat_entry_id : String
  pub snat_ip : String
  pub snat_entry_name : String

pub record DeleteSnat : Type 0 where
  pub region_id : String
  pub snat_table_id : String
  pub snat_entry_id : String

pub record TagResources : Type 0 where
  pub region_id : String
  pub resource_type : String
  pub resource_id : List String
  pub tag : List SdkTag

pub record UntagResources : Type 0 where
  pub region_id : String
  pub resource_type : String
  pub resource_id : List String
  pub tag_key : List String
  pub all : Bool

-- What the responses say of the resources.
pub record SdkEip : Type 0 where
  pub allocation_id : Option String
  pub ip_address : Option String
  pub name : Option String
  pub bandwidth : Option String
  pub description : Option String
  pub status : Option String
  pub instance_id : Option String
  pub instance_type : Option String
  pub tags : Option (List SdkTag)

pub record SdkNat : Type 0 where
  pub nat_gateway_id : Option String
  pub snat_table_ids : Option (List String)
  pub vpc_id : Option String
  -- `natGatewayPrivateInfo?.vswitchId`
  pub private_v_switch_id : Option String
  pub name : Option String
  pub description : Option String
  pub status : Option String
  pub tags : Option (List SdkTag)

pub record SdkSnat : Type 0 where
  pub snat_entry_id : Option String
  pub source_v_switch_id : Option String
  pub snat_ip : Option String
  pub snat_entry_name : Option String
  pub status : Option String

-- The client, and the region that it is configured for. The answer of a creation is the id that its
-- body holds, if any.
pub record VpcClients (W : Type 0) : Type 0 where
  pub region_id : String
  pub describe_eip_addresses : EipQuery → Effect W SdkCause (ListBody SdkEip)
  pub allocate_eip_address : AllocateEip → Effect W SdkCause (Option String)
  pub modify_eip_address_attribute : ModifyEip → Effect W SdkCause (Unit {0})
  pub release_eip_address : ReleaseEip → Effect W SdkCause (Unit {0})
  pub associate_eip_address : AssociateEip → Effect W SdkCause (Unit {0})
  pub unassociate_eip_address : UnassociateEip → Effect W SdkCause (Unit {0})
  pub describe_nat_gateways : NatQuery → Effect W SdkCause (ListBody SdkNat)
  pub create_nat_gateway : CreateNat → Effect W SdkCause (Option String)
  pub modify_nat_gateway_attribute : ModifyNat → Effect W SdkCause (Unit {0})
  pub delete_nat_gateway : DeleteNat → Effect W SdkCause (Unit {0})
  pub describe_snat_table_entries : SnatQuery → Effect W SdkCause (ListBody SdkSnat)
  pub create_snat_entry : CreateSnat → Effect W SdkCause (Option String)
  pub modify_snat_entry : ModifySnat → Effect W SdkCause (Unit {0})
  pub delete_snat_entry : DeleteSnat → Effect W SdkCause (Unit {0})
  pub tag_resources : TagResources → Effect W SdkCause (Unit {0})
  pub un_tag_resources : UntagResources → Effect W SdkCause (Unit {0})

-- `xs.length` as a condition.
abbrev pub is_filled : {A : Type 0} → List A → Bool
is_filled xs = leb 1 (length xs)

module _ {W : Type 0} (c : Context (VpcClients W) W) where
  -- `syncTags`
  unfoldable pub sync_tags : String → String → TagRecord → TagRecord → Effect W Failure (Unit {0})
  sync_tags resource_type resource_id observed desired =
      let d = c.alchemy.diff_tags observed desired in
      when (is_filled d.upsert) (
        run (
          call c vpc "TagResources" (
            c.clients.tag_resources (record {
              region_id = c.clients.region_id;
              resource_type = resource_type;
              resource_id = resource_id ∷ [];
              tag = tag_list d.upsert;
            }))))
      >> when (is_filled d.removed) (
          run (
            call c vpc "UnTagResources" (
              c.clients.un_tag_resources (record {
                region_id = c.clients.region_id;
                resource_type = resource_type;
                resource_id = resource_id ∷ [];
                tag_key = d.removed;
                all = false;
              }))))
