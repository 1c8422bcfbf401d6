-- ===== src/Rds/IpGroup/Operations.antt =====
-- The operations of src/rds/security-ip-group.ts.
use alchemy_alibaba.Prelude.{String, List, [], ◌∷◌, Option, none, some, length, ◌==◌, if◌then◌else◌}
use alchemy_alibaba.Effect.{Effect, succeed, raise}
use alchemy_alibaba.Effect.Chain.{◌>>=◌}
use alchemy_alibaba.Errors.{Failure, rds}
use alchemy_alibaba.Errors.Classify.{get_or, or_else}
use alchemy_alibaba.Lifecycle.Identity.{invariant_error}
use alchemy_alibaba.Lifecycle.Wait.{wait_for, wait_for_present}
use alchemy_alibaba.Provider.{
  Context, call, wait_label, when, ignore_missing, found_or_missing, run_once,
}
use alchemy_alibaba.Rds.Client.{RdsClients, SdkIpGroup}
use alchemy_alibaba.Rds.IpLists.{normalize, listed_ips, same_ips}
use alchemy_alibaba.Rds.IpGroup.{
  SecurityIpGroupProps, StoredIpGroup, SecurityIpGroupAttributes, ip_group_type, no_settings,
  output_instance, output_name, ip_group_attributes, ip_group_settled, needs_change, observed_name,
  is_reset, cover, has_name,
}

module _ {W : Type 0} (c : Context (RdsClients W) W) (lower : String → String) where
  -- `get`
  unfoldable pub get_ip_group : String → String → Effect W Failure (Option SdkIpGroup)
  get_ip_group instance_id name =
      found_or_missing (has_name lower name)
        (call c rds "DescribeDBInstanceIPArrayList" (c.clients.describe_ip_array_list instance_id))

  abbrev attributes_if_found :
      String → String → Option SdkIpGroup → Option SecurityIpGroupAttributes
  attributes_if_found instance_id name none = none
  attributes_if_found instance_id name (some g) = some (ip_group_attributes instance_id name g)

  -- `read`
  unfoldable pub read_ip_group :
      StoredIpGroup
      → Option SecurityIpGroupAttributes
      → Effect W Failure (Option SecurityIpGroupAttributes)
  unfolding get_ip_group ip_group_attributes
  read_ip_group olds output = elim (or_else olds.instance_id (output_instance output)) [
    | none ↦ succeed none
    | some instance_id ↦
        let name = get_or (or_else olds.name (output_name output)) "Default" in
        get_ip_group instance_id name >>= λ group.
        succeed (attributes_if_found instance_id name group)
  ]

  abbrev refuse_empty : String → String → List String → Effect W Failure (Unit {0})
  refuse_empty operation message ips =
      if length ips == 0
      then raise (invariant_error ip_group_type operation message)
      else succeed tt

  abbrev modify_if_needed :
      SecurityIpGroupProps → String → List String → Option SdkIpGroup → Effect W Failure (Unit {0})
  modify_if_needed news name desired group =
      let settings = get_or news.settings no_settings in
      when (needs_change settings desired group) (
        run_once rds "ModifySecurityIps" (
          c.clients.modify_security_ips
            (cover settings news.instance_id (observed_name name group) desired)))

  -- `reconcile`
  unfoldable pub reconcile_ip_group :
      SecurityIpGroupProps → Effect W Failure SecurityIpGroupAttributes
  unfolding get_ip_group ip_group_settled normalize
  reconcile_ip_group news =
      let name = get_or news.name "Default" in
      let desired = normalize news.security_ips in
      refuse_empty "ModifySecurityIps"
        "RDS requires at least one address in every security IP group" desired
      >>= λ filled. get_ip_group news.instance_id name >>= λ group.
          modify_if_needed news name desired group >>= λ modified.
          wait_for_present c.runtime (wait_label c rds "ModifySecurityIps")
            (ip_group_settled (get_or news.settings no_settings) desired)
            (get_ip_group news.instance_id name)
          >>= λ fresh. succeed (ip_group_attributes news.instance_id name fresh)

  -- `delete`, which resets the group.
  unfoldable pub delete_ip_group :
      StoredIpGroup → SecurityIpGroupAttributes → Effect W Failure (Unit {0})
  unfolding get_ip_group normalize same_ips listed_ips
  delete_ip_group olds output =
      let reset_to = normalize (get_or olds.reset_to ("127.0.0.1" ∷ [])) in
      refuse_empty "ResetSecurityIps" "RDS requires resetTo to contain at least one address"
        reset_to
      >>= λ filled.
          ignore_missing (
            call c rds "ResetSecurityIps" (
              c.clients.modify_security_ips
                (cover (get_or olds.settings no_settings) output.instance_id output.name reset_to)))
          >>= λ reset.
              wait_for c.runtime (wait_label c rds "ResetSecurityIps") (is_reset reset_to)
                (get_ip_group output.instance_id output.name)
              >>= λ seen. succeed tt
