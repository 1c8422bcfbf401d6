-- ===== src/Tair/IpGroup/Operations.antt =====
-- The operations of src/tair/security-ip-group.ts.
use alchemy_alibaba.Prelude.{String, List, [], Option, none, some, length, ◌==◌, if◌then◌else◌}
use alchemy_alibaba.Effect.{Effect, succeed, raise}
use alchemy_alibaba.Effect.Chain.{◌>>=◌}
use alchemy_alibaba.Errors.{Failure, tair}
use alchemy_alibaba.Errors.Classify.{get_or, or_else}
use alchemy_alibaba.Lifecycle.Identity.{invariant_error}
use alchemy_alibaba.Lifecycle.Wait.{wait_for, wait_for_present}
use alchemy_alibaba.Gateway.Grants.Queries.{join}
use alchemy_alibaba.Provider.{
  Context, call, wait_label, is_text, when, ignore_missing, found_or_missing, run,
}
use alchemy_alibaba.Rds.IpLists.{normalize, listed_ips, same_ips}
use alchemy_alibaba.Tair.Client.{TairClients, SdkIpGroup, request_mutation}
use alchemy_alibaba.Tair.IpGroup.{
  SecurityIpGroupProps, StoredIpGroup, SecurityIpGroupAttributes, ip_group_type, fallback_ips,
  output_instance, output_name, ip_group_attributes, ip_group_settled, needs_change, is_reset,
  is_default,
}

module _ {W : Type 0} (c : Context (TairClients W) W) where
  -- `get`
  unfoldable pub get_ip_group : String → String → Effect W Failure (Option SdkIpGroup)
  get_ip_group instance_id name =
      found_or_missing (λ g. is_text name g.group_name)
        (call c tair "DescribeSecurityIps" (c.clients.describe_security_ips instance_id))

  abbrev attributes_if_found :
      String → String → Option SdkIpGroup → Option SecurityIpGroupAttributes
  attributes_if_found instance_id name none = none
  attributes_if_found instance_id name (some g) = some (ip_group_attributes instance_id name g)

  -- `read`
  unfoldable pub read_ip_group :
      StoredIpGroup
      → Option SecurityIpGroupAttributes
      → Effect W Failure (Option SecurityIpGroupAttributes)
  unfolding get_ip_group ip_group_attributes
  read_ip_group olds output = elim (or_else olds.instance_id (output_instance output)) [
    | none ↦ succeed none
    | some instance_id ↦
        let name = get_or (or_else olds.name (output_name output)) "default" in
        get_ip_group instance_id name >>= λ group.
        succeed (attributes_if_found instance_id name group)
  ]

  abbrev refuse_empty : List String → Effect W Failure (Unit {0})
  refuse_empty ips =
      if length ips == 0
      then raise (
          invariant_error ip_group_type "ModifySecurityIps"
            "Tair requires at least one address in a security IP group")
      else succeed tt

  abbrev modify_if_needed :
      SecurityIpGroupProps → String → List String → Option SdkIpGroup → Effect W Failure (Unit {0})
  modify_if_needed news name desired group = when (needs_change news.attribute desired group) (
      run (
        request_mutation c "ModifySecurityIps" (
          c.clients.modify_security_ips (record {
            instance_id = news.instance_id;
            modify_mode = "Cover";
            security_ip_group_name = name;
            security_ip_group_attribute = news.attribute;
            security_ips = join "," desired;
          }))))

  -- `reconcile`
  unfoldable pub reconcile_ip_group :
      SecurityIpGroupProps → Effect W Failure SecurityIpGroupAttributes
  unfolding get_ip_group ip_group_settled normalize
  reconcile_ip_group news =
      let name = get_or news.name "default" in
      let desired = normalize news.security_ips in
      refuse_empty desired >>= λ filled. get_ip_group news.instance_id name >>= λ group.
      modify_if_needed news name desired group >>= λ modified.
      wait_for_present c.runtime (wait_label c tair "ModifySecurityIps")
        (ip_group_settled news.attribute desired) (get_ip_group news.instance_id name)
      >>= λ fresh. succeed (ip_group_attributes news.instance_id name fresh)

  -- `expected`
  abbrev pub expected_ips : SecurityIpGroupAttributes → List String
  expected_ips output = if is_default output.name then fallback_ips else []

  abbrev request_removal : SecurityIpGroupAttributes → Effect W Failure (Unit {0})
  request_removal output = ignore_missing (
      request_mutation c "DeleteSecurityIps" (
        c.clients.modify_security_ips (record {
          instance_id = output.instance_id;
          modify_mode = if is_default output.name then "Cover" else "Delete";
          security_ip_group_name = output.name;
          security_ip_group_attribute = none;
          security_ips =
              join ","
                (if is_default output.name then expected_ips output else output.security_ips);
        })))

  -- `delete`, which leaves the addresses of the built-in group at the fallback.
  unfoldable pub delete_ip_group : SecurityIpGroupAttributes → Effect W Failure (Unit {0})
  unfolding get_ip_group same_ips listed_ips
  delete_ip_group output =
      if length output.security_ips == 0
      then succeed tt
      else request_removal output >>= λ requested.
          wait_for c.runtime (wait_label c tair "DeleteSecurityIps")
            (is_reset (expected_ips output)) (get_ip_group output.instance_id output.name)
          >>= λ seen. succeed tt
