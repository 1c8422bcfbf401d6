-- ===== src/Ram/Policy/Operations.antt =====
-- The operations of src/ram/policy.ts.
use alchemy_alibaba.Prelude.{
  String, Bool, true, false, not, ◌&&◌, List, [], ◌∷◌, Option, none, some, if◌then◌else◌,
}
use alchemy_alibaba.Effect.{Effect, succeed, fmap}
use alchemy_alibaba.Effect.Chain.{◌>>=◌, ◌>>◌}
use alchemy_alibaba.Errors.{Failure, ram}
use alchemy_alibaba.Errors.Classify.{get_or, or_else}
use alchemy_alibaba.Lifecycle.Identity.{
  physical_name, require_recovery_ownership, same_option as same_text,
}
use alchemy_alibaba.Lifecycle.Identity.Tags.{TagRecord, tags_equal}
use alchemy_alibaba.Lifecycle.Wait.{wait_for_present, wait_for_absent}
use alchemy_alibaba.Provider.{
  Context, call, wait_label, Planned, unresolved, resolved, Plan, keep, update, replace, Reading,
  missing, owned, unowned, is_given, is_text, differs_if_wanted, when, planned, widen,
  unless_missing, ignore_missing, run,
}
use alchemy_alibaba.Provider.Tags.{tag_list, desired_tags, user_tags}
use alchemy_alibaba.Models.{Value, json_config_matches}
use alchemy_alibaba.Ram.Client.{RamClients, SdkVersion, read_tags, sync_tags}
use alchemy_alibaba.Ram.Policy.{
  PolicyProps, PolicyAttributes, ObservedPolicy, policy_type, output_name, observed_policy, is_true,
}

module _ {W : Type 0} (c : Context (RamClients W) W) where
  -- `get`
  unfoldable pub get_policy : String → Effect W Failure (Option ObservedPolicy)
  get_policy name = widen (
      unless_missing none
        (fmap observed_policy (call c ram "GetPolicy" (c.clients.get_policy name "Custom"))))

  -- `attrs`
  unfoldable pub policy_attributes : String → ObservedPolicy → Effect W Failure PolicyAttributes
  unfolding read_tags
  policy_attributes name v = read_tags c "policy" name >>= λ tags. succeed (record {
    name = name;
    policy_type = "Custom";
    default_version = v.policy.default_version;
    document = get_or v.document "";
    description = v.policy.description;
    tags = user_tags c.alchemy.strip_internal_tags (some tags);
  })

  abbrev reading :
      String → String → Option ObservedPolicy → Effect W Failure (Reading PolicyAttributes)
  reading id name none = succeed missing
  reading id name (some v) = do
    result ← policy_attributes name v
    tags ← read_tags c "policy" name
    ours ← c.alchemy.has_alchemy_tags id tags
    succeed (if ours then owned result else unowned result)

  abbrev name_or : String → Option String → Option PolicyAttributes → Effect W Failure String
  name_or id name none = physical_name c.alchemy.create_physical_name id name 128
  name_or id name (some o) = succeed o.name

  -- `read`, of the name that the inputs hold.
  unfoldable pub read_policy :
      String → Option String → Option PolicyAttributes → Effect W Failure (Reading PolicyAttributes)
  unfolding get_policy policy_attributes
  read_policy id old_name output =
      name_or id old_name output >>= λ name. get_policy name >>= reading id name

  abbrev recover :
      String
      → String
      → Option PolicyAttributes
      → Option ObservedPolicy
      → Effect W Failure (Unit {0})
  recover id name none (some v) =
      read_tags c "policy" name
      >>= require_recovery_ownership c.alchemy.has_alchemy_tags id policy_type
  recover id name output value = succeed tt

  -- The versions that are not in force go first.
  unfoldable pub delete_versions : String → List SdkVersion → Effect W Failure (Unit {0})
  delete_versions name [] = succeed tt
  delete_versions name (v ∷ vs) =
      when (not (is_true v.is_default_version) && is_given v.version_id) (
        run (
          call c ram "DeletePolicyVersion"
            (c.clients.delete_policy_version name (get_or v.version_id ""))))
      >> delete_versions name vs

  abbrev remove : PolicyAttributes → Option ObservedPolicy → Effect W Failure (Unit {0})
  remove output none = succeed tt
  remove output (some v) = do
    versions ← widen (call c ram "ListPolicyVersions" (c.clients.list_policy_versions output.name))
    deleted ← delete_versions output.name (get_or versions [])
    requested ←
        ignore_missing (call c ram "DeletePolicy" (c.clients.delete_policy output.name false))
    wait_for_absent c.runtime (wait_label c ram "DeletePolicy") (get_policy output.name)

  -- `delete`
  unfoldable pub delete_policy : PolicyAttributes → Effect W Failure (Unit {0})
  unfolding get_policy delete_versions
  delete_policy output = get_policy output.name >>= remove output

  module _ {Document : Type 0} (json_text : Document → String) (parse : String → Option Value) where
    -- The document and the description are the wanted ones: the test that ends a reconcile.
    unfoldable pub policy_settled : PolicyProps Document → ObservedPolicy → Bool
    unfolding json_config_matches
    policy_settled news v =
        json_config_matches parse v.document (some (json_text news.document))
        && not (differs_if_wanted news.description v.policy.description)

    abbrev plan_observed :
        PolicyProps Document → Option ObservedPolicy → String → Effect W Failure Plan
    plan_observed news none name = succeed update
    plan_observed news (some v) name =
        if policy_settled news v
        then (read_tags c "policy" name >>= λ tags. planned (
            not (
              tags_equal (user_tags c.alchemy.strip_internal_tags (some tags))
                (get_or news.tags []))))
        else succeed update

    -- `diff`, of the name that the old inputs hold.
    unfoldable pub diff_policy :
        Option String
        → Planned (PolicyProps Document)
        → Option PolicyAttributes
        → Effect W Failure Plan
    unfolding get_policy policy_settled
    diff_policy old_name unresolved output = succeed keep
    diff_policy old_name (resolved news) output =
        if same_text old_name news.name
        then elim output [
          | none ↦ succeed keep
          | some o ↦ get_policy o.name >>= λ value. plan_observed news value o.name
        ]
        else succeed replace

    unfoldable pub create_policy_if_missing :
        PolicyProps Document
        → String
        → TagRecord
        → Option ObservedPolicy
        → Effect W Failure ObservedPolicy
    unfolding get_policy
    create_policy_if_missing news name desired (some v) = succeed v
    create_policy_if_missing news name desired none = do
      created ← run (
          call c ram "CreatePolicy" (
            c.clients.create_policy (record {
              policy_name = name;
              policy_document = json_text news.document;
              description = news.description;
              tag = tag_list desired;
            })))
      wait_for_present c.runtime (wait_label c ram "CreatePolicy") (λ v. true) (get_policy name)

    abbrev renew_if_needed :
        PolicyProps Document → String → ObservedPolicy → Effect W Failure (Unit {0})
    renew_if_needed news name v =
        when (not (json_config_matches parse v.document (some (json_text news.document)))) (
          run (
            call c ram "CreatePolicyVersion" (
              c.clients.create_policy_version (record {
                policy_name = name;
                policy_document = json_text news.document;
                set_as_default = true;
                rotate_strategy = "DeleteOldestNonDefaultVersionWhenLimitExceeded";
              }))))

    abbrev describe_if_needed :
        PolicyProps Document → String → ObservedPolicy → Effect W Failure (Unit {0})
    describe_if_needed news name v = elim news.description [
      | none ↦ succeed tt
      | some wanted ↦ when (not (is_text wanted v.policy.description)) (
          run (
            call c ram "UpdatePolicyDescription" (c.clients.update_policy_description name wanted)))
    ]

    -- `reconcile`
    unfoldable pub reconcile_policy :
        String → PolicyProps Document → Option PolicyAttributes → Effect W Failure PolicyAttributes
    unfolding get_policy create_policy_if_missing policy_settled policy_attributes
    reconcile_policy id news output = do
      name ←
          physical_name c.alchemy.create_physical_name id (or_else news.name (output_name output))
            128
      desired ← desired_tags c.alchemy.create_internal_tags id news.tags
      found ← get_policy name
      recovered ← recover id name output found
      value ← create_policy_if_missing news name desired found
      renewed ← renew_if_needed news name value
      described ← describe_if_needed news name value
      tagged ← sync_tags c "policy" name desired
      wait_for_present c.runtime (wait_label c ram "ReconcilePolicy") (policy_settled news)
            (get_policy name)
          >>= policy_attributes name
