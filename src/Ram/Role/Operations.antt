-- ===== src/Ram/Role/Operations.antt =====
-- The operations of src/ram/role.ts.
use Prim.Native.String.{◌++◌ as ◌<>◌}
use alchemy_alibaba.Prelude.{
  String, Bool, true, not, ◌&&◌, List, [], ◌∷◌, ◌++◌, Option, none, some, if◌then◌else◌, str_eq,
}
use alchemy_alibaba.Effect.{Effect, succeed, fmap}
use alchemy_alibaba.Effect.Chain.{◌>>=◌, ◌>>◌}
use alchemy_alibaba.Errors.{Failure, ram}
use alchemy_alibaba.Errors.Classify.{get_or, or_else}
use alchemy_alibaba.Lifecycle.Identity.{
  require_value, physical_name, require_recovery_ownership, same_option as same_text,
}
use alchemy_alibaba.Lifecycle.Identity.Tags.{TagRecord, tags_equal}
use alchemy_alibaba.Lifecycle.Wait.{wait_for_present, wait_for_absent}
use alchemy_alibaba.Provider.{
  Context, call, wait_label, Planned, unresolved, resolved, Plan, keep, update, replace, Reading,
  missing, owned, unowned, differs_if_wanted, when, planned, widen, unless_missing, ignore_missing,
  run,
}
use alchemy_alibaba.Provider.Tags.{tag_list, desired_tags, user_tags}
use alchemy_alibaba.Models.{Value, json_config_matches}
use alchemy_alibaba.Ram.Client.{RamClients, SdkRole, pages, read_tags, sync_tags}
use alchemy_alibaba.Ram.Role.{
  RoleProps, RoleAttributes, role_type, output_name, is_number, names_page,
}

module _ {W : Type 0} (c : Context (RamClients W) W) where
  -- `get`
  unfoldable pub get_role : String → Effect W Failure (Option SdkRole)
  get_role name = widen (unless_missing none (call c ram "GetRole" (c.clients.get_role name)))

  -- `attrs`
  unfoldable pub role_attributes : SdkRole → Effect W Failure RoleAttributes
  unfolding read_tags
  role_attributes v = do
    name ← require_value v.role_name role_type "Read" "Missing RAM role name"
    role_id ← require_value v.role_id role_type "Read" "Missing RAM role id"
    arn ← require_value v.arn role_type "Read" "Missing RAM role ARN"
    tags ← read_tags c "role" name
    succeed (record {
      name = name;
      role_id = role_id;
      arn = arn;
      assume_role_policy = get_or v.assume_role_policy_document "";
      description = v.description;
      max_session_duration = v.max_session_duration;
      tags = user_tags c.alchemy.strip_internal_tags (some tags);
    })

  abbrev attributes_if_found : Option SdkRole → Effect W Failure (List RoleAttributes)
  attributes_if_found none = succeed []
  attributes_if_found (some v) = role_attributes v >>= λ a. succeed (a ∷ [])

  abbrev role_of_name : Option String → Effect W Failure (List RoleAttributes)
  role_of_name none = succeed []
  role_of_name (some name) =
      if str_eq name "" then succeed [] else get_role name >>= attributes_if_found

  abbrev roles_of : List (Option String) → Effect W Failure (List RoleAttributes)
  roles_of [] = succeed []
  roles_of (name ∷ names) =
      role_of_name name >>= λ first. roles_of names >>= λ rest. succeed (first ++ rest)

  -- `list`
  unfoldable pub list_roles : Effect W Failure (List RoleAttributes)
  unfolding pages get_role role_attributes
  list_roles =
      pages "ListRoles" (λ marker.
        widen (fmap names_page (call c ram "ListRoles" (c.clients.list_roles marker 100))))
      >>= roles_of

  abbrev reading : String → Option SdkRole → Effect W Failure (Reading RoleAttributes)
  reading id none = succeed missing
  reading id (some v) = do
    result ← role_attributes v
    tags ← read_tags c "role" result.name
    ours ← c.alchemy.has_alchemy_tags id tags
    succeed (if ours then owned result else unowned result)

  abbrev name_or : String → Option String → Option RoleAttributes → Effect W Failure String
  name_or id name none = physical_name c.alchemy.create_physical_name id name 64
  name_or id name (some o) = succeed o.name

  -- `read`, of the name that the inputs hold.
  unfoldable pub read_role :
      String → Option String → Option RoleAttributes → Effect W Failure (Reading RoleAttributes)
  unfolding get_role role_attributes
  read_role id old_name output = name_or id old_name output >>= λ name. get_role name >>= reading id

  abbrev recover :
      String → String → Option RoleAttributes → Option SdkRole → Effect W Failure (Unit {0})
  recover id name none (some v) =
      read_tags c "role" name >>= require_recovery_ownership c.alchemy.has_alchemy_tags id role_type
  recover id name output value = succeed tt

  abbrev remove : RoleAttributes → Option SdkRole → Effect W Failure (Unit {0})
  remove output none = succeed tt
  remove output (some v) =
      ignore_missing (call c ram "DeleteRole" (c.clients.delete_role output.name))
      >> wait_for_absent c.runtime (wait_label c ram "DeleteRole") (get_role output.name)

  -- `delete`
  unfoldable pub delete_role : RoleAttributes → Effect W Failure (Unit {0})
  unfolding get_role
  delete_role output = get_role output.name >>= remove output

  module _ {Document : Type 0} (json_text : Document → String) (parse : String → Option Value) where
    -- `matches`
    unfoldable pub role_matches : SdkRole → RoleProps Document → Bool
    unfolding json_config_matches
    role_matches v news =
        json_config_matches parse v.assume_role_policy_document
          (some (json_text news.assume_role_policy))
        && not (differs_if_wanted news.description v.description)
        && is_number (get_or news.max_session_duration 3600) v.max_session_duration

    abbrev plan_observed : RoleProps Document → Option SdkRole → String → Effect W Failure Plan
    plan_observed news none name = succeed update
    plan_observed news (some v) name =
        if role_matches v news
        then (read_tags c "role" name >>= λ tags. planned (
            not (
              tags_equal (user_tags c.alchemy.strip_internal_tags (some tags))
                (get_or news.tags []))))
        else succeed update

    -- `diff`, of the name that the old inputs hold.
    unfoldable pub diff_role :
        Option String → Planned (RoleProps Document) → Option RoleAttributes → Effect W Failure Plan
    unfolding get_role role_matches
    diff_role old_name unresolved output = succeed keep
    diff_role old_name (resolved news) output =
        if same_text old_name news.name
        then elim output [
          | none ↦ succeed keep
          | some o ↦ get_role o.name >>= λ value. plan_observed news value o.name
        ]
        else succeed replace

    unfoldable pub create_role_if_missing :
        RoleProps Document → String → TagRecord → Option SdkRole → Effect W Failure SdkRole
    unfolding get_role
    create_role_if_missing news name desired (some v) = succeed v
    create_role_if_missing news name desired none = do
      noted ← c.alchemy.note ("Creating RAM role " <> name)
      created ← run (
          call c ram "CreateRole" (
            c.clients.create_role (record {
              role_name = name;
              assume_role_policy_document = json_text news.assume_role_policy;
              description = news.description;
              max_session_duration = get_or news.max_session_duration 3600;
              tag = tag_list desired;
            })))
      wait_for_present c.runtime (wait_label c ram "CreateRole") (λ v. true) (get_role name)

    abbrev update_if_needed : RoleProps Document → String → SdkRole → Effect W Failure (Unit {0})
    update_if_needed news name v = when (not (role_matches v news)) (
        run (
          call c ram "UpdateRole" (
            c.clients.update_role (record {
              role_name = name;
              new_assume_role_policy_document = json_text news.assume_role_policy;
              new_description = news.description;
              new_max_session_duration = get_or news.max_session_duration 3600;
            }))))

    -- `reconcile`
    unfoldable pub reconcile_role :
        String → RoleProps Document → Option RoleAttributes → Effect W Failure RoleAttributes
    unfolding get_role create_role_if_missing role_matches role_attributes
    reconcile_role id news output = do
      name ←
          physical_name c.alchemy.create_physical_name id (or_else news.name (output_name output))
            64
      desired ← desired_tags c.alchemy.create_internal_tags id news.tags
      found ← get_role name
      recovered ← recover id name output found
      value ← create_role_if_missing news name desired found
      updated ← update_if_needed news name value
      tagged ← sync_tags c "role" name desired
      wait_for_present c.runtime (wait_label c ram "ReconcileRole") (λ v. role_matches v news)
            (get_role name)
          >>= role_attributes
