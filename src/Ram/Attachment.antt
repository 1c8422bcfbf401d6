-- ===== src/Ram/Attachment.antt =====
-- The provider of src/ram/role-policy-attachment.ts: a policy that a role has.
use alchemy_alibaba.Prelude.{
  String, Bool, false, not, ◌&&◌, List, [], Option, none, some, str_eq, any, if◌then◌else◌,
}
use alchemy_alibaba.Effect.{Effect, succeed, fmap}
use alchemy_alibaba.Effect.Chain.{◌>>=◌, ◌>>◌}
use alchemy_alibaba.Errors.{Failure, ram}
use alchemy_alibaba.Errors.Classify.{get_or}
use alchemy_alibaba.Lifecycle.Wait.{wait_for}
use alchemy_alibaba.Provider.{
  Context, call, wait_label, Planned, unresolved, resolved, Plan, keep, replace, is_text, when,
  planned, widen, unless_missing, run, ignore_missing,
}
use alchemy_alibaba.Ram.Client.{RamClients, PolicyOfRole, AttachedPolicy}

pub record RolePolicyAttachmentProps : Type 0 where
  pub role_name : String
  pub policy_name : String
  pub policy_type : Option String

-- `normalize`; the attributes are the inputs with a type.
unfoldable pub normalize : RolePolicyAttachmentProps → PolicyOfRole
normalize p = record {
  role_name = p.role_name;
  policy_name = p.policy_name;
  policy_type = get_or p.policy_type "Custom";
}

abbrev pub is_policy : PolicyOfRole → AttachedPolicy → Bool
is_policy p v = is_text p.policy_name v.policy_name && is_text p.policy_type v.policy_type

abbrev has_policy : PolicyOfRole → Option (List AttachedPolicy) → Bool
has_policy p policies = any (is_policy p) (get_or policies [])

abbrev same_policy : PolicyOfRole → PolicyOfRole → Bool
same_policy a b =
    str_eq a.role_name b.role_name
    && str_eq a.policy_name b.policy_name
    && str_eq a.policy_type b.policy_type

module _ {W : Type 0} (c : Context (RamClients W) W) where
  -- `exists`
  unfoldable pub is_attached : PolicyOfRole → Effect W Failure Bool
  is_attached p = widen (
      unless_missing false (
        fmap (has_policy p)
          (call c ram "ListPoliciesForRole" (c.clients.list_policies_for_role p.role_name))))

  -- `diff`
  unfoldable pub diff_role_policy :
      RolePolicyAttachmentProps → Planned RolePolicyAttachmentProps → Effect W Failure Plan
  unfolding is_attached normalize
  diff_role_policy olds unresolved = succeed keep
  diff_role_policy olds (resolved news) =
      if same_policy (normalize olds) (normalize news)
      then (is_attached (normalize news) >>= λ attached. planned (not attached))
      else succeed replace

  abbrev props_or : RolePolicyAttachmentProps → Option PolicyOfRole → PolicyOfRole
  props_or olds none = normalize olds
  props_or olds (some o) = o

  -- `read`
  unfoldable pub read_role_policy :
      RolePolicyAttachmentProps → Option PolicyOfRole → Effect W Failure (Option PolicyOfRole)
  unfolding is_attached normalize
  read_role_policy olds output = is_attached (props_or olds output) >>= λ attached.
      succeed (if attached then some (props_or olds output) else none)

  -- `reconcile`
  unfoldable pub reconcile_role_policy : RolePolicyAttachmentProps → Effect W Failure PolicyOfRole
  unfolding is_attached normalize
  reconcile_role_policy news = do
    attached ← is_attached (normalize news)
    requested ←
        when (not attached)
          (run (call c ram "AttachPolicyToRole" (c.clients.attach_policy_to_role (normalize news))))
    seen ←
        wait_for c.runtime (wait_label c ram "AttachPolicyToRole") (λ v. v)
          (is_attached (normalize news))
    succeed (normalize news)

  abbrev detach : PolicyOfRole → Effect W Failure (Unit {0})
  detach output =
      ignore_missing (call c ram "DetachPolicyFromRole" (c.clients.detach_policy_from_role output))
      >> wait_for c.runtime (wait_label c ram "DetachPolicyFromRole") not (is_attached output)
      >>= λ seen. succeed tt

  -- `delete`
  unfoldable pub delete_role_policy : PolicyOfRole → Effect W Failure (Unit {0})
  unfolding is_attached
  delete_role_policy output =
      is_attached output >>= λ attached. if attached then detach output else succeed tt
