-- ===== src/Ecs/Directions.antt =====
-- The two providers of src/ecs/security-group-ingress.ts and src/ecs/security-group-egress.ts.
use alchemy_alibaba.Prelude.{ℕ, String, List, Option}
use alchemy_alibaba.Effect.{Effect}
use alchemy_alibaba.Errors.{Failure}
use alchemy_alibaba.Provider.{Context, Planned, Plan}
use alchemy_alibaba.Ecs.Client.{EcsClients, SdkRule}
use alchemy_alibaba.Ecs.Rules.{Direction, RuleProps, RuleAttributes}
use alchemy_alibaba.Ecs.Rules.Operations.{
  get_rule, diff_rule, read_rule, reconcile_rule, delete_rule,
}

module _ {W : Type 0} (c : Context (EcsClients W) W) where
  abbrev pub ingress : Direction W
  ingress = record {
    name = "ingress";
    resource_type = "Alibaba.ECS.SecurityGroupIngress";
    authorize_operation = "AuthorizeSecurityGroup";
    revoke_operation = "RevokeSecurityGroup";
    changed_message =
        "Managed ingress rule was changed externally; restore or remove that rule before reapplying to avoid leaving unintended access";
    one_peer_message = "Exactly one security group rule source must be specified";
    peer_of = λ v. v.source;
    authorize = c.clients.authorize_security_group;
    revoke = c.clients.revoke_security_group;
  }

  abbrev pub egress : Direction W
  egress = record {
    name = "egress";
    resource_type = "Alibaba.ECS.SecurityGroupEgress";
    authorize_operation = "AuthorizeSecurityGroupEgress";
    revoke_operation = "RevokeSecurityGroupEgress";
    changed_message =
        "Managed egress rule was changed externally; restore or remove that rule before reapplying to avoid leaving unintended access";
    one_peer_message = "Exactly one security group rule destination must be specified";
    peer_of = λ v. v.destination;
    authorize = c.clients.authorize_security_group_egress;
    revoke = c.clients.revoke_security_group_egress;
  }

  module _ (lower : String → String) (other_number : List ℕ → Option ℕ) where
    -- The operations of the provider of outgoing rules.
    unfoldable pub get_egress : RuleProps → Option String → Effect W Failure (Option SdkRule)
    get_egress = get_rule c egress lower other_number

    unfoldable pub diff_egress :
        RuleProps → Planned RuleProps → Option RuleAttributes → Effect W Failure Plan
    diff_egress = diff_rule c egress lower other_number

    unfoldable pub read_egress :
        RuleProps → Option RuleAttributes → Effect W Failure (Option RuleAttributes)
    read_egress = read_rule c egress lower other_number

    unfoldable pub reconcile_egress :
        RuleProps → Option RuleAttributes → Effect W Failure RuleAttributes
    reconcile_egress = reconcile_rule c egress lower other_number

    unfoldable pub delete_egress : RuleAttributes → Effect W Failure (Unit {0})
    delete_egress = delete_rule c egress lower other_number
