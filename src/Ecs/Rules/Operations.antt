-- ===== src/Ecs/Rules/Operations.antt =====
-- The operations of the providers of src/ecs/security-group-ingress.ts and security-group-egress.ts.
use alchemy_alibaba.Prelude.{
  ℕ, zero, suc, String, Bool, true, false, not, ◌||◌, List, [], ◌∷◌, ◌++◌, Option, none, some,
  str_eq, ◌==◌, length, if◌then◌else◌, filter,
}
use alchemy_alibaba.Effect.{Effect, succeed, raise, fmap, catch_if}
use alchemy_alibaba.Effect.Chain.{◌>>=◌, ◌>>◌}
use alchemy_alibaba.Errors.{Failure, ProviderError, ecs, pagination_limit}
use alchemy_alibaba.Errors.Classify.{get_or}
use alchemy_alibaba.Lifecycle.Identity.{require_region, require_value, invariant_error}
use alchemy_alibaba.Lifecycle.Wait.{wait_for_present, wait_for_absent}
use alchemy_alibaba.Gateway.Decimal.{decimal_text}
use alchemy_alibaba.Provider.{
  Context, call, wait_label, Planned, unresolved, resolved, Plan, keep, update, replace, is_given,
  is_present, when, widen, run,
}
use alchemy_alibaba.Ecs.Client.{EcsClients, SdkRule, RulePage, is_missing, unique}
use alchemy_alibaba.Ecs.Rules.{
  Direction, RuleProps, RuleAttributes, output_region, output_rule, normalized, same_rule,
  peers_given, matches_rule, is_selected, drift,
}

module _ {W : Type 0} (c : Context (EcsClients W) W) (d : Direction W) where
  -- One page of rules; nothing where the group is gone.
  abbrev rule_page : RuleProps → Option String → Effect W Failure (Option RulePage)
  rule_page p token = widen (
      catch_if (is_missing "InvalidSecurityGroupId.NotFound") (λ e. succeed none)
        (fmap (λ page. some page)
          (call c ecs "DescribeSecurityGroupAttribute" (
            c.clients.describe_security_group_attribute (record {
              region_id = c.clients.region_id;
              security_group_id = p.security_group_id;
              direction = d.name;
              max_results = 100;
              next_token = token;
            })))))

  -- `attrs`
  unfoldable pub rule_attributes : RuleProps → SdkRule → Effect W Failure RuleAttributes
  unfolding normalized
  rule_attributes p v =
      require_value v.security_group_rule_id d.resource_type "DescribeSecurityGroupAttribute"
        "Missing security group rule id"
      >>= λ rule_id. succeed (record {
        props = normalized p;
        region_id = c.clients.region_id;
        security_group_rule_id = rule_id;
      })

  -- Exactly one peer is given.
  unfoldable pub validate_peer : RuleProps → Effect W Failure (Unit {0})
  validate_peer p =
      if length (peers_given p.peer) == 1
      then succeed tt
      else raise (invariant_error d.resource_type "Validate" d.one_peer_message)

  abbrev authorize_rule : RuleProps → Effect W Failure (Unit {0})
  authorize_rule p = run (
      call c ecs d.authorize_operation (
        d.authorize (record {
          region_id = c.clients.region_id;
          security_group_id = p.security_group_id;
          ip_protocol = p.ip_protocol;
          port_range = p.port_range;
          peer = p.peer;
          priority = decimal_text (get_or p.priority 1);
          policy = get_or p.policy "accept";
          nic_type = "intranet";
        })))

  abbrev is_gone : ProviderError → Bool
  is_gone e =
      is_missing "InvalidSecurityGroupId.NotFound" e
      || is_missing "InvalidSecurityGroupRuleId.NotFound" e

  abbrev revoke_rule : RuleAttributes → Effect W Failure (Unit {0})
  revoke_rule o = widen (
      catch_if is_gone (λ e. succeed tt)
        (call c ecs d.revoke_operation (
          d.revoke (record {
            region_id = c.clients.region_id;
            security_group_id = o.props.security_group_id;
            security_group_rule_id = o.security_group_rule_id ∷ [];
          }))))

  module _ (lower : String → String) (other_number : List ℕ → Option ℕ) where
    -- The rest of a round over a page of rules.
    abbrev next_page :
        (Option String → List SdkRule → Effect W Failure (Option SdkRule))
        → RuleProps
        → Option String
        → List SdkRule
        → Option RulePage
        → Effect W Failure (Option SdkRule)
    next_page more p rule_id found none = succeed none
    next_page more p rule_id found (some page) =
        require_value page.permissions d.resource_type "DescribeSecurityGroupAttribute"
          "ECS permission inventory is missing"
        >>= λ permissions.
            let all = found ++ filter (is_selected d lower other_number p rule_id) permissions in
            elim (is_given page.next_token) [
              | true ↦ more page.next_token all
              | false ↦ unique all d.resource_type
            ]

    -- The loop of `get`, with the pages left, the token and the rules so far.
    unfoldable pub collect_rules :
        ℕ
        → RuleProps
        → Option String
        → Option String
        → List SdkRule
        → Effect W Failure (Option SdkRule)
    unfolding matches_rule
    collect_rules zero p rule_id token found = raise (
        pagination_limit (record {
          service = ecs;
          operation = "DescribeSecurityGroupAttribute";
          page_size = 100;
          max_pages = 200;
          observed_items = length found;
          reported_total = none;
        }))
    collect_rules (suc left) p rule_id token found =
        rule_page p token >>= next_page (collect_rules left p rule_id) p rule_id found

    -- `get`
    unfoldable pub get_rule : RuleProps → Option String → Effect W Failure (Option SdkRule)
    unfolding collect_rules
    get_rule p rule_id = collect_rules 200 p rule_id none []

    abbrev diff_seen : RuleProps → Option SdkRule → Effect W Failure Plan
    diff_seen olds none = succeed update
    diff_seen olds (some v) =
        if matches_rule d lower other_number v olds
        then succeed keep
        else raise (drift d lower other_number)

    abbrev diff_observed : RuleProps → Option RuleAttributes → Effect W Failure Plan
    diff_observed olds none = succeed keep
    diff_observed olds (some output) =
        require_region d.resource_type c.clients.region_id (some output.region_id) >>= λ here.
        get_rule olds (some output.security_group_rule_id) >>= diff_seen olds

    -- `diff`
    unfoldable pub diff_rule :
        RuleProps → Planned RuleProps → Option RuleAttributes → Effect W Failure Plan
    unfolding get_rule same_rule matches_rule
    diff_rule olds unresolved output = succeed keep
    diff_rule olds (resolved news) output =
        if same_rule olds news then diff_observed olds output else succeed replace

    -- A rule of the resource that was changed elsewhere is an error.
    abbrev refuse_changed : RuleProps → Option SdkRule → Effect W Failure (Unit {0})
    refuse_changed p none = succeed tt
    refuse_changed p (some v) =
        if matches_rule d lower other_number v p
        then succeed tt
        else raise (drift d lower other_number)

    abbrev reading : RuleProps → Option SdkRule → Effect W Failure (Option RuleAttributes)
    reading p none = succeed none
    reading p (some v) = rule_attributes p v >>= λ a. succeed (some a)

    abbrev props_or : RuleProps → Option RuleAttributes → RuleProps
    props_or olds none = olds
    props_or olds (some o) = o.props

    -- `read`, of inputs that are resolved.
    unfoldable pub read_rule :
        RuleProps → Option RuleAttributes → Effect W Failure (Option RuleAttributes)
    unfolding get_rule matches_rule rule_attributes
    read_rule olds output =
        require_region d.resource_type c.clients.region_id (output_region output) >>= λ here.
        let p = props_or olds output in
        if str_eq p.security_group_id ""
        then succeed none
        else get_rule p (output_rule output) >>= λ value.
            when (is_present output) (refuse_changed p value) >>= λ kept. reading p value

    -- The rule of an earlier run is as it was left.
    unfoldable pub require_unchanged :
        RuleProps → Option RuleAttributes → Effect W Failure (Unit {0})
    unfolding get_rule matches_rule
    require_unchanged news none = succeed tt
    require_unchanged news (some output) =
        get_rule news (some output.security_group_rule_id) >>= refuse_changed news

    abbrev has_rule_id : SdkRule → Bool
    has_rule_id v = is_present v.security_group_rule_id

    -- `reconcile`
    unfoldable pub reconcile_rule :
        RuleProps → Option RuleAttributes → Effect W Failure RuleAttributes
    unfolding get_rule require_unchanged validate_peer rule_attributes
    reconcile_rule news output = do
      valid ← validate_peer news
      here ← require_region d.resource_type c.clients.region_id (output_region output)
      unchanged ← require_unchanged news output
      found ← get_rule news none
      authorized ← when (not (is_present found)) (authorize_rule news)
      wait_for_present c.runtime (wait_label c ecs d.authorize_operation) has_rule_id
            (get_rule news none)
          >>= rule_attributes news

    abbrev remove : RuleAttributes → Option SdkRule → Effect W Failure (Unit {0})
    remove output none = succeed tt
    remove output (some v) =
        revoke_rule output
        >> wait_for_absent c.runtime (wait_label c ecs d.revoke_operation)
            (get_rule output.props (some output.security_group_rule_id))

    -- `delete`
    unfoldable pub delete_rule : RuleAttributes → Effect W Failure (Unit {0})
    unfolding get_rule
    delete_rule output =
        require_region d.resource_type c.clients.region_id (some output.region_id) >>= λ here.
        get_rule output.props (some output.security_group_rule_id) >>= remove output
