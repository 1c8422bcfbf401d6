-- ===== src/Ecs/Rules.antt =====
-- The providers of src/ecs/security-group-ingress.ts and src/ecs/security-group-egress.ts, which
-- differ in the direction of a rule alone: its names, its operations of the client, and whether its
-- peer is a source or a destination. `lower` is `toLowerCase` and `other_number` JavaScript's reading
-- of texts that are no digits.
pub mod Operations
use alchemy_alibaba.Prelude.{
  ℕ, zero, suc, String, Bool, true, false, not, ◌&&◌, ◌||◌, List, [], ◌∷◌, ◌++◌, Option, none, some,
  str_eq, ◌==◌, length, if◌then◌else◌, filter,
}
use alchemy_alibaba.Effect.{Effect, succeed, raise, fmap, catch_if}
use alchemy_alibaba.Effect.Chain.{◌>>=◌, ◌>>◌}
use alchemy_alibaba.Errors.{Failure, ProviderError, ecs, pagination_limit}
use alchemy_alibaba.Errors.Classify.{SdkCause, get_or}
use alchemy_alibaba.Errors.Pattern.{codes}
use alchemy_alibaba.Lifecycle.Identity.{
  require_region, require_value, invariant_error, same_option as same_text,
}
use alchemy_alibaba.Lifecycle.Wait.{wait_for_present, wait_for_absent}
use alchemy_alibaba.Gateway.Address.{number_of}
use alchemy_alibaba.Gateway.Decimal.{decimal_text}
use alchemy_alibaba.Provider.{
  Context, call, wait_label, Planned, unresolved, resolved, Plan, keep, update, replace, is_given,
  is_present, is_text, when, widen, run,
}
use alchemy_alibaba.Ecs.Client.{
  EcsClients, Peer, SdkRule, RulePage, AuthorizeRule, RevokeRule, is_missing, unique,
}

-- What distinguishes the two directions.
pub record Direction (W : Type 0) : Type 0 where
  pub name : String
  pub resource_type : String
  pub authorize_operation : String
  pub revoke_operation : String
  pub changed_message : String
  pub one_peer_message : String
  pub peer_of : SdkRule → Peer
  pub authorize : AuthorizeRule → Effect W SdkCause (Unit {0})
  pub revoke : RevokeRule → Effect W SdkCause (Unit {0})

pub record RuleProps : Type 0 where
  pub security_group_id : String
  pub ip_protocol : String
  pub port_range : String
  pub peer : Peer
  pub policy : Option String
  pub priority : Option ℕ

-- `props` are the normalized inputs.
pub record RuleAttributes : Type 0 where
  pub props : RuleProps
  pub region_id : String
  pub security_group_rule_id : String

abbrev pub output_region : Option RuleAttributes → Option String
output_region none = none
output_region (some o) = some o.region_id

abbrev pub output_rule : Option RuleAttributes → Option String
output_rule none = none
output_rule (some o) = some o.security_group_rule_id

-- `normalized`
unfoldable pub normalized : RuleProps → RuleProps
normalized p = record p {
  policy = some (get_or p.policy "accept");
  priority = some (get_or p.priority 1);
}

-- `isDeepStrictEqual(normalized(olds), normalized(news))`
unfoldable pub same_rule : RuleProps → RuleProps → Bool
same_rule a b =
    str_eq a.security_group_id b.security_group_id
    && str_eq a.ip_protocol b.ip_protocol
    && str_eq a.port_range b.port_range
    && same_text a.peer.cidr_ip b.peer.cidr_ip
    && same_text a.peer.ipv6_cidr_ip b.peer.ipv6_cidr_ip
    && same_text a.peer.group_id b.peer.group_id
    && str_eq (get_or a.policy "accept") (get_or b.policy "accept")
    && get_or a.priority 1 == get_or b.priority 1

-- `value || undefined`
abbrev or_undefined : Option String → Option String
or_undefined none = none
or_undefined (some s) = if str_eq s "" then none else some s

abbrev lower_is : (String → String) → String → Option String → Bool
lower_is lower wanted none = false
lower_is lower wanted (some s) = str_eq (lower s) wanted

abbrev is_number : Option ℕ → ℕ → Bool
is_number none n = false
is_number (some m) n = m == n

abbrev peers_given : Peer → List (Option String)
peers_given p = filter is_present (p.cidr_ip ∷ p.ipv6_cidr_ip ∷ p.group_id ∷ [])

module _ {W : Type 0} (d : Direction W) (lower : String → String)
    (other_number : List ℕ → Option ℕ) where
  abbrev priority_of : Option String → Option ℕ
  priority_of none = none
  priority_of (some text) = number_of other_number (codes text)

  -- `matchesRule`
  unfoldable pub matches_rule : SdkRule → RuleProps → Bool
  matches_rule v p =
      let seen = d.peer_of v in
      is_text d.name v.direction
      && lower_is lower (get_or p.policy "accept") v.policy
      && is_text "intranet" v.nic_type
      && lower_is lower p.ip_protocol v.ip_protocol
      && is_text p.port_range v.port_range
      && same_text (or_undefined seen.cidr_ip) p.peer.cidr_ip
      && same_text (or_undefined seen.ipv6_cidr_ip) p.peer.ipv6_cidr_ip
      && same_text (or_undefined seen.group_id) p.peer.group_id
      && is_number (priority_of v.priority) (get_or p.priority 1)

  -- The rule of the id, or a rule that matches.
  abbrev pub is_selected : RuleProps → Option String → SdkRule → Bool
  is_selected p none v = matches_rule v p
  is_selected p (some rule_id) v = is_text rule_id v.security_group_rule_id

  -- `drift`
  abbrev pub drift : Failure
  drift = invariant_error d.resource_type "Observe" d.changed_message
