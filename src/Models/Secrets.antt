-- ===== src/Models/Secrets.antt =====
-- `sdkInput` of src/internal/secret-input.ts: the inputs of a request, in which bootstrap secrets
-- are redacted, become the plain values of the request. An input is `undefined`, another plain
-- value, a redacted text, a list, or an object. `opened` is what the copy of a redacted value's own
-- entries gives, where no secret is expected.
pub mod Exposure
use alchemy_alibaba.Prelude.{
  String, Bool, true, false, ◌||◌, Option, none, some, str_eq, if◌then◌else◌, ◌≡◌, ◌↔◌, refl,
  Bool-cases, inl, inr, ◌⊎◌,
}
use alchemy_alibaba.Effect.{Result, ok, fail}
use alchemy_alibaba.Errors.{Failure}
use alchemy_alibaba.Lifecycle.Identity.{invariant_error}
use alchemy_alibaba.Models.{
  Value, undefined, text, array, dictionary, Elements, no_element, element, Properties, no_property,
  property,
}

mutual
  pub data Input : Type 0 where
    missing : Input
    scalar : Value → Input
    redacted : String → Input
    list : Inputs → Input
    object : Entries → Input

  pub data Inputs : Type 0 where
    no_more : Inputs
    item : Input → Inputs → Inputs

  pub data Entries : Type 0 where
    done : Entries
    entry : String → Input → Entries → Entries

-- `key === "loginPassword" || key === "userData"`
abbrev pub is_secret : String → Bool
is_secret key = str_eq key "loginPassword" || str_eq key "userData"

-- `Redacted.value`, of a value that is defined; `none` stands for the thrown error.
abbrev pub reveal : Input → Option Value
reveal missing = some undefined
reveal (redacted s) = some (text s)
reveal (scalar v) = none
reveal (list is) = none
reveal (object es) = none

abbrev pub secrets_refused : String → Failure
secrets_refused resource_type =
    invariant_error resource_type "ValidateSecrets"
      "ACK loginPassword and userData values must use Redacted.make"

module _ (opened : String → Value) where
  abbrev pub add_item : Option Value → Option Elements → Option Elements
  add_item none vs = none
  add_item (some v) none = none
  add_item (some v) (some vs) = some (element v vs)

  abbrev pub add_entry : String → Option Value → Option Properties → Option Properties
  add_entry k none fs = none
  add_entry k (some v) none = none
  add_entry k (some v) (some fs) = some (property k v fs)

  abbrev pub as_list : Option Elements → Option Value
  as_list none = none
  as_list (some vs) = some (array vs)

  abbrev pub as_dictionary : Option Properties → Option Value
  as_dictionary none = none
  as_dictionary (some fs) = some (dictionary fs)

  -- `visit`, of a value under no key of a secret.
  unfoldable mutual
    pub visit : Input → Option Value
    visit missing = some undefined
    visit (scalar v) = some v
    visit (redacted s) = some (opened s)
    visit (list is) = as_list (visit_items is)
    visit (object es) = as_dictionary (visit_entries es)

    pub visit_items : Inputs → Option Elements
    visit_items no_more = some no_element
    visit_items (item i is) = add_item (visit i) (visit_items is)

    pub visit_entries : Entries → Option Properties
    visit_entries done = some no_property
    visit_entries (entry k i es) =
        add_entry k (if is_secret k then reveal i else visit i) (visit_entries es)

  abbrev pub or_refuse : String → Option Value → Result Failure Value
  or_refuse resource_type none = fail (secrets_refused resource_type)
  or_refuse resource_type (some v) = ok v

  -- `sdkInput`
  unfoldable pub sdk_input : Input → String → Result Failure Value
  unfolding visit
  sdk_input input resource_type = or_refuse resource_type (visit input)
