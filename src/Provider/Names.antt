-- ===== src/Provider/Names.antt =====
-- `accountName` of src/internal/lifecycle.ts, `validateDesiredInput` of src/internal/desired-input.ts and
-- `modelFields` of src/internal/model-input.ts. The hash is a parameter.
use Prim.Native.Char.{Char}
use alchemy_alibaba.Prelude.{
  ℕ, zero, suc, ◌≤◌, ◌≡◌, refl, String, Bool, not, ◌&&◌, List, [], ◌∷◌, Option, none, some, str_eq,
  any, filter, if◌then◌else◌, arith,
}
use alchemy_alibaba.Effect.{ok, Effect, succeed, raise, ok_injective}
use alchemy_alibaba.Effect.Chain.{◌>>=◌, chain-steps}
use alchemy_alibaba.Errors.{Failure}
use alchemy_alibaba.Lifecycle.Identity.{physical_name, invariant_error}
use alchemy_alibaba.Lifecycle.Identity.Tags.{TagRecord}

abbrev pub text_length : String → ℕ
text_length String.[] = 0
text_length (String.◌∷◌ c s) = suc (text_length s)

-- `text.slice(0, n)`
abbrev pub take_text : ℕ → String → String
take_text zero s = ""
take_text (suc n) String.[] = ""
take_text (suc n) (String.◌∷◌ c s) = String.◌∷◌ c (take_text n s)

module _ {W : Type 0} (create_physical_name : String → ℕ → Effect W Failure String)
    (sha256_hex : String → String) where
  -- `accountName`
  unfoldable pub account_name : String → Option String → ℕ → Effect W Failure String
  account_name id (some requested) max_length = succeed requested
  account_name id none max_length = physical_name create_physical_name id none 100 >>= λ identity.
      succeed (take_text max_length (String.◌∷◌ "a" (sha256_hex identity)))

abbrev pub request_bags : List String
request_bags = "create" ∷ "modify" ∷ "spec" ∷ "upgrade" ∷ []

module _ {W : Type 0} where
  -- `validateDesiredInput`, of the fields that the inputs define.
  unfoldable pub validate_desired_input : TagRecord → String → Effect W Failure (Unit {0})
  validate_desired_input props resource_type =
      if any (λ entry. any (str_eq entry.0) request_bags) props
      then raise (
          invariant_error resource_type "ValidateInput"
            "Use desired properties directly on the resource; create, modify, spec and upgrade request bags are not supported")
      else succeed tt

-- `modelFields`: `in_model` says whether the request has a field of the name.
unfoldable pub model_fields : (String → Bool) → List String → TagRecord → TagRecord
model_fields in_model excluded props =
    filter (λ entry. in_model entry.0 && not (any (str_eq entry.0) excluded)) props

text_length-take_text : (n : ℕ) (s : String) → text_length (take_text n s) ≤ n
text_length-take_text zero s = omega arith
text_length-take_text (suc n) String.[] = omega arith
text_length-take_text (suc n) (String.◌∷◌ c s) = omega (arith, text_length-take_text n s)

take_text-one :
    (n : ℕ) (c : Char) (s : String)
    → 1 ≤ n
    → take_text 1 (take_text n (String.◌∷◌ c s)) ≡ String.◌∷◌ c ""
take_text-one zero c s h = absurd (omega arith)
take_text-one (suc n) c s h = refl

module _ {W : Type 0} (create_physical_name : String → ℕ → Effect W Failure String)
    (sha256_hex : String → String) where
  -- A name that `accountName` generates for a bound of at least 1 is no longer than the bound and
  -- starts with the letter `a`.
  pub account_name-bounded :
      (id : String) (max_length : ℕ) (s u : W) (name : String)
      → 1 ≤ max_length
      → account_name create_physical_name sha256_hex id none max_length s ≡ (ok name, u)
      → (text_length name ≤ max_length) × (take_text 1 name ≡ "a")
  unfolding account_name
  account_name-bounded id max_length s u name p h =
      let (identity, t, after, _) =
        chain-steps (physical_name create_physical_name id none 100) _ s h in
      let e = (ok_injective after).0 in
      rw (← e) (
        text_length-take_text max_length (String.◌∷◌ "a" (sha256_hex identity)),
        take_text-one max_length "a" (sha256_hex identity) p,
      )
