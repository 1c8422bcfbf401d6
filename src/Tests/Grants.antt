-- ===== src/Tests/Grants.antt =====
-- Quoting, the verification of an account, and generated passwords.
use Prim.Native.String.{◌++◌ as ◌<>◌}
use alchemy_alibaba.Prelude.{
  ◌≡◌, ◌↔◌, true, false, List, [], ◌∷◌, some, str_eq, if◌then◌else◌, length, ◌*◌, arith,
}
use alchemy_alibaba.Gateway.Onboard.Password.{generate_password}
use alchemy_alibaba.Gateway.Onboard.Password.Classes.{count_of, generate_password-Balanced}
use alchemy_alibaba.Gateway.Grants.{
  GrantOptions, Row, text, flag, interpret_verification, quote_literal, quote_identifier,
  single_quote, double_quote,
}
use alchemy_alibaba.Gateway.Grants.Quoting.{opens, read_quoted, read_quoted-quote}
use alchemy_alibaba.Gateway.Grants.Verification.{ReadOnly, FutureTables, interpret_verification_iff}

read_quoted-quote_example :
    (opens single_quote ", 'b'" ≡ false
      → read_quoted single_quote (quote_literal "a'); --" <> ", 'b'") ≡ some ("a'); --", ", 'b'"))
    × (opens double_quote ", 'b'" ≡ false
        → read_quoted double_quote (quote_identifier "a'); --" <> ", 'b'")
          ≡ some ("a'); --", ", 'b'"))
read_quoted-quote_example = read_quoted-quote "a'); --" ", 'b'"

abbrev options : GrantOptions
options = record {
  database = "odin";
  account = "gateway_ro";
  schemas = "public" ∷ [];
  owner_roles = [];
}

abbrev pub good_row : Row
good_row key =
    if str_eq key "database"
    then text "odin"
    else if str_eq key "username"
    then text "gateway_ro"
    else if str_eq key "read_only"
    then text "on"
    else if str_eq key "schema_usage"
    then flag true
    else if str_eq key "can_read_all"
    then flag true
    else flag false

interpret_verification_iff_example :
    ((interpret_verification options (good_row ∷ []) []).verified ≡ true) ↔ (
      (row : Row) × (more : List Row) × ((good_row ∷ []) ≡ row ∷ more)
      × ReadOnly options row
      × FutureTables options [])
interpret_verification_iff_example = interpret_verification_iff options (good_row ∷ []) []

generate_password-Balanced_example :
    (length (generate_password (λ n. n * 7)) ≡ 24)
    × (count_of 2 (generate_password (λ n. n * 7)) ≡ 6)
generate_password-Balanced_example = generate_password-Balanced (λ n. n * 7) 2 (omega arith)
