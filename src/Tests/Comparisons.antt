-- ===== src/Tests/Comparisons.antt =====
-- Desired and observed values, and inputs with secrets.
use alchemy_alibaba.Prelude.{◌≡◌, ◌↔◌, refl, true, String, Option, some}
use alchemy_alibaba.Effect.{ok, fail}
use alchemy_alibaba.Models.{
  Value, undefined, num, text, array, dictionary, no_element, element, no_property, property, Model,
  plain, list_of, class_of, no_more, model_field, has_field, value_of, model_matches,
  json_config_matches,
}
use alchemy_alibaba.Models.Agreement.{AgreesEverywhere, model_matches_iff}
use alchemy_alibaba.Models.Secrets.{
  Input, scalar, redacted, object, done, entry, secrets_refused, sdk_input,
}
use alchemy_alibaba.Models.Secrets.Exposure.{Exposed, sdk_input-iff_Exposed}

abbrev pool_model : Model
pool_model = class_of (model_field "zones" (list_of plain) (model_field "size" plain no_more))

abbrev wanted : Value
wanted = dictionary (
    property "size" (num 3) (
      property "zones" (array (element (text "a") no_element))
        (property "private_note" (text "x") no_property)))

abbrev seen : Value
seen = dictionary (
    property "zones" (array (element (text "a") no_element))
      (property "size" (num 3) (property "state" (text "ok") no_property)))

model_matches_iff_example :
    (model_matches seen wanted pool_model ≡ true) ↔ AgreesEverywhere seen wanted pool_model
model_matches_iff_example = model_matches_iff seen wanted pool_model

pool_matches : model_matches seen wanted pool_model ≡ true
unfolding model_matches has_field value_of
pool_matches = refl

abbrev parse : String → Option Value
parse s = some (dictionary (property "a" (num 1) (property "b" (num 2) no_property)))

json_equal : json_config_matches parse (some "one") (some "other") ≡ true
unfolding json_config_matches
json_equal = refl

abbrev opened : String → Value
opened s = undefined

abbrev bootstrap : Input
bootstrap =
    object (entry "nodes" (object (entry "loginPassword" (scalar (text "hunter2")) done)) done)

sdk_input-iff_Exposed_example :
    (sdk_input opened bootstrap "Alibaba.ACK.NodePool"
      ≡ fail (secrets_refused "Alibaba.ACK.NodePool"))
    ↔ Exposed bootstrap
sdk_input-iff_Exposed_example = sdk_input-iff_Exposed opened bootstrap "Alibaba.ACK.NodePool"

revealed :
    sdk_input opened
      (object (entry "loginPassword" (redacted "hunter2") done))
      "Alibaba.ACK.NodePool"
    ≡ ok (dictionary (property "loginPassword" (text "hunter2") no_property))
unfolding sdk_input
revealed = refl
