-- ===== src/Models.antt =====
-- The comparison of desired and observed values in src/internal/observation.ts: `modelMatches` and
-- `jsonConfigMatches`. Values are those of JSON and `undefined`, with natural numbers; an object is
-- the list of its entries.
pub mod Agreement
pub mod Secrets
use alchemy_alibaba.Prelude.{
  ℕ, suc, zero, ◌+◌, String, Bool, true, false, ◌&&◌, ◌||◌, not, Option, none, some, str_eq,
  ◌==◌ as nat_eq, if◌then◌else◌,
}

mutual
  pub data Value : Type 0 where
    undefined null : Value
    bool : Bool → Value
    num : ℕ → Value
    text : String → Value
    array : Elements → Value
    dictionary : Properties → Value

  pub data Elements : Type 0 where
    no_element : Elements
    element : Value → Elements → Elements

  pub data Properties : Type 0 where
    no_property : Properties
    property : String → Value → Properties → Properties

-- What an SDK model says of a value: the fields of a class that has `types()`, the `itemType` of a
-- list, or neither, which is also what `undefined` says.
mutual
  pub data Model : Type 0 where
    plain : Model
    list_of : Model → Model
    class_of : ModelFields → Model

  pub data ModelFields : Type 0 where
    no_more : ModelFields
    model_field : String → Model → ModelFields → ModelFields

-- `model.itemType`
unfoldable pub item_type : Model → Model
item_type (list_of m) = m
item_type plain = plain
item_type (class_of fs) = plain

-- `fields?.[key]`
unfoldable pub field_model : String → ModelFields → Model
field_model k no_more = plain
field_model k (model_field j m rest) =
    let more = field_model k rest in if str_eq j k then m else more

-- `key in fields`
unfoldable pub has_field : String → ModelFields → Bool
has_field k no_more = false
has_field k (model_field j m rest) = str_eq j k || has_field k rest

abbrev pub model_at : String → Model → Model
model_at k plain = plain
model_at k (list_of m) = plain
model_at k (class_of fs) = field_model k fs

-- `fields !== undefined && !(key in fields)`
abbrev pub is_hidden : String → Model → Bool
is_hidden k plain = false
is_hidden k (list_of m) = false
is_hidden k (class_of fs) = not (has_field k fs)

unfoldable pub value_of : String → Properties → Value
value_of k no_property = undefined
value_of k (property j v rest) = let more = value_of k rest in if str_eq j k then v else more

-- `Predicate.isObject(observed) ? observed[key] : undefined`
abbrev pub get : String → Value → Value
get k (dictionary fs) = value_of k fs
get k undefined = undefined
get k null = undefined
get k (bool b) = undefined
get k (num n) = undefined
get k (text s) = undefined
get k (array vs) = undefined

-- `isDeepStrictEqual(observed, desired)` at a desired value that is no list and no object.
abbrev pub same_bool : Bool → Value → Bool
same_bool b (bool true) = b
same_bool b (bool false) = not b
same_bool b _ = false

abbrev pub same_num : ℕ → Value → Bool
same_num n (num m) = nat_eq m n
same_num n _ = false

abbrev pub same_text : String → Value → Bool
same_text s (text t) = str_eq t s
same_text s _ = false

abbrev pub is_null : Value → Bool
is_null null = true
is_null _ = false

abbrev pub items_of : Value → Option Elements
items_of (array vs) = some vs
items_of _ = none

-- `modelMatches`; the lists are compared item by item, and their lengths by the way.
unfoldable mutual
  pub model_matches : Value → Value → Model → Bool
  model_matches observed undefined m = true
  model_matches observed null m = is_null observed
  model_matches observed (bool b) m = same_bool b observed
  model_matches observed (num n) m = same_num n observed
  model_matches observed (text s) m = same_text s observed
  model_matches observed (array ds) m = list_matches (items_of observed) ds (item_type m)
  model_matches observed (dictionary fs) m = properties_match observed fs m

  pub list_matches : Option Elements → Elements → Model → Bool
  list_matches none ds m = false
  list_matches (some no_element) no_element m = true
  list_matches (some no_element) (element d ds) m = false
  list_matches (some (element o os)) no_element m = false
  list_matches (some (element o os)) (element d ds) m =
      model_matches o d m && list_matches (some os) ds m

  pub properties_match : Value → Properties → Model → Bool
  properties_match observed no_property m = true
  properties_match observed (property k v rest) m =
      (is_hidden k m || model_matches (get k observed) v (model_at k m))
      && properties_match observed rest m

-- The number of the entries.
abbrev count_properties : Properties → ℕ
count_properties no_property = 0
count_properties (property k v rest) = suc (count_properties rest)

unfoldable pub has_key : String → Properties → Bool
has_key k no_property = false
has_key k (property j v rest) = str_eq j k || has_key k rest

-- `isDeepStrictEqual`, of values whose objects have every key once: the order of keys is free.
unfoldable mutual
  pub deep_equal : Value → Value → Bool
  deep_equal undefined undefined = true
  deep_equal null null = true
  deep_equal (bool b) v = same_bool b v
  deep_equal (num n) v = same_num n v
  deep_equal (text s) v = same_text s v
  deep_equal (array vs) (array ws) = items_equal vs ws
  deep_equal (dictionary fs) (dictionary gs) =
      nat_eq (count_properties fs) (count_properties gs) && entries_equal fs gs
  deep_equal _ _ = false

  pub items_equal : Elements → Elements → Bool
  items_equal no_element no_element = true
  items_equal (element v vs) (element w ws) = deep_equal v w && items_equal vs ws
  items_equal _ _ = false

  pub entries_equal : Properties → Properties → Bool
  entries_equal no_property gs = true
  entries_equal (property k v rest) gs =
      has_key k gs && deep_equal v (value_of k gs) && entries_equal rest gs

abbrev parsed_equal : Option Value → Option Value → Bool
parsed_equal (some v) (some w) = deep_equal v w
parsed_equal _ _ = false

-- `jsonConfigMatches`; `parse` is `JSON.parse`, and `none` where that throws.
unfoldable pub json_config_matches : (String → Option Value) → Option String → Option String → Bool
unfolding deep_equal value_of has_key
json_config_matches parse observed none = true
json_config_matches parse none (some desired) = false
json_config_matches parse (some observed) (some desired) =
    if str_eq observed desired then true else parsed_equal (parse observed) (parse desired)
