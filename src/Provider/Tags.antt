-- ===== src/Provider/Tags.antt =====
-- Tags of resources: `tagList`, `tagRecord` of src/vpc/internal.ts, `desiredTags`, `userTags` of
-- src/internal/lifecycle.ts. A tag record is the list of its entries.
use alchemy_alibaba.Prelude.{
  String, List, [], ◌∷◌, map, Option, none, some, str_eq, eq_iff, if◌then◌else◌, ◌≡◌, refl, sym, ap,
  ◌∙◌, arith,
}
use alchemy_alibaba.Effect.{Effect, succeed, ok}
use alchemy_alibaba.Effect.Chain.{◌>>=◌}
use alchemy_alibaba.Errors.{Failure}
use alchemy_alibaba.Errors.Classify.{get_or, or_else}
use alchemy_alibaba.Lifecycle.Identity.Tags.{TagRecord, lookup, HasUniqueKeys}

-- A tag as the SDKs give it.
pub record SdkTag : Type 0 where
  pub key : Option String
  pub value : Option String

-- `record[key] = value`
unfoldable pub put_entry : String → String → TagRecord → TagRecord
put_entry k v [] = (k, v) ∷ []
put_entry k v ((j, w) ∷ rest) =
    let more = put_entry k v rest in if str_eq j k then (j, v) ∷ rest else (j, w) ∷ more

-- `{ ...first, ...second }`
unfoldable pub spread : TagRecord → TagRecord → TagRecord
unfolding put_entry
spread first [] = first
spread first ((k, v) ∷ second) = spread (put_entry k v first) second

-- `tagList`
abbrev pub tag_list : TagRecord → List SdkTag
tag_list tags = map (λ entry. record { key = some entry.0; value = some entry.1 }) tags

-- An entry of `Object.fromEntries`, unless a part of it is `undefined`.
abbrev put_pair : Option String → Option String → TagRecord → TagRecord
put_pair none v tags = tags
put_pair (some k) none tags = tags
put_pair (some k) (some v) tags = put_entry k v tags

unfoldable pub put_tags : TagRecord → List SdkTag → TagRecord
unfolding put_entry
put_tags tags [] = tags
put_tags tags (tag ∷ more) = put_tags (put_pair tag.key tag.value tags) more

-- `tagRecord`
unfoldable pub tag_record : Option (List SdkTag) → TagRecord
unfolding put_tags
tag_record tags = put_tags [] (get_or tags [])

module _ {W : Type 0} (create_internal_tags : String → Effect W Failure TagRecord) where
  -- `desiredTags`
  unfoldable pub desired_tags : String → Option TagRecord → Effect W Failure TagRecord
  unfolding spread
  desired_tags id tags =
      create_internal_tags id >>= λ internal. succeed (spread (spread [] (get_or tags [])) internal)

-- `userTags`, over Alchemy's `stripInternalTags`.
unfoldable pub user_tags : (TagRecord → TagRecord) → Option TagRecord → TagRecord
unfolding spread
user_tags strip_internal_tags tags = strip_internal_tags (spread [] (get_or tags []))

lookup-put_entry :
    (j k v : String) (m : TagRecord)
    → lookup j (put_entry k v m) ≡ (if str_eq k j then some v else lookup j m)
unfolding lookup put_entry
lookup-put_entry j k v [] = ground arith
lookup-put_entry j k v ((i, w) ∷ m) =
    ground (arith, lookup-put_entry j k v m, eq_iff i k, eq_iff i j, eq_iff k j)

put_entry-HasUniqueKeys :
    (k v : String) (m : TagRecord) → HasUniqueKeys m → HasUniqueKeys (put_entry k v m)
unfolding put_entry lookup
put_entry-HasUniqueKeys k v [] u = (refl, tt)
put_entry-HasUniqueKeys k v ((i, w) ∷ m) u =
    ground
      (arith, put_entry-HasUniqueKeys k v m u.1, lookup-put_entry i k v m, eq_iff i k, eq_iff k i)

put_pair-HasUniqueKeys :
    (key value : Option String) (m : TagRecord)
    → HasUniqueKeys m
    → HasUniqueKeys (put_pair key value m)
put_pair-HasUniqueKeys none v m u = u
put_pair-HasUniqueKeys (some k) none m u = u
put_pair-HasUniqueKeys (some k) (some v) m u = put_entry-HasUniqueKeys k v m u

put_tags-HasUniqueKeys :
    (m : TagRecord) (tags : List SdkTag) → HasUniqueKeys m → HasUniqueKeys (put_tags m tags)
unfolding put_tags
put_tags-HasUniqueKeys m [] u = u
put_tags-HasUniqueKeys m (tag ∷ tags) u =
    put_tags-HasUniqueKeys (put_pair tag.key tag.value m) tags
      (put_pair-HasUniqueKeys tag.key tag.value m u)

pub tag_record-HasUniqueKeys : (tags : Option (List SdkTag)) → HasUniqueKeys (tag_record tags)
unfolding tag_record
tag_record-HasUniqueKeys tags = put_tags-HasUniqueKeys [] (get_or tags []) tt

-- The value that a tag gives to a key: the tag has that key, and a value.
abbrev pub given_value : String → SdkTag → Option String
given_value k tag = elim tag.key [ none ↦ none | some j ↦ if str_eq j k then tag.value else none ]

-- The value of the last tag that gives one to a key.
abbrev pub last_value : String → List SdkTag → Option String
last_value k [] = none
last_value k (tag ∷ more) = or_else (last_value k more) (given_value k tag)

or_else_assoc : (a b d : Option String) → or_else (or_else a b) d ≡ or_else a (or_else b d)
or_else_assoc none b d = refl
or_else_assoc (some a) b d = refl

lookup-put_pair :
    (k : String) (key value : Option String) (m : TagRecord)
    → lookup k (put_pair key value m)
      ≡ or_else (given_value k (record { key = key; value = value })) (lookup k m)
lookup-put_pair k none value m = refl
lookup-put_pair k (some j) none m = ground arith
lookup-put_pair k (some j) (some v) m = ground (arith, lookup-put_entry k j v m)

lookup-put_tags :
    (k : String) (m : TagRecord) (tags : List SdkTag)
    → lookup k (put_tags m tags) ≡ or_else (last_value k tags) (lookup k m)
unfolding put_tags
lookup-put_tags k m [] = refl
lookup-put_tags k m (tag ∷ tags) =
    lookup-put_tags k (put_pair tag.key tag.value m) tags
    ∙ ap (or_else (last_value k tags)) (lookup-put_pair k tag.key tag.value m)
    ∙ sym (or_else_assoc (last_value k tags) (given_value k tag) (lookup k m))

or_else-none : {A : Type 0} (o : Option A) → or_else o none ≡ o
or_else-none none = refl
or_else-none (some a) = refl

-- Under every key, the record that `tagRecord` builds holds the value of the last tag of the
-- response that has this key and a value, and it holds nothing under a key that no such tag has. A
-- missing list is an empty one.
pub tag_record-lookup :
    (k : String) (tags : Option (List SdkTag))
    → lookup k (tag_record tags) ≡ last_value k (get_or tags [])
unfolding tag_record lookup
tag_record-lookup k tags =
    lookup-put_tags k [] (get_or tags []) ∙ or_else-none (last_value k (get_or tags []))

spread-HasUniqueKeys :
    (first second : TagRecord) → HasUniqueKeys first → HasUniqueKeys (spread first second)
unfolding spread
spread-HasUniqueKeys first [] u = u
spread-HasUniqueKeys first ((k, v) ∷ second) u =
    spread-HasUniqueKeys (put_entry k v first) second (put_entry-HasUniqueKeys k v first u)

lookup-spread :
    (k : String) (first second : TagRecord)
    → HasUniqueKeys second
    → lookup k (spread first second) ≡ or_else (lookup k second) (lookup k first)
unfolding spread lookup
lookup-spread k first [] u = refl
lookup-spread k first ((i, v) ∷ second) u = ground (
  arith,
  lookup-spread k (put_entry i v first) second u.1,
  lookup-put_entry k i v first,
  eq_iff i k,
  u.0,
)

lookup-desired :
    (k : String) (tags internal : TagRecord)
    → HasUniqueKeys tags
    → HasUniqueKeys internal
    → lookup k (spread (spread [] tags) internal) ≡ or_else (lookup k internal) (lookup k tags)
unfolding lookup
lookup-desired k tags internal p q =
    rw
      (
        lookup-spread k (spread [] tags) internal q,
        lookup-spread k [] tags p,
        or_else-none (lookup k tags),
      )
      refl

module _ {W : Type 0} (create_internal_tags : String → Effect W Failure TagRecord) where
  -- What the tags that `desiredTags` returns say, if the tags of the caller and those that
  -- Alchemy creates have different keys each: every key has Alchemy's value, where Alchemy has one,
  -- and the caller's value otherwise, and no key stands twice.
  pub desired_tags-lookup :
      (id : String) (tags internal : TagRecord) (s u : W)
      → create_internal_tags id s ≡ (ok internal, u)
      → HasUniqueKeys tags
      → HasUniqueKeys internal
      → (wanted : TagRecord) × (desired_tags create_internal_tags id (some tags) s ≡ (ok wanted, u))
        × HasUniqueKeys wanted
        × ((k : String) → lookup k wanted ≡ or_else (lookup k internal) (lookup k tags))
  unfolding desired_tags ◌>>=◌
  desired_tags-lookup id tags internal s u e p q = (
    spread (spread [] tags) internal,
    rw e refl,
    spread-HasUniqueKeys (spread [] tags) internal (spread-HasUniqueKeys [] tags tt),
    λ k. lookup-desired k tags internal p q,
  )
