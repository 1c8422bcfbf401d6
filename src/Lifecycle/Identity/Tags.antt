-- ===== src/Lifecycle/Identity/Tags.antt =====
-- `tagsEqual` of src/internal/lifecycle.ts. A tag record is the list of its entries, whose keys
-- are different from each other.
use alchemy_alibaba.Prelude.{
  suc, String, Bool, true, false, ◌&&◌, List, [], ◌∷◌, Option, none, some, str_eq, eq_iff,
  if◌then◌else◌, length, all, ◌==◌, ◌≡◌, ◌↔◌, refl, ap, arith,
}

abbrev pub TagRecord : Type 0
TagRecord = List (String × String)

unfoldable pub lookup : String → TagRecord → Option String
lookup k [] = none
lookup k ((j, v) ∷ rest) = if str_eq j k then some v else lookup k rest

-- The keys of the record are different from each other.
abbrev pub HasUniqueKeys : TagRecord → Type 0
HasUniqueKeys [] = Unit
HasUniqueKeys ((k, v) ∷ rest) = (lookup k rest ≡ none) × HasUniqueKeys rest

-- `undefined` is no text.
abbrev pub same_value : Option String → String → Bool
same_value none value = false
same_value (some v) value = str_eq v value

-- `right[key] === value`
abbrev pub holds : TagRecord → String × String → Bool
holds right (key, value) = same_value (lookup key right) value

unfoldable pub tags_equal : TagRecord → TagRecord → Bool
unfolding lookup
tags_equal left right = length left == length right && all (holds right) left

-- The record without one key.
without : String → TagRecord → TagRecord
without k [] = []
without k ((j, v) ∷ rest) = let less = without k rest in if str_eq j k then less else (j, v) ∷ less

lookup-without :
    (k j : String) (m : TagRecord)
    → lookup j (without k m) ≡ (if str_eq k j then none else lookup j m)
unfolding lookup without
lookup-without k j [] = ground arith
lookup-without k j ((i, v) ∷ m) =
    ground (arith, lookup-without k j m, eq_iff i k, eq_iff i j, eq_iff k j)

without_absent : (k : String) (m : TagRecord) → lookup k m ≡ none → without k m ≡ m
unfolding lookup without
without_absent k [] h = refl
without_absent k ((i, v) ∷ m) h = ground (arith, without_absent k m)

length-without :
    (k v : String) (m : TagRecord)
    → HasUniqueKeys m
    → lookup k m ≡ some v
    → length m ≡ suc (length (without k m))
unfolding lookup without
length-without k v [] u h = cc
length-without k v ((i, w) ∷ m) u h =
    ground (arith, length-without k v m u.1, eq_iff i k, without_absent i m u.0)

without-HasUniqueKeys : (k : String) (m : TagRecord) → HasUniqueKeys m → HasUniqueKeys (without k m)
unfolding without
without-HasUniqueKeys k [] u = tt
without-HasUniqueKeys k ((i, v) ∷ m) u =
    ground (arith, without-HasUniqueKeys k m u.1, lookup-without k i m)

same_value_iff : (o : Option String) (v : String) → (same_value o v ≡ true) ↔ (o ≡ some v)
same_value_iff none v = ((λ h. cc), (λ h. cc))
same_value_iff (some w) v = ((λ h. ap some ((eq_iff w v).0 h)), (λ h. (eq_iff w v).1 (cc)))

all-holds-without :
    (k : String) (right l : TagRecord)
    → lookup k l ≡ none
    → all (holds right) l ≡ true
    → all (holds (without k right)) l ≡ true
unfolding lookup
all-holds-without k right [] h a = refl
all-holds-without k right ((i, v) ∷ l) h a =
    ground (arith, all-holds-without k right l, lookup-without k i right, eq_iff k i, eq_iff i k)

-- Equally many entries, each of which the other record holds: the same lookups.
same-lookups :
    (left right : TagRecord) (k : String)
    → HasUniqueKeys left
    → HasUniqueKeys right
    → length left ≡ length right
    → all (holds right) left ≡ true
    → lookup k left ≡ lookup k right
unfolding lookup
same-lookups [] [] k u w e a = refl
same-lookups [] (x ∷ right) k u w e a = absurd (omega arith)
same-lookups ((i, v) ∷ l) right k u w e a =
    let first : lookup i right ≡ some v = (same_value_iff (lookup i right) v).0 (ground arith) in
    let rest =
      same-lookups l (without i right) k u.1 (without-HasUniqueKeys i right w)
        (omega (arith, length-without i v right w first))
        (all-holds-without i right l u.0 (ground arith)) in
    ground (arith, lookup-without i k right, eq_iff i k)

-- The other direction, entry by entry.
all-holds_of_lookups :
    (left right : TagRecord)
    → HasUniqueKeys left
    → ((k v : String) → lookup k left ≡ some v → lookup k right ≡ some v)
    → all (holds right) left ≡ true
unfolding lookup
all-holds_of_lookups [] right u h = refl
all-holds_of_lookups ((i, v) ∷ l) right u h =
    let first = (same_value_iff (lookup i right) v).1 (h i v (ground (arith, eq_iff i i))) in
    let rest =
      all-holds_of_lookups l right u.1 (λ k w e. h k w (ground (arith, eq_iff i k, u.0))) in
    rw (first, rest)

length-eq_of_lookups :
    (left right : TagRecord)
    → HasUniqueKeys left
    → HasUniqueKeys right
    → ((k : String) → lookup k left ≡ lookup k right)
    → length left ≡ length right
unfolding lookup
length-eq_of_lookups [] [] u w h = refl
length-eq_of_lookups [] ((i, v) ∷ right) u w h = absurd (ground (arith, h i, eq_iff i i))
length-eq_of_lookups ((i, v) ∷ l) right u w h =
    let first : lookup i right ≡ some v = ground (arith, h i, eq_iff i i) in
    omega (
      arith,
      length-without i v right w first,
      length-eq_of_lookups l (without i right) u.1 (without-HasUniqueKeys i right w)
          (λ k. ground (arith, h k, lookup-without i k right, eq_iff i k, u.0)),
    )

-- Two tag records with unique keys are equal for `tagsEqual` exactly when every key has the same
-- value, or none, in both.
pub tags_equal_iff :
    (left right : TagRecord)
    → HasUniqueKeys left
    → HasUniqueKeys right
    → (tags_equal left right ≡ true) ↔ ((k : String) → lookup k left ≡ lookup k right)
unfolding tags_equal
tags_equal_iff left right u w = (
  λ e k. same-lookups left right k u w (ground arith) (ground arith),
  λ h.
      rw
        (
          length-eq_of_lookups left right u w h,
          all-holds_of_lookups left right u (λ k v e. rw (← h k) e),
        )
        (ground arith),
)
