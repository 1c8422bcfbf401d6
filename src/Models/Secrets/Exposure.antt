-- ===== src/Models/Secrets/Exposure.antt =====
-- When `sdkInput` of src/internal/secret-input.ts refuses an input.
use alchemy_alibaba.Prelude.{
  String, true, false, Option, none, some, if◌then◌else◌, ◌≡◌, ◌↔◌, refl, Bool-cases, inl, inr, ◌⊎◌,
}
use alchemy_alibaba.Effect.{fail}
use alchemy_alibaba.Models.{Value, Elements, Properties}
use alchemy_alibaba.Models.Secrets.{
  Input, missing, scalar, redacted, list, object, Inputs, no_more, item, Entries, done, entry,
  is_secret, reveal, secrets_refused, add_item, add_entry, as_list, as_dictionary, or_refuse, visit,
  visit_items, visit_entries, sdk_input,
}

-- A member of a list and an entry of an object.
pub data ItemOf (i : Input) : Inputs → Type 0 where
  here : {is : Inputs} → ItemOf i (item i is)
  later : {j : Input} {is : Inputs} → ItemOf i is → ItemOf i (item j is)

pub data EntryOf (k : String) (i : Input) : Entries → Type 0 where
  here : {es : Entries} → EntryOf k i (entry k i es)
  later : {l : String} {j : Input} {es : Entries} → EntryOf k i es → EntryOf k i (entry l j es)

-- A value that is neither redacted nor `undefined`.
abbrev pub IsBare : Input → Type 0
IsBare missing = ⊥
IsBare (redacted s) = ⊥
IsBare (scalar v) = Unit
IsBare (list is) = Unit
IsBare (object es) = Unit

-- Somewhere in the lists and objects of an input, and below no secret, a secret is not redacted.
pub data Exposed : Input → Type 0 where
  in_item : {i : Input} {is : Inputs} → ItemOf i is → Exposed i → Exposed (list is)
  in_entry :
      {k : String} {i : Input} {es : Entries}
      → EntryOf k i es
      → is_secret k ≡ false
      → Exposed i
      → Exposed (object es)
  bare :
      {k : String} {i : Input} {es : Entries}
      → EntryOf k i es
      → is_secret k ≡ true
      → IsBare i
      → Exposed (object es)

IsBare-reveal : (i : Input) → IsBare i → reveal i ≡ none
IsBare-reveal missing b = elim b [ ]
IsBare-reveal (redacted s) b = elim b [ ]
IsBare-reveal (scalar v) b = refl
IsBare-reveal (list is) b = refl
IsBare-reveal (object es) b = refl

reveal-IsBare : (i : Input) → reveal i ≡ none → IsBare i
reveal-IsBare missing h = cc
reveal-IsBare (redacted s) h = cc
reveal-IsBare (scalar v) h = tt
reveal-IsBare (list is) h = tt
reveal-IsBare (object es) h = tt

module _ (opened : String → Value) where
  add_item-none : (v : Option Value) → add_item opened v none ≡ none
  add_item-none none = refl
  add_item-none (some v) = refl

  add_entry-none : (k : String) (v : Option Value) → add_entry opened k v none ≡ none
  add_entry-none k none = refl
  add_entry-none k (some v) = refl

  ItemOf-refused :
      {i : Input} {is : Inputs} → ItemOf i is → visit opened i ≡ none → visit_items opened is ≡ none
  unfolding visit_items
  ItemOf-refused here h = rw h refl
  ItemOf-refused (later {j} m) h = rw (ItemOf-refused m h) (add_item-none (visit opened j))

  EntryOf-refused :
      {k : String} {i : Input} {es : Entries}
      → EntryOf k i es
      → (if is_secret k then reveal i else visit opened i) ≡ none
      → visit_entries opened es ≡ none
  unfolding visit_entries
  EntryOf-refused here h = rw h refl
  EntryOf-refused (later {l} {j} m) h =
      rw (EntryOf-refused m h) (add_entry-none l (if is_secret l then reveal j else visit opened j))

  Exposed-visit : {i : Input} → Exposed i → visit opened i ≡ none
  unfolding visit
  Exposed-visit (in_item m x) = rw (ItemOf-refused m (Exposed-visit x)) refl
  Exposed-visit (in_entry m plain x) = rw (EntryOf-refused m (rw plain (Exposed-visit x))) refl
  Exposed-visit (bare {i = i} m secret b) =
      rw (EntryOf-refused m (rw secret (IsBare-reveal i b))) refl

  none_items :
      (v : Option Value) (vs : Option Elements)
      → add_item opened v vs ≡ none
      → (v ≡ none) ⊎ (vs ≡ none)
  none_items none vs h = inl refl
  none_items (some v) none h = inr refl
  none_items (some v) (some vs) h = cc

  none_entries :
      (k : String) (v : Option Value) (fs : Option Properties)
      → add_entry opened k v fs ≡ none
      → (v ≡ none) ⊎ (fs ≡ none)
  none_entries k none fs h = inl refl
  none_entries k (some v) none h = inr refl
  none_entries k (some v) (some fs) h = cc

  as_list-none : (vs : Option Elements) → as_list opened vs ≡ none → vs ≡ none
  as_list-none none h = refl
  as_list-none (some vs) h = cc

  as_dictionary-none : (fs : Option Properties) → as_dictionary opened fs ≡ none → fs ≡ none
  as_dictionary-none none h = refl
  as_dictionary-none (some fs) h = cc

  mutual
    unfolding visit visit_items visit_entries

    visit-Exposed : (i : Input) → visit opened i ≡ none → Exposed i
    visit-Exposed missing h = cc
    visit-Exposed (scalar v) h = cc
    visit-Exposed (redacted s) h = cc
    visit-Exposed (list is) h =
        let (i, m, x) = visit_items-Exposed is (as_list-none (visit_items opened is) h) in
        in_item m x
    visit-Exposed (object es) h =
        elim (visit_entries-Exposed es (as_dictionary-none (visit_entries opened es) h)) [
          | inl (k, i, m, plain, x) ↦ in_entry m plain x
          | inr (k, i, m, secret, b) ↦ bare m secret b
        ]

    visit_items-Exposed :
        (is : Inputs) → visit_items opened is ≡ none → (i : Input) × ItemOf i is × Exposed i
    visit_items-Exposed no_more h = cc
    visit_items-Exposed (item i is) h =
        elim (none_items (visit opened i) (visit_items opened is) h) [
          | inl now ↦ (i, here, visit-Exposed i now)
          | inr more ↦ let (j, m, x) = visit_items-Exposed is more in (j, later m, x)
        ]

    visit_entries-Exposed :
        (es : Entries)
        → visit_entries opened es ≡ none
        → ((k : String) × (i : Input) × EntryOf k i es × (is_secret k ≡ false) × Exposed i)
          ⊎ ((k : String) × (i : Input) × EntryOf k i es × (is_secret k ≡ true) × IsBare i)
    visit_entries-Exposed done h = cc
    visit_entries-Exposed (entry k i es) h =
        elim (none_entries k (if is_secret k then reveal i else visit opened i)
          (visit_entries opened es) h) [
            | inl now ↦ elim (Bool-cases (is_secret k)) [
              | inl secret ↦ inr (k, i, here, secret, reveal-IsBare i (rw secret at now))
              | inr plain ↦ inl (k, i, here, plain, visit-Exposed i (rw plain at now))
            ]
            | inr more ↦ elim (visit_entries-Exposed es more) [
              | inl (j, x, m, plain, e) ↦ inl (j, x, later m, plain, e)
              | inr (j, x, m, secret, b) ↦ inr (j, x, later m, secret, b)
            ]
          ]

  refused-none :
      (resource_type : String) (v : Option Value)
      → or_refuse opened resource_type v ≡ fail (secrets_refused resource_type)
      → v ≡ none
  refused-none resource_type none h = refl
  refused-none resource_type (some v) h = cc

  -- `sdkInput` fails exactly when a secret somewhere in the lists and objects of the input, below no
  -- other secret, is neither redacted nor `undefined`; the error is the same for every such input,
  -- so that it shows nothing of it.
  pub sdk_input-iff_Exposed :
      (input : Input) (resource_type : String)
      → (sdk_input opened input resource_type ≡ fail (secrets_refused resource_type))
        ↔ Exposed input
  unfolding sdk_input
  sdk_input-iff_Exposed input resource_type = (
    λ h. visit-Exposed input (refused-none resource_type (visit opened input) h),
    λ x. rw (Exposed-visit x) refl,
  )
