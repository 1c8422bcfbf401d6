-- ===== src/Models/Agreement.antt =====
-- What `modelMatches` of src/internal/observation.ts compares, path by path.
use alchemy_alibaba.Prelude.{
  ℕ, suc, zero, String, Bool, true, false, ◌&&◌, ◌||◌, Option, none, some, ◌≡◌, ◌↔◌, refl, ap,
  arith, List, [], ◌∷◌, ==_iff, eq_iff, Bool-cases, inl, inr,
}
use alchemy_alibaba.Models.{
  Value, undefined, null, bool, num, text, array, dictionary, Elements, no_element, element,
  Properties, no_property, property, Model, item_type, same_bool, same_num, same_text, is_null,
  model_at, is_hidden, get, items_of, model_matches, list_matches, properties_match,
}

-- A way into a value: through a key of an object or a place of a list.
pub data Step : Type 0 where
  key : String → Step
  index : ℕ → Step

abbrev pub place : ℕ → Elements → Value
place i no_element = undefined
place zero (element v vs) = v
place (suc i) (element v vs) = place i vs

abbrev pub item_of : ℕ → Option Elements → Value
item_of i none = undefined
item_of i (some vs) = place i vs

-- What a value shows at the end of a path, and `undefined` where the path leads out of it.
abbrev pub shown : Value → List Step → Value
shown v [] = v
shown v (key k ∷ p) = shown (get k v) p
shown v (index i ∷ p) = shown (item_of i (items_of v)) p

-- An entry of an object.
pub data Entry (k : String) (v : Value) : Properties → Type 0 where
  here : {rest : Properties} → Entry k v (property k v rest)
  later :
      {j : String} {w : Value} {rest : Properties} → Entry k v rest → Entry k v (property j w rest)

-- The item at a place of a list.
pub data ItemAt (v : Value) : ℕ → Elements → Type 0 where
  first : {vs : Elements} → ItemAt v zero (element v vs)
  next : {i : ℕ} {w : Value} {vs : Elements} → ItemAt v i vs → ItemAt v (suc i) (element w vs)

-- A desired value asks for `x` at the end of a path: the path follows its lists and those entries
-- of its objects whose keys the read model has.
pub data Requested : Value → Model → List Step → Value → Type 0 where
  itself : {x : Value} {m : Model} → Requested x m [] x
  in_list :
      {ds : Elements} {m : Model} {i : ℕ} {v : Value} {p : List Step} {x : Value}
      → ItemAt v i ds
      → Requested v (item_type m) p x
      → Requested (array ds) m (index i ∷ p) x
  in_entry :
      {fs : Properties} {m : Model} {k : String} {v : Value} {p : List Step} {x : Value}
      → Entry k v fs
      → is_hidden k m ≡ false
      → Requested v (model_at k m) p x
      → Requested (dictionary fs) m (key k ∷ p) x

abbrev pub SameLength : Elements → Elements → Type 0
SameLength no_element no_element = Unit
SameLength no_element (element d ds) = ⊥
SameLength (element o os) no_element = ⊥
SameLength (element o os) (element d ds) = SameLength os ds

abbrev pub AsLongAs : Elements → Option Elements → Type 0
AsLongAs ds none = ⊥
AsLongAs ds (some os) = SameLength os ds

-- What the observed value has to be where the desired one asks for `x`: anything, for `undefined`
-- and for an object; a list of the same length, for a list; and `x` itself otherwise.
abbrev pub Agrees : Value → Value → Type 0
Agrees observed undefined = Unit
Agrees observed null = observed ≡ null
Agrees observed (bool b) = observed ≡ bool b
Agrees observed (num n) = observed ≡ num n
Agrees observed (text s) = observed ≡ text s
Agrees observed (array ds) = AsLongAs ds (items_of observed)
Agrees observed (dictionary fs) = Unit

abbrev pub AgreesEverywhere : Value → Value → Model → Type 0
AgreesEverywhere observed desired m =
    (p : List Step) (x : Value) → Requested desired m p x → Agrees (shown observed p) x

split_and : (a b : Bool) → (a && b) ≡ true → (a ≡ true) × (b ≡ true)
split_and a b h = ground arith

unhidden : (a b : Bool) → a ≡ false → (a || b) ≡ true → b ≡ true
unhidden a b e h = ground arith

matches-ItemAt :
    (m : Model) {v : Value} {i : ℕ} {ds : Elements} (os : Option Elements)
    → list_matches os ds m ≡ true
    → ItemAt v i ds
    → model_matches (item_of i os) v m ≡ true
unfolding list_matches
matches-ItemAt m none h at = cc
matches-ItemAt m (some no_element) h first = cc
matches-ItemAt m (some no_element) h (next at) = cc
matches-ItemAt m (some (element o os)) h first = (split_and _ _ h).0
matches-ItemAt m (some (element o os)) h (next at) =
    matches-ItemAt m (some os) (split_and _ _ h).1 at

matches-Entry :
    (observed : Value) (m : Model) {k : String} {v : Value} {fs : Properties}
    → properties_match observed fs m ≡ true
    → Entry k v fs
    → is_hidden k m ≡ false
    → model_matches (get k observed) v (model_at k m) ≡ true
unfolding properties_match
matches-Entry observed m h here seen = unhidden _ _ seen (split_and _ _ h).0
matches-Entry observed m h (later e) seen = matches-Entry observed m (split_and _ _ h).1 e seen

AsLongAs-list_matches :
    (os : Option Elements) (ds : Elements) (m : Model)
    → list_matches os ds m ≡ true
    → AsLongAs ds os
unfolding list_matches
AsLongAs-list_matches none ds m h = cc
AsLongAs-list_matches (some no_element) no_element m h = tt
AsLongAs-list_matches (some no_element) (element d ds) m h = cc
AsLongAs-list_matches (some (element o os)) no_element m h = cc
AsLongAs-list_matches (some (element o os)) (element d ds) m h =
    AsLongAs-list_matches (some os) ds m (split_and _ _ h).1

bool_of : (b : Bool) (observed : Value) → same_bool b observed ≡ true → observed ≡ bool b
bool_of true (bool true) h = refl
bool_of false (bool false) h = refl
bool_of b observed h = cc

num_of : (n : ℕ) (observed : Value) → same_num n observed ≡ true → observed ≡ num n
num_of n (num k) h = ap num ((==_iff k n).0 h)
num_of n observed h = cc

text_of : (s : String) (observed : Value) → same_text s observed ≡ true → observed ≡ text s
text_of s (text t) h = ap text ((eq_iff t s).0 h)
text_of s observed h = cc

null_of : (observed : Value) → is_null observed ≡ true → observed ≡ null
null_of null h = refl
null_of observed h = cc

Agrees-itself :
    (observed desired : Value) (m : Model)
    → model_matches observed desired m ≡ true
    → Agrees observed desired
unfolding model_matches
Agrees-itself observed undefined m h = tt
Agrees-itself observed null m h = null_of observed h
Agrees-itself observed (bool b) m h = bool_of b observed h
Agrees-itself observed (num n) m h = num_of n observed h
Agrees-itself observed (text s) m h = text_of s observed h
Agrees-itself observed (array ds) m h = AsLongAs-list_matches (items_of observed) ds (item_type m) h
Agrees-itself observed (dictionary fs) m h = tt

Agrees-Requested :
    {desired : Value} {m : Model} {p : List Step} {x : Value} (observed : Value)
    → Requested desired m p x
    → model_matches observed desired m ≡ true
    → Agrees (shown observed p) x
unfolding model_matches
Agrees-Requested {desired} {m} observed itself h = Agrees-itself observed desired m h
Agrees-Requested {m = m} observed (in_list {i = i} at r) h =
    Agrees-Requested (item_of i (items_of observed)) r
      (matches-ItemAt (item_type m) (items_of observed) h at)
Agrees-Requested {m = m} observed (in_entry {k = k} e seen r) h =
    Agrees-Requested (get k observed) r (matches-Entry observed m h e seen)

same_bool_self : (b : Bool) → same_bool b (bool b) ≡ true
same_bool_self true = refl
same_bool_self false = refl

mutual
  unfolding model_matches list_matches properties_match

  matches_of :
      (desired observed : Value) (m : Model)
      → AgreesEverywhere observed desired m
      → model_matches observed desired m ≡ true
  matches_of undefined observed m all = refl
  matches_of null observed m all = rw (all [] null itself) refl
  matches_of (bool b) observed m all = rw (all [] (bool b) itself) (same_bool_self b)
  matches_of (num n) observed m all = rw (all [] (num n) itself) ((==_iff n n).1 refl)
  matches_of (text s) observed m all = rw (all [] (text s) itself) ((eq_iff s s).1 refl)
  matches_of (array ds) observed m all =
      list_matches_of ds (items_of observed) (item_type m) (all [] (array ds) itself)
        (λ i v at p x r. all (index i ∷ p) x (in_list at r))
  matches_of (dictionary fs) observed m all =
      properties_match_of fs observed m (λ k v e seen p x r. all (key k ∷ p) x (in_entry e seen r))

  list_matches_of :
      (ds : Elements) (os : Option Elements) (m : Model)
      → AsLongAs ds os
      → ((i : ℕ) (v : Value) → ItemAt v i ds → AgreesEverywhere (item_of i os) v m)
      → list_matches os ds m ≡ true
  list_matches_of ds none m l all = elim l [ ]
  list_matches_of no_element (some no_element) m l all = refl
  list_matches_of (element d ds) (some no_element) m l all = elim l [ ]
  list_matches_of no_element (some (element o os)) m l all = elim l [ ]
  list_matches_of (element d ds) (some (element o os)) m l all =
      rw
        (
          matches_of d o m (all zero d first),
          list_matches_of ds (some os) m l (λ i v at. all (suc i) v (next at)),
        )
        refl

  properties_match_of :
      (fs : Properties) (observed : Value) (m : Model)
      → ((k : String) (v : Value)
          → Entry k v fs
          → is_hidden k m ≡ false
          → AgreesEverywhere (get k observed) v (model_at k m))
      → properties_match observed fs m ≡ true
  properties_match_of no_property observed m all = refl
  properties_match_of (property k v rest) observed m all =
      let more = properties_match_of rest observed m (λ j w e. all j w (later e)) in
      elim (Bool-cases (is_hidden k m)) [
        | inl hidden ↦ rw (hidden, more) refl
        | inr seen ↦
            rw (seen, matches_of v (get k observed) (model_at k m) (all k v here seen), more) refl
      ]

-- `modelMatches` accepts an observed value exactly when it agrees with the desired one at every
-- path that the desired one asks for: through all items of its lists, and through the entries of
-- its objects whose keys the read model has. To agree is to be a list of the same length where a
-- list is asked for, and the same value where neither a list, nor an object, nor `undefined` is.
pub model_matches_iff :
    (observed desired : Value) (m : Model)
    → (model_matches observed desired m ≡ true) ↔ AgreesEverywhere observed desired m
model_matches_iff observed desired m =
    (λ h p x r. Agrees-Requested observed r h, matches_of desired observed m)
