-- ===== src/Prelude/Lists.antt =====
-- Lists measured by native numbers, and JavaScript's array tests `some`, `every`, `filter`.
use Prim.Native.Nat.{ℕ, zero, suc, ◌+◌}
use mathlib.Core.Path.{◌≡◌, refl}
use mathlib.Core.Bool.{Bool, true, false, ◌&&◌, ◌||◌}
use mathlib.Core.List.{List, [], ◌∷◌, ◌++◌}
use mathlib.Core.Option.{Option, none, some}
use native.Mathlib.Omega.{arith}
use alchemy_alibaba.Prelude.Tests.{if◌then◌else◌}

module _ {ℓ} {A : Type ℓ} where
  abbrev pub length : List A → ℕ
  length [] = 0
  length (x ∷ xs) = suc (length xs)

  abbrev pub get_elem? : List A → ℕ → Option A
  get_elem? [] i = none
  get_elem? (x ∷ xs) zero = some x
  get_elem? (x ∷ xs) (suc i) = get_elem? xs i

  abbrev pub take : ℕ → List A → List A
  take zero xs = []
  take (suc n) [] = []
  take (suc n) (x ∷ xs) = x ∷ take n xs

  abbrev pub drop : ℕ → List A → List A
  drop zero xs = xs
  drop (suc n) [] = []
  drop (suc n) (x ∷ xs) = drop n xs

  -- `xs.some(p)`, `xs.every(p)`, `xs.filter(p)`
  abbrev pub any : (A → Bool) → List A → Bool
  any p [] = false
  any p (x ∷ xs) = p x || any p xs

  abbrev pub all : (A → Bool) → List A → Bool
  all p [] = true
  all p (x ∷ xs) = p x && all p xs

  abbrev pub filter : (A → Bool) → List A → List A
  filter p [] = []
  filter p (x ∷ xs) = let rest = filter p xs in if p x then x ∷ rest else rest

module _ {ℓ κ} {A : Type ℓ} where
  -- Every element satisfies `P`; some element does, with its place.
  abbrev pub All : (A → Type κ) → List A → Type κ
  All P [] = Unit
  All P (x ∷ xs) = P x × All P xs

module _ {ℓ} {A : Type ℓ} where
  pub data In (a : A) : List A → Type ℓ where
    here : {x : A} {xs : List A} → a ≡ x → In a (x ∷ xs)
    there : {x : A} {xs : List A} → In a xs → In a (x ∷ xs)

  pub length-append : (xs ys : List A) → length (xs ++ ys) ≡ length xs + length ys
  length-append [] ys = omega arith
  length-append (x ∷ xs) ys = omega (arith, length-append xs ys)

  abbrev keep_if : Bool → A → List A → List A
  keep_if b x rest = if b then x ∷ rest else rest

  In-keep_if :
      {a : A} (p : A → Bool) (x : A) {xs rest : List A} (b : Bool)
      → p x ≡ b
      → In a (keep_if b x rest)
      → (In a rest → In a xs × (p a ≡ true))
      → In a (x ∷ xs) × (p a ≡ true)
  In-keep_if p x true e (here h) later = (here h, rw h e)
  In-keep_if p x true e (there m) later = (there (later m).0, (later m).1)
  In-keep_if p x false e m later = (there (later m).0, (later m).1)

  -- Membership in a filtered list.
  pub In-filter : {a : A} (p : A → Bool) (xs : List A) → In a (filter p xs) → In a xs × (p a ≡ true)
  In-filter p [] m = elim m [ ]
  In-filter p (x ∷ xs) m = In-keep_if p x (p x) refl m (In-filter p xs)

  keep_if-here :
      {a : A} (x : A) (rest : List A) (b : Bool) → b ≡ true → a ≡ x → In a (keep_if b x rest)
  keep_if-here x rest true h e = here e
  keep_if-here x rest false h e = cc

  keep_if-there : {a : A} (x : A) (rest : List A) (b : Bool) → In a rest → In a (keep_if b x rest)
  keep_if-there x rest true m = there m
  keep_if-there x rest false m = m

  pub filter-In : {a : A} (p : A → Bool) {xs : List A} → In a xs → p a ≡ true → In a (filter p xs)
  filter-In p (here {x} {xs} e) h = keep_if-here x (filter p xs) (p x) (rw e at h) e
  filter-In p (there {x} {xs} m) h = keep_if-there x (filter p xs) (p x) (filter-In p m h)

  -- A list with members is not empty, and an empty filter says that all members fail the test.
  pub not-In_nil : {a : A} → ¬ In a []
  not-In_nil m = elim m [ ]
