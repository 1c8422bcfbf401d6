-- ===== src/Gateway/Onboard/Password/Classes.antt =====
-- The characters of a generated password, by their classes.
use alchemy_alibaba.Prelude.{
  ℕ, zero, suc, ◌+◌, ◌%◌, ◌<◌, ◌≡◌, refl, ◌∙◌, ap, Bool, true, false, List, [], ◌∷◌, ◌++◌, length,
  length-append, ◌==◌, if◌then◌else◌, arith, any, all, ==_iff,
}
use alchemy_alibaba.Gateway.Onboard.Password.{
  class_at, at, set, pick, exchange, drawn, shuffle, generate_password,
}

-- Whether a character is of the class with a number.
abbrev pub is_of : ℕ → ℕ → Bool
is_of k c = any (λ x. x == c) (class_at k)

abbrev one_if : Bool → ℕ
one_if b = if b then 1 else 0

-- How many characters are of a class.
abbrev pub count_of : ℕ → List ℕ → ℕ
count_of k [] = 0
count_of k (x ∷ xs) = one_if (is_of k x) + count_of k xs

-- The numbers of the classes.
abbrev numbers : List ℕ
numbers = 0 ∷ 1 ∷ 2 ∷ 3 ∷ []

of_number : (p : ℕ → Bool) (k : ℕ) → k < length numbers → all p numbers ≡ true → p k ≡ true
of_number p zero lt h = ground arith
of_number p (suc zero) lt h = ground arith
of_number p (suc (suc zero)) lt h = ground arith
of_number p (suc (suc (suc zero))) lt h = ground arith
of_number p (suc (suc (suc (suc k)))) lt h = absurd (omega arith)

abbrev agree : Bool → Bool → Bool
agree true b = b
agree false b = if b then false else true

agree-eq : (a b : Bool) → agree a b ≡ true → a ≡ b
agree-eq true true h = refl
agree-eq true false h = cc
agree-eq false true h = cc
agree-eq false false h = refl

all-at : (p : ℕ → Bool) (xs : List ℕ) (i : ℕ) → i < length xs → all p xs ≡ true → p (at xs i) ≡ true
all-at p [] i lt h = elim lt [ ]
all-at p (x ∷ xs) zero lt h = ground arith
all-at p (x ∷ xs) (suc i) lt h = ground (arith, all-at p xs i)

-- Every class is disjoint from the others, and not empty.
abbrev is_right : ℕ → ℕ → Bool
is_right j k = all (λ c. agree (is_of k c) (j == k)) (class_at j)

classes_apart : all (λ j. all (is_right j) numbers) numbers ≡ true
unfolding class_at
classes_apart = refl

class_at-size : (k : ℕ) → 0 < length (class_at k)
unfolding class_at
class_at-size k = ground arith

is_of-pick : (j k b : ℕ) → j < 4 → k < 4 → is_of k (pick (class_at j) b) ≡ (j == k)
unfolding pick
is_of-pick j k b p q = agree-eq _ _ (
    all-at (λ c. agree (is_of k c) (j == k)) (class_at j) (b % length (class_at j))
      (let size = class_at-size j in grind arith)
      (of_number (is_right j) k q (of_number (λ i. all (is_right i) numbers) j p classes_apart)))

count-append :
    (k : ℕ) (xs : List ℕ) (c : ℕ) → count_of k (xs ++ c ∷ []) ≡ count_of k xs + one_if (is_of k c)
count-append k [] c = omega arith
count-append k (x ∷ xs) c = omega (arith, count-append k xs c)

-- How many of the first draws are from a class.
tally : ℕ → ℕ → ℕ
tally k zero = 0
tally k (suc n) = tally k n + one_if (n % 4 == k)

six_each : (k : ℕ) → k < 4 → tally k 24 ≡ 6
unfolding tally
six_each k h = (==_iff (tally k 24) 6).0 (of_number (λ i. tally i 24 == 6) k h refl)

count-set :
    (k : ℕ) (xs : List ℕ) (i v : ℕ)
    → i < length xs
    → count_of k (set xs i v) + one_if (is_of k (at xs i)) ≡ count_of k xs + one_if (is_of k v)
count-set k [] i v h = elim h [ ]
count-set k (x ∷ xs) zero v h = omega arith
count-set k (x ∷ xs) (suc i) v h = omega (arith, count-set k xs i v)

length-set : (xs : List ℕ) (i v : ℕ) → length (set xs i v) ≡ length xs
length-set [] i v = refl
length-set (x ∷ xs) zero v = refl
length-set (x ∷ xs) (suc i) v = ap suc (length-set xs i v)

-- Writing a value where another place already has it changes nothing at that place.
at-set_same : (xs : List ℕ) (i j v : ℕ) → v ≡ at xs j → j < length xs → at (set xs i v) j ≡ at xs j
at-set_same [] i j v e h = refl
at-set_same (x ∷ xs) zero zero v e h = e
at-set_same (x ∷ xs) zero (suc j) v e h = refl
at-set_same (x ∷ xs) (suc i) zero v e h = refl
at-set_same (x ∷ xs) (suc i) (suc j) v e h = at-set_same xs i j v e (omega arith)

length-exchange : (i j : ℕ) (xs : List ℕ) → length (exchange i j xs) ≡ length xs
unfolding exchange
length-exchange i j xs = length-set (set xs i (at xs j)) j (at xs i) ∙ length-set xs i (at xs j)

count-exchange :
    (k i j : ℕ) (xs : List ℕ)
    → i < length xs
    → j < length xs
    → count_of k (exchange i j xs) ≡ count_of k xs
unfolding exchange
count-exchange k i j xs p q =
    let same = at-set_same xs i j (at xs j) refl q in
    let first = count-set k xs i (at xs j) p in
    let second =
      count-set k (set xs i (at xs j)) j (at xs i) (omega (arith, length-set xs i (at xs j))) in
    omega (arith, first, second, ap (λ c. one_if (is_of k c)) same)

module _ (byte : ℕ → ℕ) where
  length-drawn : (n : ℕ) → length (drawn byte n) ≡ n
  unfolding drawn
  length-drawn zero = refl
  length-drawn (suc n) =
      omega (
        arith,
        length-append (drawn byte n) (pick (class_at (n % 4)) (byte n) ∷ []),
        length-drawn n,
      )

  count-drawn : (k n : ℕ) → k < 4 → count_of k (drawn byte n) ≡ tally k n
  unfolding drawn tally
  count-drawn k zero h = refl
  count-drawn k (suc n) h =
      count-append k (drawn byte n) (pick (class_at (n % 4)) (byte n))
      ∙ (λ j. count-drawn k n h j + one_if (is_of-pick (n % 4) k (byte n) (omega arith) h j))

  shuffle-keeps :
      (k i n : ℕ) (xs : List ℕ)
      → i < length xs
      → (count_of k (shuffle byte i n xs) ≡ count_of k xs)
        × (length (shuffle byte i n xs) ≡ length xs)
  unfolding shuffle
  shuffle-keeps k zero n xs h = (refl, refl)
  shuffle-keeps k (suc i) n xs h =
      let swap = byte n % (i + 2) in
      let same = length-exchange (suc i) swap xs in
      let (counts, size) =
        shuffle-keeps k i (n + 1) (exchange (suc i) swap xs) (omega (arith, same)) in
      (counts ∙ count-exchange k (suc i) swap xs h (grind arith), size ∙ same)

  -- Whatever the random bytes are, a generated password has 24 characters, and six of each of the
  -- four classes: capitals, small letters, digits, and special characters.
  pub generate_password-Balanced :
      (k : ℕ)
      → k < 4
      → (length (generate_password byte) ≡ 24) × (count_of k (generate_password byte) ≡ 6)
  unfolding generate_password
  generate_password-Balanced k h =
      let (counts, size) = shuffle-keeps k 23 24 (drawn byte 24) (omega (arith, length-drawn 24)) in
      (size ∙ length-drawn 24, counts ∙ (count-drawn k 24 h ∙ six_each k h))
