-- ===== src/Gateway/Onboard/Password.antt =====
-- `generatePassword` of packages/rds-access/src/gateway/onboard.ts. `byte n` is the byte that the
-- draw number `n` of `randomBytes(1)` gives; characters are code points.
pub mod Classes
use alchemy_alibaba.Prelude.{
  ℕ, zero, suc, ◌+◌, ◌%◌, List, [], ◌∷◌, ◌++◌, length, ◌==◌, if◌then◌else◌,
}
use alchemy_alibaba.Errors.Pattern.{codes}

abbrev capitals : List ℕ
capitals = codes "ABCDEFGHJKLMNPQRSTUVWXYZ"

abbrev small_letters : List ℕ
small_letters = codes "abcdefghijkmnopqrstuvwxyz"

abbrev digits : List ℕ
digits = codes "23456789"

-- `PASSWORD_SPECIALS`
abbrev specials : List ℕ
specials = codes "!@#$%^&*_-+="

-- `classes[k]`, at `k` below 4.
unfoldable pub class_at : ℕ → List ℕ
class_at k =
    if k == 0
    then capitals
    else if k == 1
    then small_letters
    else if k == 2
    then digits
    else specials

abbrev pub at : List ℕ → ℕ → ℕ
at [] i = 0
at (x ∷ xs) zero = x
at (x ∷ xs) (suc i) = at xs i

abbrev pub set : List ℕ → ℕ → ℕ → List ℕ
set [] i v = []
set (x ∷ xs) zero v = v ∷ xs
set (x ∷ xs) (suc i) v = x ∷ set xs i v

-- `pick`
unfoldable pub pick : List ℕ → ℕ → ℕ
pick source b = at source (b % length source)

-- `[characters[index], characters[swap]] = [characters[swap], characters[index]]`
unfoldable pub exchange : ℕ → ℕ → List ℕ → List ℕ
exchange i j xs = set (set xs i (at xs j)) j (at xs i)

module _ (byte : ℕ → ℕ) where
  -- `n` draws, each from the class of its number; the first four are those of the literal list.
  unfoldable pub drawn : ℕ → List ℕ
  drawn zero = []
  drawn (suc n) = drawn n ++ pick (class_at (n % 4)) (byte n) ∷ []

  -- The loop that exchanges, from an index down to 1; `n` draws are made.
  unfoldable pub shuffle : ℕ → ℕ → List ℕ → List ℕ
  shuffle zero n xs = xs
  shuffle (suc i) n xs = shuffle i (n + 1) (exchange (suc i) (byte n % (i + 2)) xs)

  -- `generatePassword`
  unfoldable pub generate_password : List ℕ
  generate_password = shuffle 23 24 (drawn 24)
