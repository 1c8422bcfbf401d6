-- ===== src/Errors/Pattern.antt =====
-- The regular expressions of src/error.ts, over the code points of a text: alternatives of
-- literal letters, `.?` and `.*`, searched anywhere in a text with the flag `i`; and the anchored
-- shape of a safe error code.
use Prim.Native.Char.{code}
use alchemy_alibaba.Prelude.{
  ℕ, ◌+◌, String, Bool, true, false, not, ◌&&◌, ◌||◌, List, [], ◌∷◌, map, leb, ◌==◌, if◌then◌else◌,
  any, all, length,
}

-- The code points of a text.
abbrev pub codes : String → List ℕ
codes String.[] = []
codes (String.◌∷◌ c s) = code c ∷ codes s

abbrev within : ℕ → ℕ → ℕ → Bool
within lo hi c = leb lo c && leb c hi

-- The flag `i` compares ASCII letters without their case, and nothing else.
abbrev pub fold_case : ℕ → ℕ
fold_case c = if within b'A' b'Z' c then c + 32 else c

-- `.` stands for any character but a line terminator.
abbrev pub is_any : ℕ → Bool
is_any c = not (c == 10 || c == 13 || c == 0x2028 || c == 0x2029)

-- `letter` is in lower case.
pub data Piece : Type 0 where
  letter : ℕ → Piece
  any_optional any_many : Piece

abbrev pub Pattern : Type 0
Pattern = List Piece

abbrev pub word : String → Pattern
word s = map letter (codes s)

-- The pattern matches at the start of the text.
unfoldable pub matches_here : Pattern → List ℕ → Bool
matches_here [] s = true
matches_here (letter c ∷ p) [] = false
matches_here (letter c ∷ p) (x ∷ s) = let rest = matches_here p s in fold_case x == c && rest
matches_here (any_optional ∷ p) [] = matches_here p []
matches_here (any_optional ∷ p) (x ∷ s) =
    let skip = matches_here p s in matches_here p (x ∷ s) || (is_any x && skip)
matches_here (any_many ∷ p) [] = matches_here p []
matches_here (any_many ∷ p) (x ∷ s) =
    let skip = matches_here (any_many ∷ p) s in matches_here p (x ∷ s) || (is_any x && skip)

unfoldable pub found_in : Pattern → List ℕ → Bool
unfolding matches_here
found_in p [] = matches_here p []
found_in p (x ∷ s) = let later = found_in p s in matches_here p (x ∷ s) || later

-- `/p|q|…/i.test(text)`
unfoldable pub test_any : List Pattern → String → Bool
unfolding found_in
test_any ps text = any (λ p. found_in p (codes text)) ps

-- `[A-Za-z]`, `[A-Za-z0-9_.-]`
abbrev pub is_letter : ℕ → Bool
is_letter c = within b'A' b'Z' c || within b'a' b'z' c

abbrev pub is_code_unit : ℕ → Bool
is_code_unit c = is_letter c || within b'0' b'9' c || c == b'_' || c == b'.' || c == b'-'

abbrev pub safe_code_units : List ℕ → Bool
safe_code_units [] = false
safe_code_units (c ∷ rest) = is_letter c && all is_code_unit rest && leb (length rest) 127

-- `/^[A-Za-z][A-Za-z0-9_.-]{0,127}$/`
unfoldable pub is_safe_code : String → Bool
is_safe_code s = safe_code_units (codes s)
