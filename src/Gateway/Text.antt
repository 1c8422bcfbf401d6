-- ===== src/Gateway/Text.antt =====
-- The text operations of the gateway code, over the code points of a text: `trim`, `split`, a
-- suffix that is dropped, decimal digits.
use Prim.Native.Char.{Char, code}
use alchemy_alibaba.Prelude.{
  String, str_eq, ℕ, ◌+◌, ◌-◌, ◌*◌, Bool, ◌&&◌, ◌||◌, List, [], ◌∷◌, leb, ◌==◌, if◌then◌else◌,
}

-- White space and line terminators of JavaScript.
abbrev pub is_space : ℕ → Bool
is_space c =
    (leb 9 c && leb c 13)
    || c == 32
    || c == 0xa0
    || c == 0x1680
    || (leb 0x2000 c && leb c 0x200a)
    || c == 0x2028
    || c == 0x2029
    || c == 0x202f
    || c == 0x205f
    || c == 0x3000
    || c == 0xfeff

trim_start : List ℕ → List ℕ
trim_start [] = []
trim_start (c ∷ s) = let rest = trim_start s in if is_space c then rest else c ∷ s

abbrev cons_trimmed : ℕ → List ℕ → List ℕ
cons_trimmed c [] = if is_space c then [] else c ∷ []
cons_trimmed c (x ∷ s) = c ∷ x ∷ s

trim_end : List ℕ → List ℕ
trim_end [] = []
trim_end (c ∷ s) = cons_trimmed c (trim_end s)

-- `text.trim()`
unfoldable pub trim : List ℕ → List ℕ
unfolding trim_start trim_end
trim s = trim_end (trim_start s)

abbrev pub cons_first : ℕ → List (List ℕ) → List (List ℕ)
cons_first c [] = (c ∷ []) ∷ []
cons_first c (part ∷ parts) = (c ∷ part) ∷ parts

-- `text.split(separator)`, at a separator of one character.
unfoldable pub split : ℕ → List ℕ → List (List ℕ)
split d [] = [] ∷ []
split d (c ∷ s) = let rest = split d s in if c == d then [] ∷ rest else cons_first c rest

-- `\d`
abbrev pub is_digit : ℕ → Bool
is_digit c = leb b'0' c && leb c b'9'

-- `Number(text)` of decimal digits, after the digits so far.
unfoldable pub decimal : ℕ → List ℕ → ℕ
decimal n [] = n
decimal n (c ∷ s) = decimal (n * 10 + (c - b'0')) s

-- The same `trim`, on a text.
drop_spaces : String → String
drop_spaces String.[] = ""
drop_spaces (String.◌∷◌ c s) =
    let rest = drop_spaces s in if is_space (code c) then rest else String.◌∷◌ c s

abbrev keep_unless_blank : Char → String → String
keep_unless_blank c String.[] = if is_space (code c) then "" else String.◌∷◌ c String.[]
keep_unless_blank c (String.◌∷◌ d s) = String.◌∷◌ c (String.◌∷◌ d s)

drop_end_spaces : String → String
drop_end_spaces String.[] = ""
drop_end_spaces (String.◌∷◌ c s) = keep_unless_blank c (drop_end_spaces s)

unfoldable pub trim_text : String → String
unfolding drop_spaces drop_end_spaces
trim_text s = drop_end_spaces (drop_spaces s)

-- `text.replace(/suffix$/, "")`, for a suffix of plain characters.
unfoldable pub without_suffix : String → String → String
without_suffix suffix String.[] = ""
without_suffix suffix (String.◌∷◌ c s) =
    let rest = without_suffix suffix s in
    if str_eq (String.◌∷◌ c s) suffix then "" else String.◌∷◌ c rest

abbrev pub cons_first_text : Char → List String → List String
cons_first_text c [] = String.◌∷◌ c String.[] ∷ []
cons_first_text c (part ∷ parts) = String.◌∷◌ c part ∷ parts

-- `text.split(separator)` again, on a text.
unfoldable pub split_text : ℕ → String → List String
split_text d String.[] = "" ∷ []
split_text d (String.◌∷◌ c s) =
    let rest = split_text d s in if code c == d then "" ∷ rest else cons_first_text c rest
