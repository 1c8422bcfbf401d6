-- ===== src/Rds/IpLists.antt =====
-- The lists of addresses in src/rds/security-ip-group.ts and src/tair/security-ip-group.ts:
-- `normalize`, `observedIps` and `sameIps`. Texts are compared by their code points.
pub mod Order
pub mod Sets
use Prim.Native.Char.{code}
use alchemy_alibaba.Prelude.{
  String, Bool, true, false, not, List, [], ◌∷◌, map, Option, none, some, str_eq, ltb, ◌==◌,
  if◌then◌else◌, filter,
}
use alchemy_alibaba.Gateway.Text.{trim_text, split_text}
use alchemy_alibaba.Gateway.Grants.Queries.{join}

-- The order of `sort()`.
unfoldable pub text_leb : String → String → Bool
text_leb String.[] s = true
text_leb (String.◌∷◌ c s) String.[] = false
text_leb (String.◌∷◌ c s) (String.◌∷◌ d t) =
    let rest = text_leb s t in
    if ltb (code c) (code d) then true else if code c == code d then rest else false

unfoldable pub insert : String → List String → List String
unfolding text_leb
insert x [] = x ∷ []
insert x (y ∷ ys) = let rest = insert x ys in if text_leb x y then x ∷ y ∷ ys else y ∷ rest

unfoldable pub sort : List String → List String
unfolding insert
sort [] = []
sort (x ∷ xs) = insert x (sort xs)

abbrev pub differs_from : String → String → Bool
differs_from x y = not (str_eq y x)

-- `[...new Set(xs)]`
unfoldable pub unique : List String → List String
unique [] = []
unique (x ∷ xs) = x ∷ filter (differs_from x) (unique xs)

abbrev pub is_filled : String → Bool
is_filled s = not (str_eq s "")

-- `normalize`
unfoldable pub normalize : List String → List String
unfolding sort unique trim_text
normalize ips = sort (unique (filter is_filled (map trim_text ips)))

-- `normalize(text?.split(",") ?? [])`, the body of `observedIps`.
unfoldable pub listed_ips : Option String → List String
unfolding normalize split_text
listed_ips none = normalize []
listed_ips (some text) = normalize (split_text b',' text)

-- `sameIps`
unfoldable pub same_ips : List String → List String → Bool
unfolding normalize
same_ips left right = str_eq (join "," (normalize left)) (join "," (normalize right))
