-- ===== src/Gateway/Grants/Quoting.antt =====
-- Quoted names and literals are read back by the rule of SQL.
use Prim.Native.Char.{Char, code}
use Prim.Native.String.{◌++◌ as ◌<>◌}
use Prim.Native.String.append.{nil, cons}
use text.Mathlib.TextEquality.{Char-path}
use alchemy_alibaba.Prelude.{
  ℕ, String, Bool, true, false, Option, none, some, ◌==◌, ==_iff, if◌then◌else◌, ◌≡◌, refl, sym,
  ◌∙◌, Bool-cases, inl, inr, ap,
}
use alchemy_alibaba.Gateway.Grants.{
  doubled, enclosed, single_quote, double_quote, quote_identifier, quote_literal,
}

abbrev put : Char → Option (String × String) → Option (String × String)
put c none = none
put c (some (s, rest)) = some (String.◌∷◌ c s, rest)

-- The text up to the closing quote, and the rest: two quotes in a row stand for one.
unfoldable read_body : Char → String → Option (String × String)
read_body q String.[] = none
read_body q (String.◌∷◌ c String.[]) = if code c == code q then some ("", "") else none
read_body q (String.◌∷◌ c (String.◌∷◌ d t)) =
    let one = read_body q (String.◌∷◌ d t) in
    let two = read_body q t in
    if code c == code q
    then (if code d == code q then put q two else some ("", String.◌∷◌ d t))
    else put c one

-- How SQL reads a quoted name or literal at the start of a text.
unfoldable pub read_quoted : Char → String → Option (String × String)
unfolding read_body
read_quoted q String.[] = none
read_quoted q (String.◌∷◌ c s) = if code c == code q then read_body q s else none

-- The text goes on with the quote.
abbrev pub opens : Char → String → Bool
opens q String.[] = false
opens q (String.◌∷◌ c s) = code c == code q

==-self : (n : ℕ) → (n == n) ≡ true
==-self n = (==_iff n n).1 refl

read_body-end :
    (q : Char) (rest : String)
    → opens q rest ≡ false
    → read_body q (String.◌∷◌ q rest) ≡ some ("", rest)
unfolding read_body
read_body-end q String.[] h = rw (==-self (code q))
read_body-end q (String.◌∷◌ d t) h = rw (==-self (code q), h)

read_body-pair :
    (q : Char) (s : String) → read_body q (String.◌∷◌ q (String.◌∷◌ q s)) ≡ put q (read_body q s)
unfolding read_body
read_body-pair q s = rw (==-self (code q))

read_body-other :
    (q c : Char) (s : String)
    → (code c == code q) ≡ false
    → read_body q (String.◌∷◌ c s) ≡ put c (read_body q s)
unfolding read_body
read_body-other q c String.[] h = rw h
read_body-other q c (String.◌∷◌ d t) h = rw h

same_char : (c q : Char) → (code c == code q) ≡ true → q ≡ c
same_char c q h = Char-path q c (sym ((==_iff (code c) (code q)).0 h))

-- The doubled text, the closing quote and the rest, without brackets.
abbrev closed : Char → String → String → String
closed q s rest = (doubled q s <> String.◌∷◌ q String.[]) <> rest

closed-nil : (q : Char) (rest : String) → closed q "" rest ≡ String.◌∷◌ q rest
unfolding doubled
closed-nil q rest = rw (nil, cons, nil) refl

closed-pair :
    (q c : Char) (s rest : String)
    → (code c == code q) ≡ true
    → closed q (String.◌∷◌ c s) rest ≡ String.◌∷◌ q (String.◌∷◌ q (closed q s rest))
unfolding doubled
closed-pair q c s rest h = rw (h, cons, cons, cons, cons) refl

closed-other :
    (q c : Char) (s rest : String)
    → (code c == code q) ≡ false
    → closed q (String.◌∷◌ c s) rest ≡ String.◌∷◌ c (closed q s rest)
unfolding doubled
closed-other q c s rest h = rw (h, cons, cons) refl

read_body-closed :
    (q : Char) (s rest : String)
    → opens q rest ≡ false
    → read_body q (closed q s rest) ≡ some (s, rest)
read_body-closed q String.[] rest h = rw (closed-nil q rest, read_body-end q rest h)
read_body-closed q (String.◌∷◌ c s) rest h = elim (Bool-cases (code c == code q)) [
  | inl e ↦
      ap (read_body q) (closed-pair q c s rest e)
      ∙ read_body-pair q (closed q s rest)
      ∙ ap (put q) (read_body-closed q s rest h)
      ∙ ap (λ k. some (String.◌∷◌ k s, rest)) (same_char c q e)
  | inr e ↦
      ap (read_body q) (closed-other q c s rest e)
      ∙ read_body-other q c (closed q s rest) e
      ∙ ap (put c) (read_body-closed q s rest h)
]

read_quoted-enclosed :
    (q : Char) (s rest : String)
    → opens q rest ≡ false
    → read_quoted q (enclosed q s <> rest) ≡ some (s, rest)
unfolding read_quoted
read_quoted-enclosed q s rest h = rw (cons, ==-self (code q)) (read_body-closed q s rest h)

-- A quoted literal and a quoted identifier, before any text that does not go on with the same
-- quote, are read by the rule of SQL as the value that was quoted, and nothing more: no value can
-- end its quotes early.
pub read_quoted-quote :
    (value rest : String)
    → (opens single_quote rest ≡ false
        → read_quoted single_quote (quote_literal value <> rest) ≡ some (value, rest))
      × (opens double_quote rest ≡ false
          → read_quoted double_quote (quote_identifier value <> rest) ≡ some (value, rest))
unfolding quote_literal quote_identifier
read_quoted-quote value rest =
    (read_quoted-enclosed single_quote value rest, read_quoted-enclosed double_quote value rest)
