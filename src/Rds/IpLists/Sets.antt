-- ===== src/Rds/IpLists/Sets.antt =====
-- `sameIps` compares lists of addresses as sets.
use Prim.Native.Char.{code}
use Prim.Native.String.{◌++◌ as ◌<>◌}
use Prim.Native.String.append.{nil, cons}
use alchemy_alibaba.Prelude.{
  String, Bool, true, false, not, ◌&&◌, List, [], ◌∷◌, map, str_eq, eq_iff, ◌==◌, ◌≡◌, ◌≢◌, inl,
  inr, refl, sym, ◌∙◌, ap, subst, arith, All, In, here, there, In-filter, filter-In, Bool-cases,
  ◌↔◌, filter,
}
use alchemy_alibaba.Gateway.Text.{trim_text, split_text}
use alchemy_alibaba.Gateway.Grants.Queries.{join}
use alchemy_alibaba.Rds.IpLists.{sort, unique, normalize, same_ips, is_filled, differs_from}
use alchemy_alibaba.Rds.IpLists.Order.{Ordered, Ordered-ext, In-insert, insert-Ordered, All-insert}

-- The addresses of a list: its trimmed entries that are not empty.
abbrev pub addresses : List String → List String
addresses ips = filter is_filled (map trim_text ips)

abbrev Distinct : List String → Type 0
Distinct [] = Unit
Distinct (x ∷ xs) = All (λ y. y ≢ x) xs × Distinct xs

All-filter :
    (P : String → Type 0) (p : String → Bool) (xs : List String) → All P xs → All P (filter p xs)
All-filter P p [] a = tt
All-filter P p (x ∷ xs) a = elim (Bool-cases (p x)) [
  | inl b ↦ rw b (a.0, All-filter P p xs a.1)
  | inr b ↦ rw b (All-filter P p xs a.1)
]

Distinct-filter : (p : String → Bool) (xs : List String) → Distinct xs → Distinct (filter p xs)
Distinct-filter p [] d = tt
Distinct-filter p (x ∷ xs) d = elim (Bool-cases (p x)) [
  | inl b ↦ rw b (All-filter (λ y. y ≢ x) p xs d.0, Distinct-filter p xs d.1)
  | inr b ↦ rw b (Distinct-filter p xs d.1)
]

All-differs : (x : String) (xs : List String) → All (λ y. y ≢ x) (filter (differs_from x) xs)
All-differs x [] = tt
All-differs x (y ∷ ys) = elim (Bool-cases (str_eq y x)) [
  | inl b ↦ rw b (All-differs x ys)
  | inr b ↦ rw b ((λ e. cc ((eq_iff y x).1 e)), All-differs x ys)
]

unique-Distinct : (xs : List String) → Distinct (unique xs)
unfolding unique
unique-Distinct [] = tt
unique-Distinct (x ∷ xs) =
    (All-differs x (unique xs), Distinct-filter (differs_from x) (unique xs) (unique-Distinct xs))

In-unique : (z : String) (xs : List String) → In z (unique xs) ↔ In z xs
unfolding unique
In-unique z [] = ((λ m. m), (λ m. m))
In-unique z (x ∷ xs) = (
  λ m. elim m [
    | here e ↦ here e
    | there n ↦ there ((In-unique z xs).0 (In-filter (differs_from x) (unique xs) n).0)
  ],
  λ m. elim m [
    | here e ↦ here e
    | there n ↦ elim (Bool-cases (str_eq z x)) [
      | inl b ↦ here ((eq_iff z x).0 b)
      | inr b ↦ there (filter-In (differs_from x) ((In-unique z xs).1 n) (rw b refl))
    ]
  ],
)

All-sort : (P : String → Type 0) (xs : List String) → All P xs → All P (sort xs)
unfolding sort
All-sort P [] a = tt
All-sort P (x ∷ xs) a = All-insert P x (sort xs) a.0 (All-sort P xs a.1)

sort-Ordered : (xs : List String) → Distinct xs → Ordered (sort xs)
unfolding sort
sort-Ordered [] d = tt
sort-Ordered (x ∷ xs) d =
    insert-Ordered x (sort xs) (sort-Ordered xs d.1) (All-sort (λ y. y ≢ x) xs d.0)

In-sort : (z : String) (xs : List String) → In z (sort xs) ↔ In z xs
unfolding sort
In-sort z [] = ((λ m. m), (λ m. m))
In-sort z (x ∷ xs) = (
  λ m. elim ((In-insert z x (sort xs)).0 m) [ inl e ↦ here e | inr n ↦ there ((In-sort z xs).0 n) ],
  λ m. elim m [
    | here e ↦ (In-insert z x (sort xs)).1 (inl e)
    | there n ↦ (In-insert z x (sort xs)).1 (inr ((In-sort z xs).1 n))
  ],
)

-- The members of a normalized list are the addresses of the list.
pub In-normalize : (z : String) (ips : List String) → In z (normalize ips) ↔ In z (addresses ips)
unfolding normalize
In-normalize z ips =
    let s = In-sort z (unique (addresses ips)) in
    let u = In-unique z (addresses ips) in ((λ m. u.0 (s.0 m)), (λ m. s.1 (u.1 m)))

normalize-Ordered : (ips : List String) → Ordered (normalize ips)
unfolding normalize
normalize-Ordered ips = sort-Ordered (unique (addresses ips)) (unique-Distinct (addresses ips))

-- No character of the text is a comma.
unfoldable pub is_single : String → Bool
is_single String.[] = true
is_single (String.◌∷◌ c s) = not (code c == b',') && is_single s

abbrev pub IsSingle : String → Type 0
IsSingle s = is_single s ≡ true

split_text-single : (s : String) → IsSingle s → split_text b',' s ≡ s ∷ []
unfolding is_single split_text
split_text-single String.[] h = refl
split_text-single (String.◌∷◌ c s) h =
    let head : (code c == b',') ≡ false = ground arith in
    let rest = split_text-single s (ground arith) in rw (rest, head) refl

split_text-joined :
    (s t : String) → IsSingle s → split_text b',' (s <> ("," <> t)) ≡ s ∷ split_text b',' t
unfolding is_single split_text
split_text-joined String.[] t h = rw (nil ("," <> t), cons "," "" t, nil t) refl
split_text-joined (String.◌∷◌ c s) t h =
    let head : (code c == b',') ≡ false = ground arith in
    let rest = split_text-joined s t (ground arith) in rw (cons c s ("," <> t), rest, head) refl

split_text-join :
    (xs : List String)
    → All IsSingle xs
    → filter is_filled (split_text b',' (join "," xs)) ≡ filter is_filled xs
unfolding join split_text
split_text-join [] a = refl
split_text-join (s ∷ []) a = rw (split_text-single s a.0) refl
split_text-join (s ∷ t ∷ rest) a =
    rw (split_text-joined s (join "," (t ∷ rest)) a.0, split_text-join (t ∷ rest) a.1) refl

filter-All : (xs : List String) → All (λ x. is_filled x ≡ true) xs → filter is_filled xs ≡ xs
filter-All [] a = refl
filter-All (x ∷ xs) a = rw (a.0, filter-All xs a.1) refl

All-kept : (xs : List String) → All (λ x. is_filled x ≡ true) (filter is_filled xs)
All-kept [] = tt
All-kept (x ∷ xs) = elim (Bool-cases (is_filled x)) [
  | inl b ↦ rw b (b, All-kept xs)
  | inr b ↦ rw b (All-kept xs)
]

All-unique : (P : String → Type 0) (xs : List String) → All P xs → All P (unique xs)
unfolding unique
All-unique P [] a = tt
All-unique P (x ∷ xs) a = (a.0, All-filter P (differs_from x) (unique xs) (All-unique P xs a.1))

All-normalize :
    (P : String → Type 0) (ips : List String) → All P (addresses ips) → All P (normalize ips)
unfolding normalize
All-normalize P ips a = All-sort P (unique (addresses ips)) (All-unique P (addresses ips) a)

join-normalize :
    (ips : List String)
    → All IsSingle (map trim_text ips)
    → filter is_filled (split_text b',' (join "," (normalize ips))) ≡ normalize ips
join-normalize ips a =
    let single = All-filter IsSingle is_filled (map trim_text ips) a in
    split_text-join (normalize ips) (All-normalize IsSingle ips single)
    ∙ filter-All (normalize ips)
        (All-normalize (λ x. is_filled x ≡ true) ips (All-kept (map trim_text ips)))

-- For lists whose trimmed entries hold no comma, `sameIps` is true exactly when both lists have
-- the same addresses: the same trimmed entries that are not empty, in any order and number.
pub same_ips_iff :
    (left right : List String)
    → All IsSingle (map trim_text left)
    → All IsSingle (map trim_text right)
    → (same_ips left right ≡ true)
      ↔ ((ip : String) → In ip (addresses left) ↔ In ip (addresses right))
unfolding same_ips
same_ips_iff left right a b = (
  λ h ip.
      let texts = (eq_iff (join "," (normalize left)) (join "," (normalize right))).0 h in
      let lists : normalize left ≡ normalize right =
        sym (join-normalize left a)
        ∙ ap (λ text. filter is_filled (split_text b',' text)) texts
        ∙ join-normalize right b in
      let l = In-normalize ip left in
      let r = In-normalize ip right in
      (λ m. r.0 (subst (In ip) lists (l.1 m)), λ m. l.0 (subst (In ip) (sym lists) (r.1 m))),
  λ h. (eq_iff (join "," (normalize left)) (join "," (normalize right))).1 (
      ap (join ",") (
        Ordered-ext (normalize left) (normalize right) (normalize-Ordered left)
          (normalize-Ordered right)
          (λ z. (
            λ m. (In-normalize z right).1 ((h z).0 ((In-normalize z left).0 m)),
            λ m. (In-normalize z left).1 ((h z).1 ((In-normalize z right).0 m)),
          )))),
)
