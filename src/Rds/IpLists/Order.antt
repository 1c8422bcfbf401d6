-- ===== src/Rds/IpLists/Order.antt =====
-- The order of texts is total, and a list in strict order is known by its members.
use Prim.Native.Char.{code}
use text.Mathlib.TextEquality.{Char-path}
use alchemy_alibaba.Prelude.{
  String, true, false, List, [], ◌∷◌, ◌≡◌, ◌≢◌, ◌⊎◌, inl, inr, refl, sym, ◌∙◌, subst, arith, All,
  In, here, there, Bool-cases, not-In_nil, ◌↔◌,
}
use alchemy_alibaba.Rds.IpLists.{text_leb, insert}

-- `s` stands before `t`, and is another text.
abbrev pub Before : String → String → Type 0
Before s t = text_leb t s ≡ false

Before-irreflexive : (s : String) → Before s s → ⊥
unfolding text_leb
Before-irreflexive String.[] h = cc
Before-irreflexive (String.◌∷◌ c s) h = Before-irreflexive s (ground arith)

pub not-Before_self : (s : String) → ¬ Before s s
not-Before_self s h = Before-irreflexive s h

text_leb-antisymmetric : (s t : String) → text_leb s t ≡ true → text_leb t s ≡ true → s ≡ t
unfolding text_leb
text_leb-antisymmetric String.[] String.[] h k = refl
text_leb-antisymmetric String.[] (String.◌∷◌ d t) h k = cc
text_leb-antisymmetric (String.◌∷◌ c s) String.[] h k = cc
text_leb-antisymmetric (String.◌∷◌ c s) (String.◌∷◌ d t) h k =
    let e : code c ≡ code d = ground arith in
    let first = Char-path c d e in
    let rest = text_leb-antisymmetric s t (ground arith) (ground arith) in cc

Before-transitive : (s t u : String) → Before s t → Before t u → Before s u
unfolding text_leb
Before-transitive String.[] String.[] u h k = cc
Before-transitive String.[] (String.◌∷◌ d t) String.[] h k = cc
Before-transitive String.[] (String.◌∷◌ d t) (String.◌∷◌ e u) h k = refl
Before-transitive (String.◌∷◌ c s) String.[] u h k = cc
Before-transitive (String.◌∷◌ c s) (String.◌∷◌ d t) String.[] h k = cc
Before-transitive (String.◌∷◌ c s) (String.◌∷◌ d t) (String.◌∷◌ e u) h k =
    ground (arith, Before-transitive s t u)

Before-asymmetric : (s t : String) → Before s t → text_leb s t ≡ true
unfolding text_leb
Before-asymmetric String.[] t h = refl
Before-asymmetric (String.◌∷◌ c s) String.[] h = cc
Before-asymmetric (String.◌∷◌ c s) (String.◌∷◌ d t) h = ground (arith, Before-asymmetric s t)

-- Each text stands before all that follow it.
abbrev pub Ordered : List String → Type 0
Ordered [] = Unit
Ordered (x ∷ xs) = All (Before x) xs × Ordered xs

All-Before-trans :
    (x y : String) (ys : List String) → Before x y → All (Before y) ys → All (Before x) ys
All-Before-trans x y [] h a = tt
All-Before-trans x y (z ∷ zs) h a = (Before-transitive x y z h a.0, All-Before-trans x y zs h a.1)

All-In : (y : String) (xs : List String) (x : String) → All (Before y) xs → In x xs → Before y x
All-In y (z ∷ zs) x a (here e) = subst (Before y) (sym e) a.0
All-In y (z ∷ zs) x a (there m) = All-In y zs x a.1 m
All-In y [] x a m = absurd (not-In_nil m)

heads-eq :
    (x y : String) (xs ys : List String)
    → All (Before x) xs
    → All (Before y) ys
    → In x (y ∷ ys)
    → In y (x ∷ xs)
    → x ≡ y
heads-eq x y xs ys a b (here e) n = e
heads-eq x y xs ys a b (there m) (here e) = sym e
heads-eq x y xs ys a b (there m) (there n) =
    let before = Before-asymmetric x y (All-In x xs y a n) in let after = All-In y ys x b m in cc

In-tail :
    (x y z : String) (xs ys : List String)
    → x ≡ y
    → All (Before x) xs
    → In z xs
    → In z (y ∷ ys)
    → In z ys
In-tail x y z xs ys e a m (here h) =
    absurd (Before-irreflexive x (subst (Before x) (h ∙ sym e) (All-In x xs z a m)))
In-tail x y z xs ys e a m (there n) = n

-- Two lists in strict order with the same members are the same list.
pub Ordered-ext :
    (xs ys : List String) → Ordered xs → Ordered ys → ((z : String) → In z xs ↔ In z ys) → xs ≡ ys
Ordered-ext [] [] o p h = refl
Ordered-ext [] (y ∷ ys) o p h = absurd (not-In_nil ((h y).1 (here refl)))
Ordered-ext (x ∷ xs) [] o p h = absurd (not-In_nil ((h x).0 (here refl)))
Ordered-ext (x ∷ xs) (y ∷ ys) o p h =
    let first = heads-eq x y xs ys o.0 p.0 ((h x).0 (here refl)) ((h y).1 (here refl)) in
    let rest = Ordered-ext xs ys o.1 p.1 (λ z. (
      λ m. In-tail x y z xs ys first o.0 m ((h z).0 (there m)),
      λ m. In-tail y x z ys xs (sym first) p.0 m ((h z).1 (there m)),
    )) in
    cc

pub In-insert : (z x : String) (ys : List String) → In z (insert x ys) ↔ ((z ≡ x) ⊎ In z ys)
unfolding insert
In-insert z x [] = (
  λ m. elim m [ here e ↦ inl e | there n ↦ inr n ],
  λ s. elim s [ inl e ↦ here e | inr n ↦ there n ],
)
In-insert z x (y ∷ ys) = elim (Bool-cases (text_leb x y)) [
  | inl b ↦ rw b (
    λ m. elim m [ here e ↦ inl e | there n ↦ inr n ],
    λ s. elim s [ inl e ↦ here e | inr n ↦ there n ],
  )
  | inr b ↦ rw b (
    λ m. elim m [
      | here e ↦ inr (here e)
      | there n ↦ elim ((In-insert z x ys).0 n) [ inl e ↦ inl e | inr k ↦ inr (there k) ]
    ],
    λ s. elim s [
      | inl e ↦ there ((In-insert z x ys).1 (inl e))
      | inr n ↦ elim n [ here e ↦ here e | there k ↦ there ((In-insert z x ys).1 (inr k)) ]
    ],
  )
]

pub All-insert :
    (P : String → Type 0) (x : String) (ys : List String) → P x → All P ys → All P (insert x ys)
unfolding insert
All-insert P x [] p a = (p, tt)
All-insert P x (y ∷ ys) p a = elim (Bool-cases (text_leb x y)) [
  | inl b ↦ rw b (p, a)
  | inr b ↦ rw b (a.0, All-insert P x ys p a.1)
]

text_leb-Before : (x y : String) → text_leb x y ≡ true → y ≢ x → Before x y
text_leb-Before x y h n = elim (Bool-cases (text_leb y x)) [
  | inl b ↦ absurd (n (text_leb-antisymmetric y x b h))
  | inr b ↦ b
]

pub insert-Ordered :
    (x : String) (ys : List String) → Ordered ys → All (λ y. y ≢ x) ys → Ordered (insert x ys)
unfolding insert
insert-Ordered x [] o n = (tt, tt)
insert-Ordered x (y ∷ ys) o n = elim (Bool-cases (text_leb x y)) [
  | inl b ↦
      let first = text_leb-Before x y b n.0 in rw b ((first, All-Before-trans x y ys first o.0), o)
  | inr b ↦ rw b (All-insert (Before y) x ys b o.0, insert-Ordered x ys o.1 n.1)
]
