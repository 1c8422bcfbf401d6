-- ===== src/Gateway/Route/Decision.antt =====
-- What `planRoute` decides, in terms of the routes that cover the host.
use alchemy_alibaba.Prelude.{
  ℕ, ◌≤◌, ◌<◌, Bool, true, false, not, List, [], ◌∷◌, Option, ◌==◌, ==_iff, all, filter, In, here,
  there, In-filter, filter-In, ◌≡◌, ◌↔◌, ◌⊎◌, inl, inr, refl, sym, ap, ◌∙◌, arith, Bool-cases,
}
use native.Mathlib.Decide.{dec_lt}
use alchemy_alibaba.Effect.{Result, ok, fail}
use alchemy_alibaba.Gateway.Model.{AccessError, RouteEntryInfo, RoutePlan}
use alchemy_alibaba.Gateway.Route.{
  Covering, uses, prefix_of, max_prefix, RouteRequest, new_route, existing_route, refusal,
  choose_route, covering, most_specific, plan_covering, plan_route,
}
use alchemy_alibaba.Gateway.Route.Covers.{Covers, In-covering, covering-In}

-- The three decisions, over the routes that `P` says to cover the host.
module _ (q : RouteRequest) where
  pub data Decision (P : Covering → Type 0) : Result AccessError RoutePlan → Type 0 where
    fresh :
        ((c : Covering) → P c → (prefix_of c ≡ 0) × (uses q.peering_id c ≡ false))
        → Decision P (ok (new_route q))
    kept :
        (c : Covering)
        → P c
        → uses q.peering_id c ≡ true
        → ((d : Covering)
            → P d
            → (prefix_of d ≤ prefix_of c)
              × (prefix_of d ≡ prefix_of c → uses q.peering_id d ≡ true))
        → Decision P (ok (existing_route q c))
    refused :
        (c : Covering) (b : Bool)
        → P c
        → uses q.peering_id c ≡ false
        → ((d : Covering) → P d → prefix_of d ≤ prefix_of c)
        → (0 < prefix_of c)
          ⊎ ((d : Covering) × P d × (prefix_of d ≡ prefix_of c) × (uses q.peering_id d ≡ true))
        → Decision P (fail (refusal q b c))

  Decision-map :
      {P Q : Covering → Type 0} {r : Result AccessError RoutePlan}
      → ((c : Covering) → P c ↔ Q c)
      → Decision P r
      → Decision Q r
  Decision-map f (fresh h) = fresh (λ c m. h c ((f c).1 m))
  Decision-map f (kept c m u h) = kept c ((f c).0 m) u (λ d n. h d ((f d).1 n))
  Decision-map f (refused c b m u h w) =
      refused c b ((f c).0 m) u (λ d n. h d ((f d).1 n))
        (elim w [ inl x ↦ inl x | inr (d, n, e, v) ↦ inr (d, (f d).0 n, e, v) ])

prefix-le-max : (c : Covering) (cs : List Covering) → In c cs → prefix_of c ≤ max_prefix cs
unfolding max_prefix
prefix-le-max c [] m = elim m [ ]
prefix-le-max c (x ∷ cs) (here e) = omega (arith, ap prefix_of e)
prefix-le-max c (x ∷ cs) (there m) = omega (arith, prefix-le-max c cs m)

-- Some route has the greatest prefix.
max-attained :
    (c : Covering) (cs : List Covering)
    → (d : Covering) × In d (c ∷ cs) × (prefix_of d ≡ max_prefix (c ∷ cs))
unfolding max_prefix
max-attained c [] = (c, here refl, omega arith)
max-attained c (x ∷ cs) =
    let (d, m, e) = max-attained x cs in
    elim (dec_lt (prefix_of c) (max_prefix (x ∷ cs))) [
      | yes h ↦ (d, there m, omega (arith, e))
      | no h ↦ (c, here refl, omega (arith, e))
    ]

all-of :
    (p : Covering → Bool) (cs : List Covering)
    → ((c : Covering) → In c cs → p c ≡ true)
    → all p cs ≡ true
all-of p [] h = refl
all-of p (c ∷ cs) h = rw (h c (here refl), all-of p cs (λ d m. h d (there m)))

-- `choose_route` decides, if its lists hold the most specific routes, split by the peering.
module _ (q : RouteRequest) (cs : List Covering) where
  abbrev Member : Covering → Type 0
  Member c = In c cs

  -- A list holds the routes with the greatest prefix for which the test has one answer.
  record Holds (b : Bool) (l : List Covering) : Type 0 where
    only :
        (c : Covering)
        → In c l
        → Member c × (prefix_of c ≡ max_prefix cs) × (uses q.peering_id c ≡ b)
    every :
        (c : Covering) → Member c → prefix_of c ≡ max_prefix cs → uses q.peering_id c ≡ b → In c l

  -- The answer for a route that one of the lists would hold, were it not empty.
  other_answer :
      (b : Bool)
      → Holds b []
      → (c : Covering) → Member c
      → prefix_of c ≡ max_prefix cs
      → uses q.peering_id c ≡ not b
  other_answer true h c m e = elim (Bool-cases (uses q.peering_id c)) [
    | inl u ↦ elim (h.every c m e u) [ ]
    | inr u ↦ u
  ]
  other_answer false h c m e = elim (Bool-cases (uses q.peering_id c)) [
    | inl u ↦ u
    | inr u ↦ elim (h.every c m e u) [ ]
  ]

  choose-Decision :
      (top : Covering)
      → Member top
      → prefix_of top ≡ max_prefix cs
      → (via foreign : List Covering) → Holds true via
      → Holds false foreign
      → Decision q Member (choose_route q via foreign)
  unfolding choose_route
  choose-Decision top m e [] [] hv hf =
      cc (other_answer true hv top m e, other_answer false hf top m e)
  choose-Decision top m e [] (f ∷ foreign) hv hf =
      let (fm, fe, fu) = hf.only f (here refl) in
      elim (dec_lt 0 (prefix_of f)) [
        | yes positive ↦
            let test : all (λ c. prefix_of c == 0) (f ∷ foreign) ≡ false = ground arith in
            rw test (
              refused f false fm fu (λ d n. omega (arith, prefix-le-max d cs n, fe)) (inl positive))
        | no zero_ ↦
            let test : all (λ c. prefix_of c == 0) (f ∷ foreign) ≡ true =
              all-of (λ c. prefix_of c == 0) (f ∷ foreign)
                (λ c n. (==_iff (prefix_of c) 0).1 (omega (arith, (hf.only c n).1, fe))) in
            rw test (
              fresh (λ c n. (
                omega (arith, prefix-le-max c cs n, fe),
                other_answer true hv c n (omega (arith, prefix-le-max c cs n, fe)),
              )))
      ]
  choose-Decision top m e (v ∷ via) [] hv hf =
      let (vm, ve, vu) = hv.only v (here refl) in
      kept v vm vu (λ d n.
        (omega (arith, prefix-le-max d cs n, ve), λ same. other_answer false hf d n (same ∙ ve)))
  choose-Decision top m e (v ∷ via) (f ∷ foreign) hv hf =
      let (vm, ve, vu) = hv.only v (here refl) in
      let (fm, fe, fu) = hf.only f (here refl) in
      refused f true fm fu (λ d n. omega (arith, prefix-le-max d cs n, fe))
        (inr (v, vm, ve ∙ sym fe, vu))

  via-Holds : Holds true (filter (uses q.peering_id) (most_specific cs))
  via-Holds = record {
    only = λ c m.
        let (a, u) = In-filter (uses q.peering_id) (most_specific cs) m in
        let (b, e) = In-filter (λ d. prefix_of d == max_prefix cs) cs a in
        (b, (==_iff (prefix_of c) (max_prefix cs)).0 e, u);
    every = λ c m e u.
        filter-In (uses q.peering_id)
          (filter-In (λ d. prefix_of d == max_prefix cs) m
            ((==_iff (prefix_of c) (max_prefix cs)).1 e))
          u;
  }

  foreign-Holds : Holds false (filter (λ x. not (uses q.peering_id x)) (most_specific cs))
  foreign-Holds = record {
    only = λ c m.
        let (a, u) = In-filter (λ x. not (uses q.peering_id x)) (most_specific cs) m in
        let (b, e) = In-filter (λ d. prefix_of d == max_prefix cs) cs a in
        (b, (==_iff (prefix_of c) (max_prefix cs)).0 e, ground arith);
    every = λ c m e u.
        filter-In (λ x. not (uses q.peering_id x))
          (filter-In (λ d. prefix_of d == max_prefix cs) m
            ((==_iff (prefix_of c) (max_prefix cs)).1 e))
          (rw u);
  }

plan_covering-Decision :
    (q : RouteRequest) (cs : List Covering) → Decision q (λ c. In c cs) (plan_covering q cs)
plan_covering-Decision q [] = fresh (λ c m. elim m [ ])
plan_covering-Decision q (c ∷ cs) =
    let (top, m, e) = max-attained c cs in
    choose-Decision q (c ∷ cs) top m e (filter (uses q.peering_id) (most_specific (c ∷ cs)))
      (filter (λ x. not (uses q.peering_id x)) (most_specific (c ∷ cs))) (via-Holds q (c ∷ cs))
      (foreign-Holds q (c ∷ cs))

module _ (other_number : List ℕ → Option ℕ) where
  -- `planRoute` plans a new host route when every covering route is a default route that
  -- does not use the peering; it keeps a route of the table that uses the peering when all other
  -- covering routes are wider, or as specific and through the peering too; and it refuses because
  -- of a most specific route through another next hop, which is no default route or stands beside
  -- an equally specific route through the peering.
  pub plan_route-Decision :
      (q : RouteRequest) (routes : List RouteEntryInfo)
      → Decision q (Covers other_number q.peer_host routes) (plan_route other_number q routes)
  unfolding plan_route
  plan_route-Decision q routes =
      Decision-map q
        (λ c. (
          In-covering other_number q.peer_host routes,
          λ k. covering-In other_number q.peer_host routes c k.listed k.parsed k.holds,
        ))
        (plan_covering-Decision q (covering other_number q.peer_host routes))
