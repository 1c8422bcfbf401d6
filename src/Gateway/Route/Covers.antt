-- ===== src/Gateway/Route/Covers.antt =====
-- The routes of a table that cover a host: what `covering` collects for `planRoute`.
use alchemy_alibaba.Prelude.{
  ℕ, String, Bool, true, false, List, [], ◌∷◌, Option, none, some, In, here, there, ◌≡◌, inl, inr,
  refl, sym, Bool-cases, subst,
}
use alchemy_alibaba.Gateway.Model.{RouteEntryInfo}
use alchemy_alibaba.Gateway.Address.{Range, parse_cidr, cidr_contains}
use alchemy_alibaba.Gateway.Route.{Covering, covering, keep_covering}

module _ (other_number : List ℕ → Option ℕ) where
  -- The route stands in the table, its block is well formed with that range, and holds the host.
  pub record Covers (host : String) (routes : List RouteEntryInfo) (c : Covering) : Type 0 where
    pub listed : In c.0 routes
    pub parsed : parse_cidr other_number c.0.destination_cidr_block ≡ some c.1
    pub holds : cidr_contains other_number c.0.destination_cidr_block host ≡ true

  Covers-later :
      {host : String} {routes : List RouteEntryInfo} {c : Covering} {r : RouteEntryInfo}
      → Covers host routes c
      → Covers host (r ∷ routes) c
  Covers-later k = record { listed = there k.listed; parsed = k.parsed; holds = k.holds }

  Covers-first :
      (host : String) (r : RouteEntryInfo) (routes : List RouteEntryInfo) {c : Covering}
      (range : Range)
      → parse_cidr other_number r.destination_cidr_block ≡ some range
      → cidr_contains other_number r.destination_cidr_block host ≡ true
      → In c ((r, range) ∷ covering other_number host routes)
      → (In c (covering other_number host routes) → Covers host routes c)
      → Covers host (r ∷ routes) c
  Covers-first host r routes range e h (here p) later =
      subst (Covers host (r ∷ routes)) (sym p)
        (record { listed = here refl; parsed = e; holds = h })
  Covers-first host r routes range e h (there m) later = Covers-later (later m)

  In-keep_covering :
      (host : String) (r : RouteEntryInfo) (routes : List RouteEntryInfo) {c : Covering}
      (o : Option Range) (b : Bool)
      → parse_cidr other_number r.destination_cidr_block ≡ o
      → cidr_contains other_number r.destination_cidr_block host ≡ b
      → In c (keep_covering other_number host r o (covering other_number host routes))
      → (In c (covering other_number host routes) → Covers host routes c)
      → Covers host (r ∷ routes) c
  In-keep_covering host r routes none b e h m later = Covers-later (later m)
  In-keep_covering host r routes (some range) true e h m later =
      Covers-first host r routes range e h (rw h at m) later
  In-keep_covering host r routes (some range) false e h m later = Covers-later (later (rw h at m))

  keep_covering-later :
      (host : String) (r : RouteEntryInfo) (rest : List Covering) {c : Covering} (o : Option Range)
      → In c rest
      → In c (keep_covering other_number host r o rest)
  keep_covering-later host r rest none m = m
  keep_covering-later host r rest (some range) m =
      elim (Bool-cases (cidr_contains other_number r.destination_cidr_block host)) [
        | inl h ↦ rw h (there m)
        | inr h ↦ rw h m
      ]

  pub In-covering :
      (host : String) (routes : List RouteEntryInfo) {c : Covering}
      → In c (covering other_number host routes)
      → Covers host routes c
  unfolding covering
  In-covering host [] m = elim m [ ]
  In-covering host (r ∷ routes) m =
      In-keep_covering host r routes (parse_cidr other_number r.destination_cidr_block)
        (cidr_contains other_number r.destination_cidr_block host) refl refl m
        (In-covering host routes)

  pub covering-In :
      (host : String) (routes : List RouteEntryInfo) (c : Covering)
      → In c.0 routes
      → parse_cidr other_number c.0.destination_cidr_block ≡ some c.1
      → cidr_contains other_number c.0.destination_cidr_block host ≡ true
      → In c (covering other_number host routes)
  unfolding covering
  covering-In host [] c m e h = elim m [ ]
  covering-In host (r ∷ routes) c (here p) e h = rw (rw p at e, rw p at h) (here (λ i. (p i, c.1)))
  covering-In host (r ∷ routes) c (there m) e h =
      keep_covering-later host r (covering other_number host routes)
        (parse_cidr other_number r.destination_cidr_block) (covering-In host routes c m e h)
