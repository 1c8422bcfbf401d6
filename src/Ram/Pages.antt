-- ===== src/Ram/Pages.antt =====
-- What `pages` of src/ram/internal.ts returns.
use mathlib.Core.List.{append_assoc}
use alchemy_alibaba.Prelude.{
  ℕ, zero, suc, ◌≤◌, String, false, List, [], ◌∷◌, ◌++◌, Option, none, some, str_eq, ◌≡◌, refl, sym,
  ◌∙◌, subst, arith, any, Bool-cases, Option-cases, inl, inr,
}
use alchemy_alibaba.Effect.{Result, ok, Effect, ok_injective}
use alchemy_alibaba.Effect.Chain.{chain-steps}
use alchemy_alibaba.Errors.{Failure}
use alchemy_alibaba.Provider.{is_given}
use alchemy_alibaba.Ram.Client.{MarkedPage, follow_markers, pages, after_page}

module _ {W V : Type 0} (operation : String)
    (fetch : Option String → Effect W Failure (MarkedPage V)) where
  -- Pages fetched one after another, each with the marker that the one before named, up to the first
  -- that names none: their number, their items, and the world after them.
  pub data Fetched : Option String → W → ℕ → List V → W → Type 0 where
    last_page :
        {marker : Option String} {s : W} {page : MarkedPage V} {u : W}
        → fetch marker s ≡ (ok page, u)
        → is_given page.next ≡ false
        → Fetched marker s 1 page.items u
    one_more :
        {marker : Option String} {s : W} {page : MarkedPage V} {k : String} {t : W} {n : ℕ}
        {rest : List V} {u : W}
        → fetch marker s ≡ (ok page, t)
        → page.next ≡ some k
        → Fetched (some k) t n rest u
        → Fetched marker s (suc n) (page.items ++ rest) u

  -- Some pages, no more than the limit, whose items follow those that were found before.
  pub record FetchedAll (limit : ℕ) (marker : Option String) (s : W) (found items : List V) (u : W)
      : Type 0 where
    pub number : ℕ
    pub rest : List V
    pub in_limit : number ≤ limit
    pub fetched : Fetched marker s number rest u
    pub all_items : items ≡ found ++ rest

  after_page-last :
      (left : ℕ) (marker : Option String) (visited : List String) (found : List V)
      (page : MarkedPage V) {s t u : W} {items : List V}
      → fetch marker s ≡ (ok page, t)
      → is_given page.next ≡ false
      → ◌≡◌ {A = Result Failure (List V) × W} (ok (found ++ page.items), t) (ok items, u)
      → FetchedAll (suc left) marker s found items u
  after_page-last left marker visited found page {s} {t} {u} e g h =
      let (same, there) = ok_injective h in
      record {
        number = 1;
        rest = page.items;
        in_limit = omega arith;
        fetched = subst (λ w. Fetched marker s 1 page.items w) there (last_page e g);
        all_items = sym same;
      }

  follow_markers-all :
      (left : ℕ) (marker : Option String) (visited : List String) (found : List V) (s : W)
      {items : List V} {u : W}
      → follow_markers operation fetch left marker visited found s ≡ (ok items, u)
      → FetchedAll left marker s found items u
  unfolding follow_markers
  follow_markers-all zero marker visited found s h = cc
  follow_markers-all (suc left) marker visited found s {items} {u} h =
      let (page, t, after, first) = chain-steps (fetch marker) _ s h in
      elim (Option-cases page.next) [
        | inl e ↦
            after_page-last left marker visited found page first (rw e refl)
              (rw (after_page, e) at after)
        | inr (k, e) ↦ elim (Bool-cases (str_eq k "")) [
          | inl b ↦
              after_page-last left marker visited found page first (rw (e, b) refl)
                (rw (after_page, e, b) at after)
          | inr b ↦ elim (Bool-cases (any (str_eq k) visited)) [
            | inl v ↦ cc
            | inr v ↦
                let x =
                  follow_markers-all left (some k) (k ∷ visited) (found ++ page.items) t
                    (rw (after_page, e, b, v) at after) in
                record {
                  number = suc x.number;
                  rest = page.items ++ x.rest;
                  in_limit = omega (arith, x.in_limit);
                  fetched = one_more first e x.fetched;
                  all_items = x.all_items ∙ append_assoc found page.items x.rest;
                }
          ]
        ]
      ]

  -- If `pages` returns, its items are those of a run of at most 200 pages, in their order, each
  -- fetched with the marker that the page before it named, the first without a marker, and the
  -- last of which names no next marker.
  pub pages-Fetched :
      (s u : W) (items : List V)
      → pages operation fetch s ≡ (ok items, u)
      → (n : ℕ) × (n ≤ 200) × Fetched none s n items u
  unfolding pages
  pages-Fetched s u items h =
      let x = follow_markers-all 200 none [] [] s h in
      (x.number, x.in_limit, subst (λ l. Fetched none s x.number l u) (sym x.all_items) x.fetched)
