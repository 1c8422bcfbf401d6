-- ===== src/Lifecycle/Paginate/Evidence.antt =====
-- Whatever a list API answers, `paginate` returns items only with the evidence that they are all.
use alchemy_alibaba.Prelude.{
  ℕ, zero, suc, ◌+◌, ◌≤◌, ◌<◌, ◌≡◌, refl, sym, ◌∙◌, subst, inl, inr, true, List, [], ◌∷◌, ◌++◌,
  Option, none, some, length, arith, Bool-cases,
}
use mathlib.Core.List.{append-nil, append_assoc}
use alchemy_alibaba.Effect.{Result, ok, fail, Effect, continue, ok_injective}
use alchemy_alibaba.Errors.{Failure}
use alchemy_alibaba.Errors.Classify.{or_else}
use alchemy_alibaba.Lifecycle.Paginate.{
  Page, Paging, size_of, pages_of, reached_end, return_or_continue, drain, paginate,
}

-- All items of the pages, and the last total that a page reported.
abbrev pub items_of : {A : Type 0} → List (Page A) → List A
items_of [] = []
items_of (p ∷ ps) = p.items ++ items_of ps

abbrev pub total_of : {A : Type 0} → Option ℕ → List (Page A) → Option ℕ
total_of before [] = before
total_of before (p ∷ ps) = total_of (or_else p.total_count before) ps

-- The items of the last page.
abbrev pub last_items : {A : Type 0} → List A → List (Page A) → List A
last_items before [] = before
last_items before (p ∷ ps) = last_items p.items ps

module _ {W A : Type 0} (o : Paging) (page : ℕ → ℕ → Effect W Failure (Page A)) where
  -- The pages with successive numbers from `number` that the API answered.
  pub data PagesRead : ℕ → W → List (Page A) → W → Type 0 where
    last_page :
        {number : ℕ} {s : W} {p : Page A} {t : W}
        → page number (size_of o) s ≡ (ok p, t)
        → PagesRead number s (p ∷ []) t
    next_page :
        {number : ℕ} {s : W} {p : Page A} {ps : List (Page A)} {t u : W}
        → page number (size_of o) s ≡ (ok p, t)
        → PagesRead (number + 1) t ps u
        → PagesRead number s (p ∷ ps) u

  -- The pages prove that the inventory ends: the last reported total is reached, or no page
  -- reported a total and the last one is short.
  pub data ProvesEnd (before : Option ℕ) (items : List A) (ps : List (Page A)) : Type 0 where
    reached_total :
        (total : ℕ)
        → total_of before ps ≡ some total
        → total ≤ length items
        → ProvesEnd before items ps
    short_page :
        total_of before ps ≡ none
        → length (last_items [] ps) < size_of o
        → ProvesEnd before items ps

  pub record Drained (left number : ℕ) (s : W) (before : List A) (total : Option ℕ) (items : List A)
      (u : W) : Type 0 where
    pub pages : List (Page A)
    pub read : PagesRead number s pages u
    pub within : length pages ≤ left
    pub all_items : items ≡ before ++ items_of pages
    pub ends : ProvesEnd total items pages

  last_items-read :
      {number : ℕ} {s u : W} {ps : List (Page A)} (b c : List A)
      → PagesRead number s ps u
      → last_items b ps ≡ last_items c ps
  last_items-read b c (last_page h) = refl
  last_items-read b c (next_page h rest) = refl

  ends_here :
      (total : Option ℕ) (items last : List A)
      → reached_end (size_of o) items total last ≡ true
      → (p : Page A) → p.items ≡ last
      → (before : Option ℕ) → or_else p.total_count before ≡ total
      → ProvesEnd before items (p ∷ [])
  unfolding reached_end
  ends_here (some total) items last h p e before f = reached_total total f (ground arith)
  ends_here none items last h p e before f = short_page f (rw e (ground arith))

  ends_later :
      (before : Option ℕ) (items : List A) (p : Page A) {number : ℕ} {s u : W} {ps : List (Page A)}
      → PagesRead number s ps u
      → ProvesEnd (or_else p.total_count before) items ps
      → ProvesEnd before items (p ∷ ps)
  ends_later before items p read (reached_total total e h) = reached_total total e h
  ends_later before items p read (short_page e h) =
      short_page e (subst (λ l. length l < size_of o) (last_items-read [] p.items read) h)

  -- The end of one round, and of all rounds after it.
  continue-Drained :
      (left number : ℕ) (before : List A) (total : Option ℕ) (s : W) {items : List A} {u : W}
      (more : List A → Option ℕ → Effect W Failure (List A))
      → ((b : List A) (c : Option ℕ) (t : W)
          → more b c t ≡ (ok items, u)
          → Drained left (number + 1) t b c items u)
      → (x : Result Failure (Page A) × W) → page number (size_of o) s ≡ x
      → continue (return_or_continue o page more before total) x ≡ (ok items, u)
      → Drained (suc left) number s before total items u
  continue-Drained left number before total s more later (fail e, t) r k = cc
  continue-Drained left number before total s {items} {u} more later (ok p, t) r k =
      elim (Bool-cases
        (reached_end (size_of o) (before ++ p.items) (or_else p.total_count total) p.items)) [
          | inl yes_ ↦
              let (a, c) = ok_injective (rw (yes_, return_or_continue) at k) in
              record {
                pages = p ∷ [];
                read = subst (λ z. PagesRead number s (p ∷ []) z) c (last_page r);
                within = omega arith;
                all_items = rw append-nil (sym a);
                ends =
                    subst (λ z. ProvesEnd total z (p ∷ [])) a
                      (ends_here (or_else p.total_count total) (before ++ p.items) p.items yes_ p
                        refl total refl);
              }
          | inr no_ ↦
              let d =
                later (before ++ p.items) (or_else p.total_count total) t
                  (rw (no_, return_or_continue) at k) in
              record {
                pages = p ∷ d.pages;
                read = next_page r d.read;
                within = omega (arith, d.within);
                all_items = d.all_items ∙ append_assoc before p.items (items_of d.pages);
                ends = ends_later total items p d.read d.ends;
              }
        ]

  drain-Drained :
      (left number : ℕ) (before : List A) (total : Option ℕ) (s : W) {items : List A} {u : W}
      → drain o page left number before total s ≡ (ok items, u)
      → Drained left number s before total items u
  unfolding drain
  drain-Drained zero number before total s h = cc
  drain-Drained (suc left) number before total s h =
      continue-Drained left number before total s (drain o page left (number + 1))
        (λ b c t. drain-Drained left (number + 1) b c t) (page number (size_of o) s) refl h

  -- If `paginate` returns items, it has read at most the allowed number of pages, numbered from 1;
  -- the items are all items of these pages in order; and either the last total that a page
  -- reported is reached, or no page reported a total and the last page was short.
  pub paginate-Drained :
      (s u : W) (items : List A)
      → paginate o page s ≡ (ok items, u)
      → Drained (pages_of o) 1 s [] none items u
  unfolding paginate
  paginate-Drained s u items h = drain-Drained (pages_of o) 1 [] none s h
