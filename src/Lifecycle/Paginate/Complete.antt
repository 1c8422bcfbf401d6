-- ===== src/Lifecycle/Paginate/Complete.antt =====
-- Over a list API that serves a fixed inventory page by page, `paginate` returns that inventory.
use Prim.Native.Nat.{min}
use alchemy_alibaba.Prelude.{
  ℕ, zero, suc, ◌+◌, ◌-◌, ◌*◌, ◌≤◌, ◌<◌, ◌≡◌, refl, sym, ap, ◌∙◌, ◌⊎◌, inl, inr, true, false, List,
  [], ◌∷◌, ◌++◌, Option, none, some, length, take, drop, arith, Bool-cases,
}
use alchemy_alibaba.Effect.{Result, ok, Effect, continue}
use alchemy_alibaba.Errors.{Failure}
use alchemy_alibaba.Errors.Classify.{or_else}
use alchemy_alibaba.Lifecycle.Paginate.{
  Page, Paging, size_of, pages_of, reached_end, return_or_continue, drain, paginate,
}

module _ {ℓ} {A : Type ℓ} where
  take-nil : (n : ℕ) → take {A = A} n [] ≡ []
  take-nil zero = refl
  take-nil (suc n) = refl

  pub take-add : (n m : ℕ) (xs : List A) → take (n + m) xs ≡ take n xs ++ take m (drop n xs)
  take-add zero m xs = ap (λ k. take k xs) (omega arith)
  take-add (suc n) m [] = take-nil (suc n + m) ∙ sym (take-nil m)
  take-add (suc n) m (x ∷ xs) =
      let same : suc n + m ≡ suc (n + m) = omega arith in
      ap (λ k. take k (x ∷ xs)) same ∙ ap (λ l. x ∷ l) (take-add n m xs)

  pub take_all : (n : ℕ) (xs : List A) → length xs ≤ n → take n xs ≡ xs
  take_all zero [] h = refl
  take_all zero (x ∷ xs) h = absurd (omega arith)
  take_all (suc n) [] h = refl
  take_all (suc n) (x ∷ xs) h = ap (λ l. x ∷ l) (take_all n xs (omega arith))

  pub length-take : (n : ℕ) (xs : List A) → length (take n xs) ≡ min n (length xs)
  length-take zero xs = omega arith
  length-take (suc n) [] = omega arith
  length-take (suc n) (x ∷ xs) = omega (arith, length-take n xs)

  pub length-drop : (n : ℕ) (xs : List A) → length (drop n xs) ≡ length xs - n
  length-drop zero xs = omega arith
  length-drop (suc n) [] = omega arith
  length-drop (suc n) (x ∷ xs) = omega (arith, length-drop n xs)

-- The end test, on the pages of an inventory that reports `none` or its length.
module _ {A : Type 0} (inventory : List A) (size m : ℕ) (fits : m ≤ length inventory) where
  reached_at_end :
      (total : Option ℕ)
      → (total ≡ none) ⊎ (total ≡ some (length inventory))
      → reached_end size (take (m + size) inventory) total (take size (drop m inventory)) ≡ true
      → length inventory ≤ m + size
  unfolding reached_end
  reached_at_end none t h =
      ground (arith, length-take size (drop m inventory), length-drop m inventory)
  reached_at_end (some n) t h = ground (arith, length-take (m + size) inventory)

  not_reached_before :
      (total : Option ℕ)
      → (total ≡ none) ⊎ (total ≡ some (length inventory))
      → reached_end size (take (m + size) inventory) total (take size (drop m inventory)) ≡ false
      → m + size ≤ length inventory
  unfolding reached_end
  not_reached_before none t h =
      ground (arith, length-take size (drop m inventory), length-drop m inventory)
  not_reached_before (some n) t h = ground (arith, length-take (m + size) inventory)

module _ {W A : Type 0} (o : Paging) (page : ℕ → ℕ → Effect W Failure (Page A)) (inventory : List A)
    (total : Option ℕ) where
  -- The page with number `n + 1` holds the items from `n * size` on, whatever the world.
  abbrev pub Serves : Type 0
  Serves =
      (n : ℕ) (s : W)
      → (t : W) × (page (suc n) (size_of o) s ≡ (
        ok (record {
          items = take (size_of o) (drop (n * size_of o) inventory);
          total_count = total;
        }),
        t,
      ))

  module _ (serves : Serves) (reports : (total ≡ none) ⊎ (total ≡ some (length inventory))) where
    -- One round that returns, and one that goes on, over an API that answers for this inventory.
    abbrev round :
        (List A → Option ℕ → Effect W Failure (List A))
        → ℕ
        → Option ℕ
        → W
        → Result Failure (List A) × W
    round more m before t =
        continue (return_or_continue o page more (take m inventory) before)
          (ok (record { items = take (size_of o) (drop m inventory); total_count = total }), t)

    round_returns :
        (more : List A → Option ℕ → Effect W Failure (List A)) (m : ℕ) (before : Option ℕ) (t : W)
        → or_else total before ≡ total
        → reached_end
            (size_of o)
            (take (m + size_of o) inventory)
            total
            (take (size_of o) (drop m inventory))
          ≡ true
        → round more m before t ≡ (ok (take (m + size_of o) inventory), t)
    round_returns more m before t b h =
        rw (b, ← take-add m (size_of o) inventory, h, return_or_continue)
          (rw (take-add m (size_of o) inventory))

    round_goes_on :
        (more : List A → Option ℕ → Effect W Failure (List A)) (m : ℕ) (before : Option ℕ) (t : W)
        → or_else total before ≡ total
        → reached_end
            (size_of o)
            (take (m + size_of o) inventory)
            total
            (take (size_of o) (drop m inventory))
          ≡ false
        → round more m before t ≡ more (take (m + size_of o) inventory) total t
    round_goes_on more m before t b h =
        rw (b, ← take-add m (size_of o) inventory, h, return_or_continue)
          (rw (take-add m (size_of o) inventory, b))

    or_else-none : or_else total none ≡ total
    or_else-none = ground arith

    or_else-same : or_else total total ≡ total
    or_else-same = ground arith

    drain_complete :
        (left n m : ℕ) (before : Option ℕ) (s : W)
        → m ≡ n * size_of o
        → or_else total before ≡ total
        → m ≤ length inventory
        → length inventory < m + left * size_of o
        → (u : W) × (drain o page left (suc n) (take m inventory) before s ≡ (ok inventory, u))
    unfolding drain
    drain_complete zero n m before s e b fits bound = absurd (omega arith)
    drain_complete (suc left) n m before s e b fits bound =
        let (t, answer) = serves n s in
        let more = drain o page left (suc n + 1) in
        let start : continue (return_or_continue o page more (take m inventory) before)
              (page (suc n) (size_of o) s)
            ≡ round more m before t =
          rw (answer, e) in
        elim (Bool-cases (
          reached_end (size_of o) (take (m + size_of o) inventory) total
            (take (size_of o) (drop m inventory)))) [
              | inl h ↦ (
                t,
                start
                    ∙ round_returns more m before t b h
                    ∙ ap (λ l. (ok l, t))
                        (take_all (m + size_of o) inventory
                          (reached_at_end inventory (size_of o) m fits total reports h)),
              )
              | inr h ↦
                  let (u, rest) =
                    drain_complete left (suc n) (m + size_of o) total t (omega arith) or_else-same
                      (not_reached_before inventory (size_of o) m fits total reports h)
                      (omega arith) in
                  let same : suc n + 1 ≡ suc (suc n) = omega arith in
                  (
                    u,
                    start
                        ∙ round_goes_on more m before t b h
                        ∙ ap (λ k. drain o page left k (take (m + size_of o) inventory) total t)
                            same
                        ∙ rest,
                  )
            ]

    -- If the API serves a fixed inventory, reporting always or never its length, and the inventory
    -- is smaller than the allowed pages can hold, then `paginate` returns exactly the inventory.
    pub paginate_complete :
        (s : W)
        → length inventory < pages_of o * size_of o
        → (u : W) × (paginate o page s ≡ (ok inventory, u))
    unfolding paginate
    paginate_complete s bound =
        drain_complete (pages_of o) 0 0 none s (omega arith) or_else-none (omega arith)
          (omega arith)
