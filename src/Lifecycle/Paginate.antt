-- ===== src/Lifecycle/Paginate.antt =====
-- `paginate` of src/internal/lifecycle.ts: drain a page-numbered list API, or fail.
pub mod Evidence
pub mod Complete
use alchemy_alibaba.Prelude.{
  ℕ, zero, suc, ◌+◌, String, Bool, true, false, List, [], ◌∷◌, ◌++◌, Option, none, some, length,
  ltb, leb,
}
use alchemy_alibaba.Effect.{Result, ok, fail, Effect, succeed, raise, ◌>>=◌}
use alchemy_alibaba.Errors.{Service, Failure, pagination_limit}
use alchemy_alibaba.Errors.Classify.{or_else, get_or}

pub record Page (A : Type 0) : Type 0 where
  pub items : List A
  pub total_count : Option ℕ

-- The options of `paginate` but `page` itself.
pub record Paging : Type 0 where
  pub service : Service
  pub operation : String
  pub page_size : Option ℕ
  pub max_pages : Option ℕ

abbrev pub size_of : Paging → ℕ
size_of o = get_or o.page_size 50

abbrev pub pages_of : Paging → ℕ
pages_of o = get_or o.max_pages 200

module _ {A : Type 0} where
  -- `reachedReportedTotal || reachedShortPage`, of the size, all items, the reported total and
  -- the items of the last page.
  unfoldable pub reached_end : ℕ → List A → Option ℕ → List A → Bool
  reached_end size items (some total) last = leb total (length items)
  reached_end size items none last = ltb (length last) size

module _ {W A : Type 0} (o : Paging) (page : ℕ → ℕ → Effect W Failure (Page A)) where
  -- The rest of a round: return all items, or go on with them and the reported total.
  abbrev pub return_or_continue :
      (List A → Option ℕ → Effect W Failure (List A))
      → List A
      → Option ℕ
      → Page A
      → Effect W Failure (List A)
  return_or_continue more items total p =
      elim (reached_end (size_of o) (items ++ p.items) (or_else p.total_count total) p.items) [
        | true ↦ succeed (items ++ p.items)
        | false ↦ more (items ++ p.items) (or_else p.total_count total)
      ]

  -- The loop, with the pages left, the page number, the items and the reported total so far.
  unfoldable pub drain : ℕ → ℕ → List A → Option ℕ → Effect W Failure (List A)
  drain zero number items total = raise (
      pagination_limit (record {
        service = o.service;
        operation = o.operation;
        page_size = size_of o;
        max_pages = pages_of o;
        observed_items = length items;
        reported_total = total;
      }))
  drain (suc left) number items total =
      page number (size_of o) >>= return_or_continue (drain left (number + 1)) items total

  unfoldable pub paginate : Effect W Failure (List A)
  unfolding drain
  paginate = drain (pages_of o) 1 [] none
