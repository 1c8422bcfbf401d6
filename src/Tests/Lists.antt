-- ===== src/Tests/Lists.antt =====
-- Draining a list API, deleting and comparing tags at concrete inputs.
use alchemy_alibaba.Prelude.{
  ℕ, zero, suc, ◌*◌, ◌+◌, ◌≡◌, ◌↔◌, refl, inr, true, List, [], ◌∷◌, Option, none, some, take, drop,
  arith, String, leb,
}
use alchemy_alibaba.Effect.{ok, fail, Effect}
use alchemy_alibaba.Errors.{ecs, Failure}
use alchemy_alibaba.Lifecycle.Paginate.{Page, Paging, paginate, drain, reached_end}
use alchemy_alibaba.Lifecycle.Paginate.Evidence.{Drained, paginate-Drained}
use alchemy_alibaba.Lifecycle.Paginate.Complete.{paginate_complete}
use alchemy_alibaba.Lifecycle.Delete.{
  request_or_continue_delete, DeleteEnds, request_or_continue_delete-iff_DeleteEnds,
}
use alchemy_alibaba.Lifecycle.Identity.Tags.{TagRecord, lookup, tags_equal, tags_equal_iff}

abbrev paging : Paging
paging = record {
  service = ecs;
  operation = "DescribeDisks";
  page_size = some 2;
  max_pages = some 3;
}

abbrev inventory : List ℕ
inventory = 3 ∷ 1 ∷ 4 ∷ 1 ∷ 5 ∷ []

-- The world counts the requests.
abbrev page : ℕ → ℕ → Effect ℕ Failure (Page ℕ)
page zero size s = (ok (record { items = []; total_count = some 5 }), s + 1)
page (suc n) size s =
    (ok (record { items = take size (drop (n * size) inventory); total_count = some 5 }), s + 1)

drained : paginate paging page 0 ≡ (ok inventory, 3)
unfolding paginate drain reached_end
drained = refl

paginate-Drained_example : Drained paging page 3 1 0 [] none inventory 3
paginate-Drained_example = paginate-Drained paging page 0 3 inventory drained

paginate_complete_example : (u : ℕ) × (paginate paging page 0 ≡ (ok inventory, u))
paginate_complete_example =
    paginate_complete paging page inventory (some 5) (λ n s. (s + 1, refl)) (inr refl) 0
      (omega arith)

-- A database that is being deleted: the request is rejected, and the read shows its state.
abbrev rejecting : Effect ℕ String ℕ
rejecting s = (fail "InvalidStatus", s + 1)

abbrev reading : Effect ℕ String (Option ℕ)
reading s = (ok (some s), s + 1)

request_or_continue_delete-iff_DeleteEnds_example :
    (request_or_continue_delete rejecting reading (leb 1) 0 ≡ (ok none, 2))
    ↔ DeleteEnds rejecting reading (leb 1) 0 (ok none) 2
request_or_continue_delete-iff_DeleteEnds_example =
    request_or_continue_delete-iff_DeleteEnds rejecting reading (leb 1) 0 2 (ok none)

abbrev tags : TagRecord
tags = ("team", "data") ∷ ("stage", "test") ∷ []

abbrev swapped : TagRecord
swapped = ("stage", "test") ∷ ("team", "data") ∷ []

tags_equal_iff_example :
    (tags_equal tags swapped ≡ true) ↔ ((k : String) → lookup k tags ≡ lookup k swapped)
unfolding lookup
tags_equal_iff_example = tags_equal_iff tags swapped (refl, (refl, tt)) (refl, (refl, tt))
