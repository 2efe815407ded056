-- ===== src/Subscriber/Service/Pages.antt =====
-- internal/subscriber/service.go: the pages that `ListPlans` and `ListSubscribers` return over the
-- in-memory store.
use my_demo_app.Prelude.{ℕ, ◌-◌, ◌^◌, ◌<◌, ◌≡◌, ap, List, map, arith, take, drop}
use my_demo_app.Prelude.Int.{pos_part, ◌-ℤ◌, pos}
use my_demo_app.Word.{wrap64, sub64}
use my_demo_app.Text.{Str}
use my_demo_app.Text.Trim.{trim_space}
use my_demo_app.Exec.{ok}
use my_demo_app.Subscriber.{Plan, Subscriber}
use my_demo_app.Subscriber.Service.{World, default_limit, list_plans, list_subscribers}
use my_demo_app.Store.Assoc.{values}
use my_demo_app.Store.Filter.{keep_if}
use my_demo_app.Store.Sort.{sort_by}
use my_demo_app.Store.Page.{paginate, paginate_lem}
use my_demo_app.Store.Memory
use my_demo_app.Store.Memory.{MemoryStore, memory_store, matches}

-- The plans in the order of their IDs.
abbrev pub sorted_plans : MemoryStore → List Plan
sorted_plans m = sort_by (λ (p : Plan). p.id) (values m.plans)

-- The subscribers that match the search, in the order of their IDs.
abbrev pub found_subscribers : (ℕ → ℕ) → Str → MemoryStore → List Subscriber
found_subscribers lower search m =
    sort_by (λ (s : Subscriber). s.id)
      (keep_if (matches lower (map lower (trim_space search))) (values m.subscribers))

-- One off: the page starts at the item before `offset`, and at the first for both 0 and 1.
page_before :
    {A : Type 0} (items : List A) (limit offset : ℕ)
    → 0 < limit
    → offset < 2 ^ 63
    → paginate items (default_limit (pos limit)) (sub64 (pos offset) (pos 1))
      ≡ take limit (drop (offset - 1) items)
page_before items limit offset positive small =
    let start : pos_part (sub64 (pos offset) (pos 1)) ≡ offset - 1 =
      unfold sub64 wrap64 ◌-ℤ◌ in ground arith in
    let size : default_limit (pos limit) ≡ pos limit = unfold default_limit in ground arith in
    rw (paginate_lem, start, size) (ground arith)

-- With a positive limit and an offset below 2 ^ 63, ListPlans and ListSubscribers over the
-- in-memory store return up to limit items of the sorted list from the item before number offset
-- on, and change nothing.
pub list-page :
    (lower : ℕ → ℕ) (search : Str) (limit offset : ℕ) (w : World MemoryStore)
    → 0 < limit
    → offset < 2 ^ 63
    → (list_plans (memory_store lower) (pos limit) (pos offset) w
        ≡ (ok (take limit (drop (offset - 1) (sorted_plans w.store))), w))
      × (list_subscribers (memory_store lower) search (pos limit) (pos offset) w
          ≡ (ok (take limit (drop (offset - 1) (found_subscribers lower search w.store))), w))
unfolding list_plans list_subscribers memory_store Memory.list_plans Memory.list_subscribers
list-page lower search limit offset w positive small = (
  ap (λ ps. (ok ps, w)) (page_before (sorted_plans w.store) limit offset positive small),
  ap (λ ss. (ok ss, w))
      (page_before (found_subscribers lower search w.store) limit offset positive small),
)
