-- ===== src/Store/Memory/Lists.antt =====
-- What the in-memory store lists: independent of the order of a map's iteration, sorted, and paged.
use mathlib.Core.List.Pairwise
use mathlib.Core.List.{Permᴰ}
use mathlib.Core.List.Permᴰ
use my_demo_app.Prelude.{
  ℕ, ◌≡◌, refl, ap, ◌∙◌, inl, inr, ◌&&◌, [], ◌∷◌, ◌++◌, map, if◌then◌else◌, Bool-cases,
}
use my_demo_app.Store.Memory.Laws.{records-add_usage}
use my_demo_app.Text.{Str, str_eq, str_eq_iff}
use mathlib.Core.List.{append-nil}
use my_demo_app.Text.Trim.{trim_space}
use my_demo_app.Prelude.Int.{ℤ}
use my_demo_app.Time.{Time}
use my_demo_app.Exec.{ok}
use my_demo_app.Subscriber.{Plan, Subscriber, UsageRecord}
use my_demo_app.Store.Assoc.{values}
use my_demo_app.Store.Keyed.{values-HasDistinct}
use my_demo_app.Store.Filter.{keep_if, keep_if-sublist, keep_if-append, keep_if-perm}
use my_demo_app.Store.Sort.{sort_by-perm}
use my_demo_app.Store.Page.{paginate}
use my_demo_app.Store.Memory.{
  MemoryStore, list_plans, records, add_usage, in_range, list_usage, matches, list_subscribers,
}
use my_demo_app.Store.Memory.Consistent.{IsConsistent}

-- On a consistent in-memory store, ListPlans returns the same page in whatever order the map of
-- plans is iterated.
pub list_plans-perm :
    (m m' : MemoryStore) (limit offset : ℤ)
    → IsConsistent m
    → Permᴰ m.plans m'.plans
    → list_plans limit offset m ≡ list_plans limit offset m'
unfolding list_plans
list_plans-perm m m' limit offset c p =
    ap (λ ps. ok (paginate ps limit offset))
      (sort_by-perm (λ (x : Plan). x.id) (Permᴰ.map (λ (e : Str × Plan). e.1) p)
        (values-HasDistinct (λ (x : Plan). x.id) m.plans c.plan_keys c.plan_ids))

-- On a consistent in-memory store, ListSubscribers returns the same page in whatever order the map
-- of subscribers is iterated.
pub list_subscribers-perm :
    (lower : ℕ → ℕ) (m m' : MemoryStore) (search : Str) (limit offset : ℤ)
    → IsConsistent m
    → Permᴰ m.subscribers m'.subscribers
    → list_subscribers lower search limit offset m ≡ list_subscribers lower search limit offset m'
unfolding list_subscribers
list_subscribers-perm lower m m' search limit offset c p =
    let test = matches lower (map lower (trim_space search)) in
    ap (λ ps. ok (paginate ps limit offset))
      (sort_by-perm (λ (x : Subscriber). x.id)
        (keep_if-perm test (Permᴰ.map (λ (e : Str × Subscriber). e.1) p))
        (Pairwise.sublistᴰ (keep_if-sublist test (values m.subscribers)) (
          values-HasDistinct (λ (x : Subscriber). x.id) m.subscribers c.subscriber_keys
            c.subscriber_ids)))

-- A recorded usage event is listed behind the earlier ones of its subscriber, exactly for the
-- ranges that contain its timestamp, the start included and the end not.
list_usage-add_usage :
    (u : UsageRecord) (m : MemoryStore) (id : Str) (from to : Time)
    → list_usage id from to (add_usage u m).1
      ≡ ok (
          keep_if (in_range from to) (records id m)
          ++ (if str_eq u.subscriber_id id && in_range from to u then u ∷ [] else []))
unfolding list_usage
list_usage-add_usage u m id from to =
    ap (λ us. ok (keep_if (in_range from to) us)) (records-add_usage u m id)
    ∙ elim (Bool-cases (str_eq u.subscriber_id id)) [
      | inl same ↦
          rw (same, (str_eq_iff u.subscriber_id id).0 same, keep_if-append) (unfold keep_if in refl)
      | inr other ↦ rw (other, append-nil)
    ]
