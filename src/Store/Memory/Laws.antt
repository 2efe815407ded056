-- ===== src/Store/Memory/Laws.antt =====
-- The in-memory store keeps what the `Store` interface promises.
use my_demo_app.Prelude.{ℕ, ◌≡◌, refl, none, some, [], ◌∷◌, ◌++◌, arith, if◌then◌else◌}
use my_demo_app.Text.{Str, str_eq}
use my_demo_app.Exec.{not_found, ok, err}
use my_demo_app.Subscriber.{Subscriber, UsageRecord}
use my_demo_app.Store.Assoc.{lookup, insert, lookup-insert}
use my_demo_app.Store.Db.{Db, IsStore}
use my_demo_app.Store.Memory.{
  MemoryStore, create_plan, get_plan, create_subscriber, get_subscriber, update_subscriber, records,
  add_usage, reset, memory_store,
}

abbrev pub view : MemoryStore → Db
view m = record {
  plans = λ k. lookup k m.plans;
  subscribers = λ k. lookup k m.subscribers;
  usage = λ k. records k m;
}

pub records-add_usage :
    (u : UsageRecord) (m : MemoryStore) (k : Str)
    → records k (add_usage u m).1
      ≡ (if str_eq u.subscriber_id k then records u.subscriber_id m ++ u ∷ [] else records k m)
unfolding add_usage
records-add_usage u m k =
    ground (arith, lookup-insert u.subscriber_id k (records u.subscriber_id m ++ u ∷ []) m.usage)

update_subscriber_some :
    (x y : Subscriber) (m : MemoryStore)
    → lookup x.id m.subscribers ≡ some y
    → update_subscriber x m ≡ (ok tt, record m { subscribers = insert x.id x m.subscribers })
unfolding update_subscriber
update_subscriber_some x y m there = rw there

update_subscriber_none :
    (x : Subscriber) (m : MemoryStore)
    → lookup x.id m.subscribers ≡ none
    → update_subscriber x m ≡ (err not_found, m)
unfolding update_subscriber
update_subscriber_none x m missing = rw missing

-- Every method of the in-memory store implements the abstract store of three maps: lookups,
-- inserts, updates of present and missing subscribers, recorded usage and the reset.
pub memory_store-IsStore : (lower : ℕ → ℕ) → IsStore (memory_store lower) view
unfolding memory_store
memory_store-IsStore lower = record {
  get_plan_lem = λ id s. unfold get_plan in refl;
  create_plan_lem = λ p s fresh.
      unfold create_plan in
      (refl, λ i. record (view s) { plans = λ k. lookup-insert p.id k p s.plans i });
  get_subscriber_lem = λ id s. unfold get_subscriber in refl;
  create_subscriber_lem = λ x s fresh canonical.
      unfold create_subscriber in
      (refl, λ i. record (view s) { subscribers = λ k. lookup-insert x.id k x s.subscribers i });
  update_subscriber_lem = λ x y s there canonical.
      rw (update_subscriber_some x y s there)
        (refl, λ i. record (view s) { subscribers = λ k. lookup-insert x.id k x s.subscribers i });
  update_subscriber_missing = λ x s missing. rw (update_subscriber_none x s missing) (refl, refl);
  add_usage_lem = λ u s fresh.
      unfold add_usage in (refl, λ i. record (view s) { usage = λ k. records-add_usage u s k i });
  reset_lem = λ s. unfold reset lookup in (refl, refl);
}
