-- ===== src/Store/Memory/Consistent.antt =====
-- The maps of the in-memory store hold each value once, under its own key.
use my_demo_app.Prelude.{inl, inr, Option-cases}
use my_demo_app.Subscriber.{Plan, Subscriber, UsageRecord}
use my_demo_app.Store.Assoc.{lookup, HasDistinctKeys, insert-HasDistinctKeys}
use my_demo_app.Store.Keyed.{KeyedBy, insert-KeyedBy}
use my_demo_app.Store.Memory.{
  MemoryStore, new_memory_store, create_plan, create_subscriber, update_subscriber, add_usage,
  reset,
}

-- Each plan and each subscriber stands under its own ID, once.
pub record IsConsistent (m : MemoryStore) : Type 0 where
  pub plan_keys : HasDistinctKeys m.plans
  pub plan_ids : KeyedBy (λ (p : Plan). p.id) m.plans
  pub subscriber_keys : HasDistinctKeys m.subscribers
  pub subscriber_ids : KeyedBy (λ (s : Subscriber). s.id) m.subscribers

-- The methods keep the maps consistent.
pub create_plan-IsConsistent :
    (p : Plan) (m : MemoryStore) → IsConsistent m → IsConsistent (create_plan p m).1
unfolding create_plan
create_plan-IsConsistent p m c = record {
  plan_keys = insert-HasDistinctKeys p.id p m.plans c.plan_keys;
  plan_ids = insert-KeyedBy (λ (x : Plan). x.id) p m.plans c.plan_ids;
  subscriber_keys = c.subscriber_keys;
  subscriber_ids = c.subscriber_ids;
}

pub create_subscriber-IsConsistent :
    (s : Subscriber) (m : MemoryStore) → IsConsistent m → IsConsistent (create_subscriber s m).1
unfolding create_subscriber
create_subscriber-IsConsistent s m c = record {
  plan_keys = c.plan_keys;
  plan_ids = c.plan_ids;
  subscriber_keys = insert-HasDistinctKeys s.id s m.subscribers c.subscriber_keys;
  subscriber_ids = insert-KeyedBy (λ (x : Subscriber). x.id) s m.subscribers c.subscriber_ids;
}

pub update_subscriber-IsConsistent :
    (s : Subscriber) (m : MemoryStore) → IsConsistent m → IsConsistent (update_subscriber s m).1
unfolding update_subscriber
update_subscriber-IsConsistent s m c = elim (Option-cases (lookup s.id m.subscribers)) [
  | inl missing ↦ rw missing c
  | inr (old, there) ↦ rw there (unfold create_subscriber in create_subscriber-IsConsistent s m c)
]

pub add_usage-IsConsistent :
    (u : UsageRecord) (m : MemoryStore) → IsConsistent m → IsConsistent (add_usage u m).1
unfolding add_usage
add_usage-IsConsistent u m c = record {
  plan_keys = c.plan_keys;
  plan_ids = c.plan_ids;
  subscriber_keys = c.subscriber_keys;
  subscriber_ids = c.subscriber_ids;
}

-- The writing methods of the in-memory store and the reset keep each plan and each subscriber under
-- its own ID, once, and a new store begins so.
pub methods-IsConsistent :
    (p : Plan) (s : Subscriber) (u : UsageRecord) (m : MemoryStore)
    → IsConsistent m
    → IsConsistent (create_plan p m).1
      × IsConsistent (create_subscriber s m).1
      × IsConsistent (update_subscriber s m).1
      × IsConsistent (add_usage u m).1
      × IsConsistent (reset m).1
      × IsConsistent new_memory_store
unfolding reset
methods-IsConsistent p s u m c =
    let empty : IsConsistent new_memory_store = record {
      plan_keys = tt;
      plan_ids = tt;
      subscriber_keys = tt;
      subscriber_ids = tt;
    } in
    (
      create_plan-IsConsistent p m c,
      create_subscriber-IsConsistent s m c,
      update_subscriber-IsConsistent s m c,
      add_usage-IsConsistent u m c,
      empty,
      empty,
    )
