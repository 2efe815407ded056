-- ===== src/Tests/Storage.antt =====
-- The in-memory store of internal/store/memory.go.
use my_demo_app.Prelude.{refl, [], ◌∷◌}
use my_demo_app.Prelude.Int.{pos}
use my_demo_app.Text.{lit, str_eq}
use my_demo_app.Subscriber.{Plan, Subscriber}
use my_demo_app.Store.Db.{IsStore}
use my_demo_app.Store.Memory.{
  MemoryStore, new_memory_store, create_plan, create_subscriber, update_subscriber, add_usage,
  reset, memory_store,
}
use my_demo_app.Store.Memory.Laws.{view, memory_store-IsStore}
use my_demo_app.Store.Memory.Consistent.{IsConsistent, methods-IsConsistent}
use my_demo_app.Tests.Fixtures.{same_case, january, basic, usage_of, ada}

abbrev gold : Plan
gold = record basic { id = lit "plan_2" }

abbrev bob : Subscriber
bob = record ada { id = lit "sub_2"; name = lit "Bob" }

abbrev stocked : MemoryStore
stocked = record {
  plans = (lit "plan_1", basic) ∷ (lit "plan_2", gold) ∷ [];
  subscribers = (lit "sub_1", ada) ∷ (lit "sub_2", bob) ∷ [];
  usage = (lit "sub_1", usage_of (lit "sms") (pos 1) january ∷ []) ∷ [];
}

stocked-IsConsistent : IsConsistent stocked
unfolding str_eq
stocked-IsConsistent = record {
  plan_keys = ((refl, tt), (tt, tt));
  plan_ids = (refl, (refl, tt));
  subscriber_keys = ((refl, tt), (tt, tt));
  subscriber_ids = (refl, (refl, tt));
}

memory_store-IsStore_example : IsStore (memory_store same_case) view
memory_store-IsStore_example = memory_store-IsStore same_case

methods-IsConsistent_example :
    IsConsistent (create_plan gold stocked).1
    × IsConsistent (create_subscriber ada stocked).1
    × IsConsistent (update_subscriber ada stocked).1
    × IsConsistent (add_usage (usage_of (lit "data") (pos 7) january) stocked).1
    × IsConsistent (reset stocked).1
    × IsConsistent new_memory_store
methods-IsConsistent_example =
    methods-IsConsistent gold ada (usage_of (lit "data") (pos 7) january) stocked
      stocked-IsConsistent
