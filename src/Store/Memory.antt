-- ===== src/Store/Memory.antt =====
-- internal/store/memory.go: the in-memory store.
pub mod Laws
pub mod Lists
pub mod Consistent
use my_demo_app.Prelude.{
  ℕ, zero, suc, ◌+◌, ◌-◌, ◌*◌, ◌/◌, ◌%◌, ◌^◌, ◌≤◌, ◌<◌, ◌≡◌, refl, sym, ap, ap₂, ◌∙◌, ◌≡⟨◌⟩◌, ◌∎,
  ◌≢◌, ◌↔◌, ◌⊎◌, inl, inr, Bool, true, false, not, ◌&&◌, ◌||◌, Option, none, some, List, [], ◌∷◌,
  ◌++◌, map, arith, ltb, leb, ◌==◌, if◌then◌else◌, ltb→lt, lt→ltb, leb→le, ==_iff, tests,
  Bool-cases, Option-cases, length, get_elem?, set, length-append, length-set, get_elem?-set_self,
  get_elem?-set_ne, get_or, take, drop, replicate, take-append-drop, length-take, length-drop,
  length-replicate, length-map,
}
use my_demo_app.Prelude.Int.{ℤ}
use my_demo_app.Text.{Str, is_empty, contains}
use my_demo_app.Text.Trim.{trim_space}
use my_demo_app.Time.{Time, before, after, equal}
use my_demo_app.Exec.{
  Problem, Error, Result, Exec, pure, raise, reads, ◌>>=◌, ◌>>◌, fail_if, plan_name_required,
  negative_price, msisdn_required, msisdn_length, plan_id_required, owner_required, unknown_status,
  unknown_kind, not_found, validation, invalid_status_transition, ok, err,
}
use my_demo_app.Subscriber.{
  Status, status_of, status_text, Plan, Subscriber, UsageRecord, InvoiceLine, Invoice, Store,
  active, suspended, terminated, unknown,
}
use my_demo_app.Store.Assoc.{Assoc, lookup, insert, values}
use my_demo_app.Store.Filter.{keep_if}
use my_demo_app.Store.Sort.{sort_by}
use my_demo_app.Store.Page.{paginate}
use my_demo_app.Store.Db.{or_not_found}

pub record MemoryStore : Type 0 where
  pub plans : Assoc Plan
  pub subscribers : Assoc Subscriber
  pub usage : Assoc (List UsageRecord)

abbrev pub new_memory_store : MemoryStore
new_memory_store = record { plans = []; subscribers = []; usage = [] }

unfoldable pub create_plan : Plan → MemoryStore → Result (Unit {0}) × MemoryStore
create_plan p m = (ok tt, record m { plans = insert p.id p m.plans })

unfoldable pub get_plan : Str → MemoryStore → Result Plan
get_plan id m = or_not_found (lookup id m.plans)

unfoldable pub list_plans : ℤ → ℤ → MemoryStore → Result (List Plan)
list_plans limit offset m =
    ok (paginate (sort_by (λ (p : Plan). p.id) (values m.plans)) limit offset)

unfoldable pub create_subscriber : Subscriber → MemoryStore → Result (Unit {0}) × MemoryStore
create_subscriber s m = (ok tt, record m { subscribers = insert s.id s m.subscribers })

unfoldable pub get_subscriber : Str → MemoryStore → Result Subscriber
get_subscriber id m = or_not_found (lookup id m.subscribers)

abbrev replace : Option Subscriber → Subscriber → MemoryStore → Result (Unit {0}) × MemoryStore
replace none s m = (err not_found, m)
replace (some old) s m = (ok tt, record m { subscribers = insert s.id s m.subscribers })

unfoldable pub update_subscriber : Subscriber → MemoryStore → Result (Unit {0}) × MemoryStore
update_subscriber s m = replace (lookup s.id m.subscribers) s m

-- The entry of a missing key reads as the empty slice.
abbrev pub records : Str → MemoryStore → List UsageRecord
records id m = elim (lookup id m.usage) [ none ↦ [] | some us ↦ us ]

unfoldable pub add_usage : UsageRecord → MemoryStore → Result (Unit {0}) × MemoryStore
add_usage u m = (
  ok tt,
  record m { usage = insert u.subscriber_id (records u.subscriber_id m ++ u ∷ []) m.usage },
)

abbrev pub in_range : Time → Time → UsageRecord → Bool
in_range from to u = (equal u.timestamp from || after u.timestamp from) && before u.timestamp to

unfoldable pub list_usage : Str → Time → Time → MemoryStore → Result (List UsageRecord)
list_usage id from to m = ok (keep_if (in_range from to) (records id m))

unfoldable pub ping : MemoryStore → Result (Unit {0})
ping m = ok tt

unfoldable pub reset : MemoryStore → Result (Unit {0}) × MemoryStore
reset m = (ok tt, new_memory_store)

-- `lower` is `unicode.ToLower`, whose table is not modelled.
module _ (lower : ℕ → ℕ) where
  unfoldable pub matches : Str → Subscriber → Bool
  matches q s = is_empty q || contains (map lower s.name) q || contains (map lower s.msisdn) q

  unfoldable pub list_subscribers : Str → ℤ → ℤ → MemoryStore → Result (List Subscriber)
  list_subscribers search limit offset m =
      let q = map lower (trim_space search) in
      let found = keep_if (matches q) (values m.subscribers) in
      ok (paginate (sort_by (λ (s : Subscriber). s.id) found) limit offset)

  unfoldable pub memory_store : Store MemoryStore
  memory_store = record {
    create_plan = create_plan;
    get_plan = get_plan;
    list_plans = list_plans;
    create_subscriber = create_subscriber;
    get_subscriber = get_subscriber;
    list_subscribers = list_subscribers;
    update_subscriber = update_subscriber;
    add_usage = add_usage;
    list_usage = list_usage;
    ping = ping;
    reset = reset;
  }
