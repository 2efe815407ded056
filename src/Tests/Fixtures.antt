-- ===== src/Tests/Fixtures.antt =====
-- The data of the tests: one plan, one subscriber, times of January 2025, and a service with them.
use my_demo_app.Prelude.{ℕ, ◌*◌, ◌≡◌, refl, arith, ◌≤◌}
use my_demo_app.Store.Assoc.{lookup}
use my_demo_app.Prelude.Int.{ℤ, pos}
use my_demo_app.Exec.{value}
use my_demo_app.Webhook.{Network}
use my_demo_app.Text.{Str, lit}
use my_demo_app.Time.{Time}
use my_demo_app.Time.Calendar.{day_ns}
use my_demo_app.Time.Utc.{utc_at}
use my_demo_app.Subscriber.{Plan, Subscriber, UsageRecord, active}
use my_demo_app.Subscriber.Service.{World, CreateSubscriberInput, create_subscriber}
use my_demo_app.Subscriber.Service.Create.{create_subscriber-IsIssued}
use my_demo_app.Subscriber.Service.Issued.{IsIssued, nowhere}
use my_demo_app.Store.Memory.{MemoryStore, new_memory_store, memory_store}
use my_demo_app.Store.Memory.Laws.{view, memory_store-IsStore}

abbrev pub same_case : ℕ → ℕ
same_case c = c

-- 2025-01-01T00:00:00Z and the following month's first instant.
abbrev pub january : Time
january = utc_at (739_251 * day_ns)

abbrev pub february : Time
february = utc_at (739_282 * day_ns)

abbrev pub now : Time
now = utc_at (739_260 * day_ns)

abbrev pub basic : Plan
basic = record {
  id = lit "plan_1";
  name = lit "Basic";
  monthly_price_cents = pos 3100;
  included_voice_minutes = pos 100;
  included_data_mb = pos 1000;
  included_sms = pos 50;
  overage_voice_cents = pos 10;
  overage_data_cents_per_mb = pos 2;
  overage_sms_cents = pos 5;
}

abbrev pub input : CreateSubscriberInput
input = record {
  msisdn = lit " +15551234 ";
  imsi = lit "001";
  name = lit "Ada";
  plan_id = lit "plan_1";
  owner_account_id = lit "acme";
}

abbrev pub fresh_world : World MemoryStore
fresh_world = record { store = new_memory_store; id_counter = pos 0 }

pub fresh-IsIssued : IsIssued 0 (view new_memory_store)
unfolding lookup
fresh-IsIssued = record {
  plan = λ k p h. cc;
  subscriber = λ k s h. cc;
  usage = λ k r there. absurd (nowhere there);
}

-- The service behind the creation of the first subscriber.
abbrev pub one_world : World MemoryStore
one_world = (create_subscriber (memory_store same_case) now input fresh_world).1

pub one-IsIssued :
    (m : ℕ) × (m ≤ 1) × (one_world.id_counter ≡ pos m) × IsIssued m (view one_world.store)
one-IsIssued =
    create_subscriber-IsIssued (memory_store-IsStore same_case) 0 now input fresh_world refl
      (omega arith) fresh-IsIssued

abbrev pub usage_of : Str → ℤ → Time → UsageRecord
usage_of kind quantity timestamp = record {
  id = lit "use_2";
  subscriber_id = lit "sub_1";
  kind = kind;
  quantity = quantity;
  timestamp = timestamp;
}

abbrev pub ada : Subscriber
ada = record {
  id = lit "sub_1";
  msisdn = lit "+15551234";
  imsi = lit "001";
  name = lit "Ada";
  plan_id = lit "plan_1";
  owner_account_id = lit "acme";
  status = active;
  created_at = now;
}

-- A network whose endpoints all accept.
abbrev pub open_network : Network
open_network = record {
  marshal = λ payload. value (lit "{\"event\":\"webhook.registered\"}");
  new_request = λ method url. value tt;
  send = λ client message. value 200;
}
