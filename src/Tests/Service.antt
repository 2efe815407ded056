-- ===== src/Tests/Service.antt =====
-- The service of internal/subscriber/service.go over the in-memory store.
use my_demo_app.Prelude.{◌≡◌, refl, ◌↔◌, true, arith}
use my_demo_app.Tests.Fixtures.{
  ada, same_case, january, now, basic, input, fresh_world, fresh-IsIssued, one_world, one-IsIssued,
}
use my_demo_app.Subscriber.Service.{
  is_known, create_plan, create_subscriber, change_status, add_usage,
}
use my_demo_app.Subscriber.{Store}
use my_demo_app.Prelude.Int.{negsuc}
use my_demo_app.Text.{lit}
use my_demo_app.Subscriber.{active, suspended, terminated}
use my_demo_app.Subscriber.Service.Agree.{Every, apply_all, status_changed}
use my_demo_app.Subscriber.Service.Agree.Statuses.{IsChanged, apply_all-status_changed}
use my_demo_app.Subscriber.{Status}
use my_demo_app.Prelude.{some, List, map, length, ◌≤◌}
use my_demo_app.Subscriber.Service.Change.{ChangeOutcome, change_status-ChangeOutcome}
use my_demo_app.Subscriber.Service.Create.{CreateOutcome, create_subscriber-CreateOutcome}
use my_demo_app.Subscriber.Service.Plans.{PlanOutcome, create_plan-PlanOutcome}
use my_demo_app.Subscriber.Service.Usage.{UsageOutcome, add_usage-UsageOutcome}
use my_demo_app.Store.Memory.{MemoryStore, memory_store}
use my_demo_app.Store.Memory.Laws.{view, memory_store-IsStore}

abbrev store : Store MemoryStore
store = memory_store same_case

change_status-ChangeOutcome_example :
    ChangeOutcome view
      (lit "sub_1")
      suspended
      one_world
      (change_status store (lit "sub_1") suspended one_world)
change_status-ChangeOutcome_example =
    change_status-ChangeOutcome (memory_store-IsStore same_case) (one-IsIssued.0) (lit "sub_1")
      suspended one_world (one-IsIssued.3)

create_subscriber-CreateOutcome_example :
    CreateOutcome view 0 now input fresh_world (create_subscriber store now input fresh_world)
create_subscriber-CreateOutcome_example =
    create_subscriber-CreateOutcome (memory_store-IsStore same_case) 0 now input fresh_world refl
      (omega arith) fresh-IsIssued

create_plan-PlanOutcome_example :
    PlanOutcome view 0 basic fresh_world (create_plan store basic fresh_world)
create_plan-PlanOutcome_example =
    create_plan-PlanOutcome (memory_store-IsStore same_case) 0 basic fresh_world refl (omega arith)
      fresh-IsIssued

add_usage-UsageOutcome_example :
    UsageOutcome view
      (one-IsIssued.0)
      now
      (lit "sub_1")
      (lit "voice")
      (negsuc 4)
      january
      one_world
      (add_usage store now (lit "sub_1") (lit "voice") (negsuc 4) january one_world)
add_usage-UsageOutcome_example =
    add_usage-UsageOutcome (memory_store-IsStore same_case) (one-IsIssued.0) now (lit "sub_1")
      (lit "voice") (negsuc 4) january one_world (one-IsIssued.2) (omega (arith, one-IsIssued.1))
      (one-IsIssued.3)

stored_one : (view one_world.store).subscribers (lit "sub_1") ≡ some ada
unfolding my_demo_app.Store.Assoc.lookup create_subscriber my_demo_app.Text.is_empty
    my_demo_app.Text.Trim.trim_space my_demo_app.Text.byte_len
    my_demo_app.Subscriber.Service.validate_msisdn my_demo_app.Subscriber.Service.next_id
    memory_store my_demo_app.Store.Memory.create_subscriber my_demo_app.Store.Assoc.insert
    my_demo_app.Text.str_eq my_demo_app.Subscriber.Service.id_text my_demo_app.Text.Decimal.itoa
    my_demo_app.Word.add64 my_demo_app.Word.wrap64 my_demo_app.Prelude.Int.◌+ℤ◌
stored_one = refl

apply_all-status_changed_example :
    (path : List Status) × (length path ≤ 2)
    × (let (answers, after) =
          apply_all (memory_store same_case) (map (status_changed (lit "sub_1")) path) one_world in
        Every IsChanged answers
        × ((view after.store).subscribers (lit "sub_1") ≡ some (record ada { status = terminated }))
        × (after.id_counter ≡ one_world.id_counter))
unfolding is_known
apply_all-status_changed_example =
    apply_all-status_changed (memory_store-IsStore same_case) (one-IsIssued.0) (lit "sub_1")
      terminated one_world ada (one-IsIssued.3) stored_one refl refl
