-- ===== src/Subscriber/Service/Agree/Creates.antt =====
-- internal/subscriber/service.go: `CreatePlan` and `CreateSubscriber` over two stores.
use my_demo_app.Subscriber.Service.{World, CreateSubscriberInput, create_plan, create_subscriber}
use my_demo_app.Subscriber.{known-IsCanonical, Plan, Store}
use my_demo_app.Subscriber.Service.Create.{
  problem, new_subscriber, create_rejected, create_accepted,
}
use my_demo_app.Subscriber.Service.Plans.{plan_problem, plan_rejected, plan_accepted}
use my_demo_app.Prelude.{ℕ, ◌+◌, ◌^◌, ◌<◌, refl, sym, ap, ◌∙◌, inl, inr, arith, Option-cases}
use my_demo_app.Subscriber.Service.Issued.{
  sub_id, plan_id, IsIssued, fresh_plan, fresh_subscriber, IsIssued-up, put_plan-IsIssued,
  put_subscriber-IsIssued,
}
use my_demo_app.Store.Db.{Db, put_plan, put_subscriber, IsStore}
use mathlib.Core.Path.{subst}
use my_demo_app.Time.{Time}
use my_demo_app.Subscriber.Service.Agree.{plan, subscriber, through, IsAlike, Follows}

module _ {S T : Type 0} {store_s : Store S} {store_t : Store T} {view_s : S → Db} {view_t : T → Db}
    (laws_s : IsStore store_s view_s) (laws_t : IsStore store_t view_t) where
  pub plan_created-Follows :
      (n : ℕ) (p : Plan) (v : World S) (w : World T)
      → n + 1 < 2 ^ 63
      → IsAlike view_s view_t n v w
      → Follows view_s view_t n
          (through plan (create_plan store_s p v))
          (through plan (create_plan store_t p w))
  plan_created-Follows n p v w room h = elim (Option-cases (plan_problem p)) [
    | inr (why, wrong) ↦
        rw (plan_rejected store_s p v why wrong, plan_rejected store_t p w why wrong)
          (refl, (n, omega arith, h))
    | inl fine ↦
        let new = record p { id = plan_id (n + 1) } in
        let issued_w : IsIssued n (view_t w.store) = subst (IsIssued n) h.same h.issued in
        let (done_v, effect_v) =
          laws_s.create_plan_lem new v.store (fresh_plan n (view_s v.store) h.issued room) in
        let (done_w, effect_w) =
          laws_t.create_plan_lem new w.store (fresh_plan n (view_t w.store) issued_w room) in
        rw
          (
            plan_accepted store_s n p v fine h.counter_v room done_v,
            plan_accepted store_t n p w fine h.counter_w room done_w,
          )
          (
            refl,
            (
              n + 1,
              omega arith,
              record {
                counter_v = refl;
                counter_w = refl;
                same = effect_v ∙ ap (put_plan new) h.same ∙ sym effect_w;
                issued = rw effect_v (
                    put_plan-IsIssued (n + 1) (view_s v.store) new refl
                      (IsIssued-up n (n + 1) (view_s v.store) (omega arith) h.issued));
              },
            ),
          )
  ]

  pub subscriber_created-Follows :
      (n : ℕ) (now : Time) (input : CreateSubscriberInput) (v : World S) (w : World T)
      → n + 1 < 2 ^ 63
      → IsAlike view_s view_t n v w
      → Follows view_s view_t n
          (through subscriber (create_subscriber store_s now input v))
          (through subscriber (create_subscriber store_t now input w))
  subscriber_created-Follows n now input v w room h = elim (Option-cases (problem input)) [
    | inr (why, wrong) ↦
        rw
          (
            create_rejected store_s now input v why wrong,
            create_rejected store_t now input w why wrong,
          )
          (refl, (n, omega arith, h))
    | inl fine ↦
        let new = new_subscriber (sub_id (n + 1)) now input in
        let issued_w : IsIssued n (view_t w.store) = subst (IsIssued n) h.same h.issued in
        let (done_v, effect_v) =
          laws_s.create_subscriber_lem new v.store
            (fresh_subscriber n (view_s v.store) h.issued room) known-IsCanonical.0 in
        let (done_w, effect_w) =
          laws_t.create_subscriber_lem new w.store
            (fresh_subscriber n (view_t w.store) issued_w room) known-IsCanonical.0 in
        rw
          (
            create_accepted store_s n now input v fine h.counter_v room done_v,
            create_accepted store_t n now input w fine h.counter_w room done_w,
          )
          (
            refl,
            (
              n + 1,
              omega arith,
              record {
                counter_v = refl;
                counter_w = refl;
                same = effect_v ∙ ap (put_subscriber new) h.same ∙ sym effect_w;
                issued = rw effect_v (
                    put_subscriber-IsIssued (n + 1) (n + 1) (view_s v.store) new refl (omega arith)
                      (IsIssued-up n (n + 1) (view_s v.store) (omega arith) h.issued));
              },
            ),
          )
  ]
