-- ===== src/Subscriber/Service/Agree/Sequences.antt =====
-- internal/subscriber/service.go: sequences of calls over two stores, the listings left out.
use my_demo_app.Subscriber.Service.{World}
use my_demo_app.Subscriber.{Store}
use my_demo_app.Prelude.{ℕ, ◌+◌, ◌^◌, ◌<◌, ◌≡◌, refl, ap₂, List, [], ◌∷◌, arith, length}
use my_demo_app.Store.Db.{Db, IsStore}
use my_demo_app.Subscriber.Service.Agree.{
  Operation, plan_created, plan_read, subscriber_created, subscriber_read, status_changed,
  usage_added, emptied, apply, apply_all, IsAlike, Follows,
}
use my_demo_app.Subscriber.Service.Agree.Creates.{plan_created-Follows, subscriber_created-Follows}
use my_demo_app.Subscriber.Service.Agree.Changes.{
  reads-Follows, status_changed-Follows, usage_added-Follows, emptied-Follows,
}

module _ {S T : Type 0} {store_s : Store S} {store_t : Store T} {view_s : S → Db} {view_t : T → Db}
    (laws_s : IsStore store_s view_s) (laws_t : IsStore store_t view_t) where
  apply-Follows :
      (n : ℕ) (op : Operation) (v : World S) (w : World T)
      → n + 1 < 2 ^ 63
      → IsAlike view_s view_t n v w
      → Follows view_s view_t n (apply store_s op v) (apply store_t op w)
  unfolding apply
  apply-Follows n (plan_created p) v w room h = plan_created-Follows laws_s laws_t n p v w room h
  apply-Follows n (plan_read id) v w room h = (reads-Follows laws_s laws_t n id v w h).0
  apply-Follows n (subscriber_created now input) v w room h =
      subscriber_created-Follows laws_s laws_t n now input v w room h
  apply-Follows n (subscriber_read id) v w room h = (reads-Follows laws_s laws_t n id v w h).1
  apply-Follows n (status_changed id to) v w room h =
      status_changed-Follows laws_s laws_t n id to v w h
  apply-Follows n (usage_added now id kind qty ts) v w room h =
      usage_added-Follows laws_s laws_t n now id kind qty ts v w room h
  apply-Follows n emptied v w room h = emptied-Follows laws_s laws_t n v w h

  -- From two processes with the same view of what they store, the same counter and the same issued
  -- IDs, any sequence of calls that create plans and subscribers, read them by ID, change a status
  -- or record usage, and of resets, during which the counter cannot wrap, gets the same answers
  -- over any two stores that keep the laws of the interface, and leaves two processes with the same
  -- view, counter and issued IDs again.
  pub apply_all-same :
      (n : ℕ) (ops : List Operation) (v : World S) (w : World T)
      → n + length ops < 2 ^ 63
      → IsAlike view_s view_t n v w
      → ((apply_all store_s ops v).0 ≡ (apply_all store_t ops w).0)
        × ((m : ℕ) × IsAlike view_s view_t m
              (apply_all store_s ops v).1
              (apply_all store_t ops w).1)
  unfolding apply_all
  apply_all-same n [] v w room h = (refl, (n, h))
  apply_all-same n (op ∷ ops) v w room h =
      let (answer, (m, le, alike)) = apply-Follows n op v w (omega arith) h in
      let (answers, rest) =
        apply_all-same m ops (apply store_s op v).1 (apply store_t op w).1 (omega arith) alike in
      (ap₂ (λ a more. a ∷ more) answer answers, rest)
