-- ===== src/Subscriber/Service/Agree.antt =====
-- internal/subscriber/service.go: sequences of calls of the service, but for the listings, over two stores.
pub mod Creates
pub mod Changes
pub mod Sequences
pub mod Statuses
use my_demo_app.Subscriber.Service.{
  World, CreateSubscriberInput, create_plan, get_plan, create_subscriber, get_subscriber,
  change_status, add_usage, on_store, is_valid_kind,
}
use my_demo_app.Subscriber.{known-IsCanonical, Plan, Subscriber, UsageRecord, Status, Store}
use my_demo_app.Subscriber.Service.Transitions.{passes}
use my_demo_app.Subscriber.Service.Usage.{new_record, usage_missing, usage_refused, usage_recorded}
use my_demo_app.Subscriber.Service.Change.{
  change_missing, change_refused, change_passed, passes-IsCanonical,
}
use my_demo_app.Subscriber.Service.Create.{
  problem, new_subscriber, create_rejected, create_accepted,
}
use my_demo_app.Subscriber.Service.Plans.{plan_problem, plan_rejected, plan_accepted}
use my_demo_app.Prelude.{
  ℕ, ◌+◌, ◌^◌, ◌≤◌, ◌<◌, ◌≡◌, refl, sym, ap, ap₂, ◌∙◌, inl, inr, some, List, [], ◌∷◌, arith,
  Bool-cases, Option-cases, length,
}
use my_demo_app.Subscriber.Service.Issued.{
  sub_id, plan_id, IsIssued, fresh_plan, fresh_subscriber, fresh_usage, IsIssued-up,
  put_plan-IsIssued, put_subscriber-IsIssued, put_usage-IsIssued, empty-IsIssued,
}
use my_demo_app.Store.Db.{Db, or_not_found, put_plan, put_subscriber, put_usage, IsStore}
use mathlib.Core.Path.{subst}
use my_demo_app.Prelude.Int.{ℤ, pos}
use my_demo_app.Text.{Str}
use my_demo_app.Time.{Time}
use my_demo_app.Exec.{Result}

-- A call of the service, but for the listings, or the reset of the store.
pub data Operation : Type 0 where
  plan_created : Plan → Operation
  plan_read : Str → Operation
  subscriber_created : Time → CreateSubscriberInput → Operation
  subscriber_read : Str → Operation
  status_changed : Str → Status → Operation
  usage_added : Time → Str → Str → ℤ → Time → Operation
  emptied : Operation

pub data Answer : Type 0 where
  plan : Result Plan → Answer
  subscriber : Result Subscriber → Answer
  usage : Result UsageRecord → Answer
  done : Result (Unit {0}) → Answer

-- What holds of each of a list.
abbrev pub Every : {A : Type 0} → (A → Type 0) → List A → Type 0
Every P [] = Unit
Every P (a ∷ rest) = P a × Every P rest

abbrev pub through : {S A : Type 0} → (A → Answer) → A × World S → Answer × World S
through show (a, w) = (show a, w)

module _ {S : Type 0} (store : Store S) where
  unfoldable pub apply : Operation → World S → Answer × World S
  apply (plan_created p) w = through plan (create_plan store p w)
  apply (plan_read id) w = through plan (get_plan store id w)
  apply (subscriber_created now input) w = through subscriber (create_subscriber store now input w)
  apply (subscriber_read id) w = through subscriber (get_subscriber store id w)
  apply (status_changed id to) w = through subscriber (change_status store id to w)
  apply (usage_added now id kind qty ts) w = through usage (add_usage store now id kind qty ts w)
  apply emptied w = through done (on_store store.reset w)

  -- The answers to a sequence of operations, and what it leaves behind.
  unfoldable pub apply_all : List Operation → World S → List Answer × World S
  unfolding apply
  apply_all [] w = ([], w)
  apply_all (op ∷ ops) w =
      let (a, w1) = apply op w in let (answers, w2) = apply_all ops w1 in (a ∷ answers, w2)

module _ {S T : Type 0} (view_s : S → Db) (view_t : T → Db) where
  -- Two processes with the same view of what they store.
  pub record IsAlike (n : ℕ) (v : World S) (w : World T) : Type 0 where
    pub counter_v : v.id_counter ≡ pos n
    pub counter_w : w.id_counter ≡ pos n
    pub same : view_s v.store ≡ view_t w.store
    pub issued : IsIssued n (view_s v.store)

  -- The same answer, and alike again.
  abbrev pub Follows : ℕ → Answer × World S → Answer × World T → Type 0
  Follows n (a, v) (b, w) = (a ≡ b) × ((m : ℕ) × (m ≤ n + 1) × IsAlike m v w)
