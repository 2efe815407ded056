-- ===== src/Subscriber/Service/Plans.antt =====
-- internal/subscriber/service.go: what `CreatePlan` does over a store that keeps its promises.
use my_demo_app.Prelude.{
  ◌≤◌, ℕ, ◌+◌, ◌^◌, ◌<◌, ◌≡◌, refl, ap, ◌∙◌, inl, inr, false, Option, none, some, arith,
  if◌then◌else◌, Option-cases,
}
use my_demo_app.Prelude.Int.{◌≤ℤ◌, ltb_ℤ, pos}
use my_demo_app.Word.{add64_one, add64}
use my_demo_app.Text.{is_empty}
use my_demo_app.Text.Trim.{trim_space}
use my_demo_app.Exec.{
  Problem, Result, plan_name_required, negative_price, validation, ok, err, Error,
}
use my_demo_app.Subscriber.{Plan, Store}
use my_demo_app.Subscriber.Service.{World, next_id, create_plan}
use my_demo_app.Subscriber.Service.Issued.{
  plan_id, IsIssued, fresh_plan, IsIssued-up, put_plan-IsIssued,
}
use my_demo_app.Store.Db.{Db, put_plan, IsStore}

-- A plan with a name that is not blank and a price that is not negative.
pub record IsSellable (p : Plan) : Type 0 where
  pub name : is_empty (trim_space p.name) ≡ false
  pub price : pos 0 ≤ℤ p.monthly_price_cents

-- What a request to create a plan may lead to from `w`.
pub data PlanOutcome {S : Type 0} (view : S → Db) (n : ℕ) (p : Plan) (w : World S)
    : Result Plan × World S → Type 0 where
  rejected : (why : Problem) → ¬ IsSellable p → PlanOutcome view n p w (err (validation why), w)
  created :
      (s : S)
      → IsSellable p
      → view s ≡ put_plan (record p { id = plan_id (n + 1) }) (view w.store)
      → PlanOutcome view n p w
          (ok (record p { id = plan_id (n + 1) }), record { store = s; id_counter = pos (n + 1) })

abbrev pub plan_problem : Plan → Option Problem
plan_problem p =
    if is_empty (trim_space p.name)
    then some plan_name_required
    else if ltb_ℤ p.monthly_price_cents (pos 0)
    then some negative_price
    else none

pub IsSellable-plan_problem : (p : Plan) → IsSellable p → plan_problem p ≡ none
IsSellable-plan_problem p h = let name = h.name in let price = h.price in ground arith

plan_problem-none : (p : Plan) → plan_problem p ≡ none → IsSellable p
plan_problem-none p h = ground arith

plan_problem-some : (p : Plan) (why : Problem) → plan_problem p ≡ some why → ¬ IsSellable p
plan_problem-some p why h a = ground arith

module _ {S : Type 0} (store : Store S) where
  pub plan_rejected :
      (p : Plan) (w : World S) (why : Problem)
      → plan_problem p ≡ some why
      → create_plan store p w ≡ (err (validation why), w)
  unfolding create_plan
  plan_rejected p w why h = ground arith

  pub plan_accepted :
      (n : ℕ) (p : Plan) (w : World S)
      → plan_problem p ≡ none
      → w.id_counter ≡ pos n
      → n + 1 < 2 ^ 63
      → let new = record p { id = plan_id (n + 1) } in
        (store.create_plan new w.store).0 ≡ ok tt
        → create_plan store p w
          ≡ (ok new, record { store = (store.create_plan new w.store).1; id_counter = pos (n + 1) })
  unfolding create_plan next_id
  plan_accepted n p w h counter room done =
      let up : add64 w.id_counter (pos 1) ≡ pos (n + 1) =
        ap (λ c. add64 c (pos 1)) counter ∙ add64_one n room in
      ground (arith, up)

  -- The ID is spent although the store fails.
  pub plan_unstored :
      (n : ℕ) (p : Plan) (w : World S) (e : Error)
      → plan_problem p ≡ none
      → w.id_counter ≡ pos n
      → n + 1 < 2 ^ 63
      → let new = record p { id = plan_id (n + 1) } in
        (store.create_plan new w.store).0 ≡ err e
        → create_plan store p w
          ≡ (err e, record { store = (store.create_plan new w.store).1; id_counter = pos (n + 1) })
  unfolding create_plan next_id
  plan_unstored n p w e h counter room failed_with =
      let up : add64 w.id_counter (pos 1) ≡ pos (n + 1) =
        ap (λ c. add64 c (pos 1)) counter ∙ add64_one n room in
      ground (arith, up)

module _ {S : Type 0} {store : Store S} {view : S → Db} (laws : IsStore store view) where
  -- Over a lawful store with issued IDs and a counter that does not wrap, CreatePlan rejects a
  -- blank name or a negative price and changes nothing, and stores any other plan under the next
  -- ID, changing nothing else.
  pub create_plan-PlanOutcome :
      (n : ℕ) (p : Plan) (w : World S)
      → w.id_counter ≡ pos n
      → n + 1 < 2 ^ 63
      → IsIssued n (view w.store)
      → PlanOutcome view n p w (create_plan store p w)
  create_plan-PlanOutcome n p w counter room h = elim (Option-cases (plan_problem p)) [
    | inl fine ↦
        let (done, effect) =
          laws.create_plan_lem (record p { id = plan_id (n + 1) }) w.store
            (fresh_plan n (view w.store) h room) in
        rw (plan_accepted store n p w fine counter room done)
          (created _ (plan_problem-none p fine) effect)
    | inr (why, wrong) ↦
        rw (plan_rejected store p w why wrong) (rejected why (plan_problem-some p why wrong))
  ]

  -- It keeps every stored ID an issued one.
  pub create_plan-IsIssued :
      (n : ℕ) (p : Plan) (w : World S)
      → w.id_counter ≡ pos n
      → n + 1 < 2 ^ 63
      → IsIssued n (view w.store)
      → (m : ℕ) × (m ≤ n + 1)
        × ((create_plan store p w).1.id_counter ≡ pos m)
        × IsIssued m (view (create_plan store p w).1.store)
  create_plan-IsIssued n p w counter room h = keeps (create_plan-PlanOutcome n p w counter room h)
    where
      keeps :
          {out : Result Plan × World S}
          → PlanOutcome view n p w out
          → (m : ℕ) × (m ≤ n + 1) × (out.1.id_counter ≡ pos m) × IsIssued m (view out.1.store)
      keeps (rejected why bad) = (n, omega arith, counter, h)
      keeps (created s good effect) = (
        n + 1,
        omega arith,
        refl,
        rw effect (
            put_plan-IsIssued (n + 1) (view w.store) (record p { id = plan_id (n + 1) }) refl
              (IsIssued-up n (n + 1) (view w.store) (omega arith) h)),
      )
