-- ===== src/Http/Router/Reached.antt =====
-- internal/httpapi: what holds of the process after any number of requests.
use mathlib.Core.Path.{subst}
use my_demo_app.Prelude.{ℕ, ◌+◌, ◌^◌, ◌≤◌, ◌<◌, ◌≡◌, arith}
use my_demo_app.Prelude.Int.{pos}
use my_demo_app.Text.{Str}
use my_demo_app.Exec.{Result}
use my_demo_app.Subscriber.{Store, Status, Subscriber}
use my_demo_app.Subscriber.Service.{World, change_status}
use my_demo_app.Subscriber.Service.Issued.{IsIssued, empty-IsIssued}
use my_demo_app.Subscriber.Service.Create.{create_subscriber-IsIssued}
use my_demo_app.Subscriber.Service.Plans.{create_plan-IsIssued}
use my_demo_app.Subscriber.Service.Change.{
  ChangeOutcome, change_status-ChangeOutcome, change_status-IsIssued,
}
use my_demo_app.Subscriber.Service.Usage.{add_usage-IsIssued}
use my_demo_app.Store.Db.{Db, IsStore}
use my_demo_app.Http.{Request, Server}
use my_demo_app.Http.Router.{Deps, new_router}
use my_demo_app.Http.Router.Steps.{
  IsStep, unchanged, plan_created, subscriber_created, status_changed, usage_added, emptied,
}
use my_demo_app.Http.Router.Operations.{new_router-IsStep}

module _ {S : Type 0} {store : Store S} {view : S → Db} (laws : IsStore store view) where
  -- What the counter and the stored IDs keep to, with the counter at `m`.
  abbrev Covered : ℕ → World S → Type 0
  Covered m w = (w.id_counter ≡ pos m) × IsIssued m (view w.store)

  status_kept :
      (m : ℕ) (id : Str) (to : Status) (w : World S)
      → Covered m w
      → (change_status store id to w).1.id_counter ≡ pos m
  status_kept m id to w (counter, h) = keeps (change_status-ChangeOutcome laws m id to w h)
    where
      keeps :
          {out : Result Subscriber × World S}
          → ChangeOutcome view id to w out
          → out.1.id_counter ≡ pos m
      keeps (ChangeOutcome.missing e) = counter
      keeps (ChangeOutcome.refused sub e n) = counter
      keeps (ChangeOutcome.changed sub s e n f) = counter

  step-Covered :
      (m : ℕ) (w w' : World S)
      → m + 1 < 2 ^ 63
      → Covered m w
      → IsStep store w w'
      → (k : ℕ) × (k ≤ m + 1) × Covered k w'
  step-Covered m w _ room c unchanged = (m, omega arith, c)
  step-Covered m w _ room (counter, h) (plan_created p) =
      let (k, le, c, issued) = create_plan-IsIssued laws m p w counter room h in
      (k, le, (c, issued))
  step-Covered m w _ room (counter, h) (subscriber_created now input) =
      let (k, le, c, issued) = create_subscriber-IsIssued laws m now input w counter room h in
      (k, le, (c, issued))
  step-Covered m w _ room c (status_changed id to) =
      (m, omega arith, (status_kept m id to w c, change_status-IsIssued laws m id to w (c.1)))
  step-Covered m w _ room (counter, h) (usage_added now id kind qty ts) =
      let (k, le, c, issued) = add_usage-IsIssued laws m now id kind qty ts w counter room h in
      (k, le, (c, issued))
  step-Covered m w _ room (counter, h) emptied =
      (m, omega arith, (counter, rw ((laws.reset_lem w.store).1) (empty-IsIssued m)))

-- The process after a number of requests, each with whatever the outside gives for it.
pub data Served {S : Type 0} (store : Store S) (start : World S) : ℕ → World S → Type 0 where
  begun : Served store start 0 start
  served :
      (k : ℕ) (sv : Server S)
      → Served store start k sv.world
      → (d : Deps S) → d.store ≡ store
      → (r : Request) → Served store start (k + 1) ((new_router d r sv).1.world)

module _ {S : Type 0} {store : Store S} {view : S → Db} (laws : IsStore store view) where
  -- Over a lawful store, from a process with the counter at 0 and nothing stored that is not
  -- issued, after k requests of any kind, k below 2 ^ 63, the counter stands at some m up to k,
  -- every stored plan and subscriber carries its key as its ID, and these and the recorded events
  -- have IDs that were issued by then.
  pub Served-IsIssued :
      (start : World S) (k : ℕ) (w : World S)
      → start.id_counter ≡ pos 0
      → IsIssued 0 (view start.store)
      → k < 2 ^ 63
      → Served store start k w
      → (m : ℕ) × (m ≤ k) × (w.id_counter ≡ pos m) × IsIssued m (view w.store)
  Served-IsIssued start _ w counter empty room begun = (0, omega arith, counter, empty)
  Served-IsIssued start _ w counter empty room (served k sv before d same r) =
      let (m, le, c, h) = Served-IsIssued start k sv.world counter empty (omega arith) before in
      let step : IsStep store sv.world ((new_router d r sv).1.world) =
        subst (λ x. IsStep x sv.world ((new_router d r sv).1.world)) same
          (new_router-IsStep d r sv) in
      let (k', le', covered) = step-Covered laws m sv.world _ (omega arith) (c, h) step in
      (k', omega arith, covered.0, covered.1)
