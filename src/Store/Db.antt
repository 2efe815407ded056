-- ===== src/Store/Db.antt =====
-- What the `Store` interface promises, apart from how a store keeps its data: three maps, as
-- functions, and the effect of each method on them.
use mathlib.Core.List.{Memᴰ}
use my_demo_app.Prelude.{◌≢◌, ◌≡◌, Option, none, some, List, [], ◌∷◌, ◌++◌, if◌then◌else◌}
use my_demo_app.Text.{Str, str_eq}
use my_demo_app.Exec.{Result, not_found, ok, err}
use my_demo_app.Subscriber.{Plan, Subscriber, UsageRecord, Store, IsCanonical}

pub record Db : Type 0 where
  pub plans : Str → Option Plan
  pub subscribers : Str → Option Subscriber
  pub usage : Str → List UsageRecord

abbrev pub update : {V : Type 0} → Str → V → (Str → V) → Str → V
update k v f j = if str_eq k j then v else f j

abbrev pub or_not_found : {A : Type 0} → Option A → Result A
or_not_found none = err not_found
or_not_found (some a) = ok a

abbrev pub put_plan : Plan → Db → Db
put_plan p d = record d { plans = update p.id (some p) d.plans }

abbrev pub put_subscriber : Subscriber → Db → Db
put_subscriber s d = record d { subscribers = update s.id (some s) d.subscribers }

-- The records of a subscriber stay in the order in which they came.
abbrev pub put_usage : UsageRecord → Db → Db
put_usage u d = record d {
  usage = update u.subscriber_id (d.usage u.subscriber_id ++ u ∷ []) d.usage;
}

abbrev pub empty_db : Db
empty_db = record { plans = λ k. none; subscribers = λ k. none; usage = λ k. [] }

-- No recorded event has the ID of `u`.
abbrev pub IsFreshUsage : UsageRecord → Db → Type 0
IsFreshUsage u d = (k : Str) (r : UsageRecord) → Memᴰ r (d.usage k) → r.id ≢ u.id

-- A store that refines the three maps: each method answers from its view of the state and changes
-- the view as it should. What is created comes under an ID that is not in use, and a status is what
-- its text stands for.
pub record IsStore {S : Type 0} (store : Store S) (view : S → Db) : Type 0 where
  pub get_plan_lem : (id : Str) (s : S) → store.get_plan id s ≡ or_not_found ((view s).plans id)
  pub create_plan_lem :
      (p : Plan) (s : S)
      → (view s).plans p.id ≡ none
      → ((store.create_plan p s).0 ≡ ok tt) × (view (store.create_plan p s).1 ≡ put_plan p (view s))
  pub get_subscriber_lem :
      (id : Str) (s : S) → store.get_subscriber id s ≡ or_not_found ((view s).subscribers id)
  pub create_subscriber_lem :
      (x : Subscriber) (s : S)
      → (view s).subscribers x.id ≡ none
      → IsCanonical x.status
      → ((store.create_subscriber x s).0 ≡ ok tt)
        × (view (store.create_subscriber x s).1 ≡ put_subscriber x (view s))
  pub update_subscriber_lem :
      (x y : Subscriber) (s : S)
      → (view s).subscribers x.id ≡ some y
      → IsCanonical x.status
      → ((store.update_subscriber x s).0 ≡ ok tt)
        × (view (store.update_subscriber x s).1 ≡ put_subscriber x (view s))
  pub update_subscriber_missing :
      (x : Subscriber) (s : S)
      → (view s).subscribers x.id ≡ none
      → ((store.update_subscriber x s).0 ≡ err not_found)
        × (view (store.update_subscriber x s).1 ≡ view s)
  pub add_usage_lem :
      (u : UsageRecord) (s : S)
      → IsFreshUsage u (view s)
      → ((store.add_usage u s).0 ≡ ok tt) × (view (store.add_usage u s).1 ≡ put_usage u (view s))
  pub reset_lem : (s : S) → ((store.reset s).0 ≡ ok tt) × (view (store.reset s).1 ≡ empty_db)
