-- ===== src/Subscriber/Service/Agree/Statuses.antt =====
-- internal/subscriber/service.go: sequences of `ChangeStatus` for one subscriber.
use my_demo_app.Prelude.{
  ℕ, ◌≤◌, ◌≡◌, refl, sym, ap, ◌∙◌, Bool, true, false, ◌&&◌, some, List, [], ◌∷◌, map, arith, length,
}
use mathlib.Core.Path.{subst}
use my_demo_app.Text.{Str, str_eq_refl}
use my_demo_app.Exec.{ok}
use my_demo_app.Subscriber.{Status, active, suspended, terminated, unknown, Subscriber, Store}
use my_demo_app.Subscriber.Service.{World, is_known, allowed_transitions, change_status}
use my_demo_app.Subscriber.Service.Issued.{IsIssued}
use my_demo_app.Subscriber.Service.Transitions.{passes}
use my_demo_app.Subscriber.Service.Change.{
  change_passed, passes-IsCanonical, change_status-IsIssued,
}
use my_demo_app.Subscriber.Service.Agree.{
  Every, Answer, subscriber, status_changed, apply, apply_all,
}
use my_demo_app.Store.Db.{Db, put_subscriber, IsStore}

abbrev pub IsChanged : Answer → Type 0
IsChanged (subscriber (ok s)) = Unit
IsChanged _ = ⊥

-- Whether the code's tests let one status after the other through, and the status at the end.
abbrev walk : Status → List Status → Bool
walk from [] = true
walk from (to ∷ path) = passes from to && walk to path

abbrev end_of : Status → List Status → Status
end_of from [] = from
end_of from (to ∷ path) = end_of to path

-- From one known status to another.
abbrev steps : Status → Status → List Status
steps active active = []
steps suspended suspended = []
steps terminated terminated = []
steps terminated suspended = active ∷ suspended ∷ []
steps from to = to ∷ []

steps_lem :
    (from to : Status)
    → is_known from ≡ true
    → is_known to ≡ true
    → (walk from (steps from to) ≡ true)
      × (end_of from (steps from to) ≡ to)
      × (length (steps from to) ≤ 2)
unfolding is_known allowed_transitions
steps_lem active active h k = (refl, refl, omega arith)
steps_lem active suspended h k = (refl, refl, omega arith)
steps_lem active terminated h k = (refl, refl, omega arith)
steps_lem suspended active h k = (refl, refl, omega arith)
steps_lem suspended suspended h k = (refl, refl, omega arith)
steps_lem suspended terminated h k = (refl, refl, omega arith)
steps_lem terminated active h k = (refl, refl, omega arith)
steps_lem terminated suspended h k = (refl, refl, omega arith)
steps_lem terminated terminated h k = (refl, refl, omega arith)
steps_lem (unknown s) to h k = cc
steps_lem active (unknown t) h k = cc
steps_lem suspended (unknown t) h k = cc
steps_lem terminated (unknown t) h k = cc

both : (a b : Bool) → (a && b) ≡ true → (a ≡ true) × (b ≡ true)
both true b h = (refl, h)
both false b h = cc

module _ {S : Type 0} {store : Store S} {view : S → Db} (laws : IsStore store view) where
  change_status-IsChanged :
      (n : ℕ) (id : Str) (to : Status) (w : World S) (sub : Subscriber)
      → IsIssued n (view w.store)
      → (view w.store).subscribers id ≡ some sub
      → passes sub.status to ≡ true
      → let (r, after) = change_status store id to w in
        (r ≡ ok (record sub { status = to }))
        × ((view after.store).subscribers id ≡ some (record sub { status = to }))
        × (after.id_counter ≡ w.id_counter)
  change_status-IsChanged n id to w sub h there pass =
      let new = record sub { status = to } in
      let same : sub.id ≡ id = (h.subscriber id sub there).0 in
      let key : (view w.store).subscribers sub.id ≡ some sub =
        ap (view w.store).subscribers same ∙ there in
      let (done, effect) =
        laws.update_subscriber_lem new sub w.store key (passes-IsCanonical sub.status to pass) in
      let stored : (put_subscriber new (view w.store)).subscribers id ≡ some new =
        rw (same, str_eq_refl id) refl in
      rw (change_passed laws id to w sub there pass done)
        (refl, ap (λ (d : Db). d.subscribers id) effect ∙ stored, refl)

  all-IsChanged :
      (n : ℕ) (id : Str) (path : List Status) (w : World S) (sub : Subscriber)
      → IsIssued n (view w.store)
      → (view w.store).subscribers id ≡ some sub
      → walk sub.status path ≡ true
      → let (answers, after) = apply_all store (map (status_changed id) path) w in
        Every IsChanged answers
        × ((view after.store).subscribers id
            ≡ some (record sub { status = end_of sub.status path }))
        × (after.id_counter ≡ w.id_counter)
  unfolding apply_all apply
  all-IsChanged n id [] w sub h there pass = (tt, there, refl)
  all-IsChanged n id (to ∷ path) w sub h there pass =
      let (first, rest) = both (passes sub.status to) (walk to path) pass in
      let (done, stored, kept) = change_status-IsChanged n id to w sub h there first in
      let (answers, ended, counter) =
        all-IsChanged n id path (change_status store id to w).1 (record sub { status = to })
          (change_status-IsIssued laws n id to w h) stored rest in
      ((subst (λ r. IsChanged (subscriber r)) (sym done) tt, answers), ended, counter ∙ kept)

  -- Over a store that keeps the laws of the interface and holds issued IDs, a stored subscriber
  -- whose status is known can be brought to every known status, from terminated too, by at most two
  -- calls of ChangeStatus that all succeed; then it is stored as before with the new status, and
  -- the counter of IDs is as it was.
  pub apply_all-status_changed :
      (n : ℕ) (id : Str) (to : Status) (w : World S) (sub : Subscriber)
      → IsIssued n (view w.store)
      → (view w.store).subscribers id ≡ some sub
      → is_known sub.status ≡ true
      → is_known to ≡ true
      → (path : List Status) × (length path ≤ 2)
        × (let (answers, after) = apply_all store (map (status_changed id) path) w in
            Every IsChanged answers
            × ((view after.store).subscribers id ≡ some (record sub { status = to }))
            × (after.id_counter ≡ w.id_counter))
  apply_all-status_changed n id to w sub h there known wanted =
      let path = steps sub.status to in
      let (pass, ends, short) = steps_lem sub.status to known wanted in
      let (answers, stored, counter) = all-IsChanged n id path w sub h there pass in
      (path, short, (answers, stored ∙ ap (λ st. some (record sub { status = st })) ends, counter))
