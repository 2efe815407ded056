-- ===== src/Store/Sqlite/Restart.antt =====
-- A second process over the database of internal/store/sqlite.go that an earlier one has filled: the
-- counter of internal/subscriber/service.go starts at 0 again.
use my_demo_app.Prelude.{
  ℕ, ◌+◌, ◌^◌, ◌≤◌, ◌<◌, ◌≡◌, refl, sym, ap, ◌∙◌, inl, inr, some, List, [], ◌∷◌, map, arith, length,
  Bool-cases,
}
use my_demo_app.Prelude.Int.{pos}
use my_demo_app.Text.{Str, str_eq}
use my_demo_app.Exec.{Error, error, ok, err}
use my_demo_app.Subscriber.{Plan}
use my_demo_app.Subscriber.Service.{World, create_plan}
use my_demo_app.Subscriber.Service.Issued.{
  empty-IsIssued, plan_id, IsIssued, fresh_plan, put_plan-IsIssued, IsIssued-up,
}
use my_demo_app.Subscriber.Service.Plans.{
  IsSellable, IsSellable-plan_problem, plan_accepted, plan_unstored,
}
use my_demo_app.Subscriber.Service.Agree.{Every, apply, Answer, plan, plan_created, apply_all}
use my_demo_app.Store.Db.{empty_db, Db, put_plan, IsStore}
use mathlib.Core.Path.{subst}
use my_demo_app.Prelude.{Bool, true, false, ◌⊎◌}
use my_demo_app.Text.{str_eq_iff, lit}
use my_demo_app.Subscriber.{Store}
use my_demo_app.Store.Sqlite.{store_error}
use my_demo_app.Store.Sqlite.Errors.{wrapped}
use my_demo_app.Store.Driver.{Driver}
use my_demo_app.Store.Statements.{insert_plan}
use my_demo_app.Store.Sqlite.{sqlite_store}
use my_demo_app.Store.Sqlite
use my_demo_app.Store.Sqlite.Errors.{IsWrapped}
use my_demo_app.Store.Sqlite.Tables.{Tables, plan_row, find_by, IsHealthy}
use my_demo_app.Store.Sqlite.Laws.{db_of, sqlite_store-IsStore}

-- An `INSERT` of a primary key that is in use fails and changes no table.
pub record IsStrict {D : Type 0} (driver : Driver D) (tables : D → Tables) : Type 0 where
  pub taken_lem :
      (p q : Plan) (d : D)
      → find_by (λ (x : Plan). x.id) p.id (tables d).plans ≡ some q
      → let (reply, d') = driver.exec insert_plan (plan_row p) d in
        (e : Str) × (reply ≡ error e) × (tables d' ≡ tables d)

abbrev pub IsMade : Answer → Type 0
IsMade (plan (ok p)) = Unit
IsMade _ = ⊥

abbrev pub IsRefused : Answer → Type 0
IsRefused (plan (err e)) = IsWrapped e
IsRefused _ = ⊥

-- The plans with the first IDs are there.
abbrev pub HasFirst : ℕ → Db → Type 0
HasFirst n d = (i : ℕ) → 1 ≤ i → i ≤ n → (q : Plan) × (d.plans (plan_id i) ≡ some q)

last_or_earlier : (i n : ℕ) → i ≤ n + 1 → (i ≡ n + 1) ⊎ (i ≤ n)
last_or_earlier i n h = omega arith

false-ne-true : ¬ (Path Bool false true)
false-ne-true e = cc

put_plan-HasFirst :
    (n : ℕ) (p : Plan) (d : Db)
    → p.id ≡ plan_id (n + 1)
    → HasFirst n d
    → HasFirst (n + 1) (put_plan p d)
put_plan-HasFirst n p d own h i least most = elim (Bool-cases (str_eq p.id (plan_id i))) [
  | inl same ↦ (p, rw same refl)
  | inr differs ↦ elim (last_or_earlier i n most) [
    | inl last ↦ absurd (
        false-ne-true (sym differs ∙ (str_eq_iff p.id (plan_id i)).1 (own ∙ ap plan_id (sym last))))
    | inr earlier ↦ let (q, there) = h i least earlier in (q, rw differs there)
  ]
]

module _ {S : Type 0} {store : Store S} {view : S → Db} (laws : IsStore store view) where
  create_plan-IsMade :
      (n : ℕ) (p : Plan) (w : World S)
      → IsSellable p
      → w.id_counter ≡ pos n
      → n + 1 < 2 ^ 63
      → IsIssued n (view w.store)
      → HasFirst n (view w.store)
      → let (r, after) = create_plan store p w in
        ((q : Plan) × (r ≡ ok q))
        × (after.id_counter ≡ pos (n + 1))
        × IsIssued (n + 1) (view after.store)
        × HasFirst (n + 1) (view after.store)
  create_plan-IsMade n p w sellable counter room issued first =
      let new = record p { id = plan_id (n + 1) } in
      let d = view w.store in
      let (done, effect) = laws.create_plan_lem new w.store (fresh_plan n d issued room) in
      rw (plan_accepted store n p w (IsSellable-plan_problem p sellable) counter room done) (
        (new, refl),
        refl,
        subst (IsIssued (n + 1)) (sym effect)
            (put_plan-IsIssued (n + 1) d new refl (IsIssued-up n (n + 1) d (omega arith) issued)),
        subst (HasFirst (n + 1)) (sym effect) (put_plan-HasFirst n new d refl first),
      )

  apply_all-IsMade :
      (n : ℕ) (ps : List Plan) (w : World S)
      → Every IsSellable ps
      → w.id_counter ≡ pos n
      → n + length ps < 2 ^ 63
      → IsIssued n (view w.store)
      → HasFirst n (view w.store)
      → let (answers, after) = apply_all store (map plan_created ps) w in
        Every IsMade answers × HasFirst (n + length ps) (view after.store)
  unfolding apply_all apply
  apply_all-IsMade n [] w sellable counter room issued first =
      (tt, λ i least most. first i least (omega arith))
  apply_all-IsMade n (p ∷ ps) w sellable counter room issued first =
      let ((q, stored), raised, issued', first') =
        create_plan-IsMade n p w sellable.0 counter (omega arith) issued first in
      let (answers, rest) =
        apply_all-IsMade (n + 1) ps (create_plan store p w).1 sellable.1 raised (omega arith)
          issued' first' in
      (
        (subst (λ r. IsMade (plan r)) (sym stored) tt, answers),
        λ i least most. rest i least (omega arith),
      )

module _ {D : Type 0} (driver : Driver D) (tables : D → Tables)
    (strict : IsStrict driver tables) where
  create_plan-IsRefused :
      (n : ℕ) (p q : Plan) (w : World D)
      → IsSellable p
      → w.id_counter ≡ pos n
      → n + 1 < 2 ^ 63
      → (db_of (tables w.store)).plans (plan_id (n + 1)) ≡ some q
      → let (r, after) = create_plan (sqlite_store driver) p w in
        ((e : Error) × (r ≡ err e) × IsWrapped e)
        × (after.id_counter ≡ pos (n + 1))
        × (tables after.store ≡ tables w.store)
  unfolding Sqlite.create_plan sqlite_store
  create_plan-IsRefused n p q w sellable counter room there =
      let new = record p { id = plan_id (n + 1) } in
      let (e, failed_with, kept) = strict.taken_lem new q w.store there in
      let message = store_error (lit "create plan") e in
      let unstored : (Sqlite.create_plan driver new w.store).0 ≡ err message =
        rw failed_with refl in
      rw
        (plan_unstored (sqlite_store driver) n p w message (IsSellable-plan_problem p sellable)
          counter room unstored)
        ((message, refl, wrapped (lit "create plan") e), refl, kept)

  all-IsRefused :
      (n k : ℕ) (ps : List Plan) (w : World D)
      → Every IsSellable ps
      → w.id_counter ≡ pos n
      → n + length ps ≤ k
      → k < 2 ^ 63
      → HasFirst k (db_of (tables w.store))
      → let (answers, after) = apply_all (sqlite_store driver) (map plan_created ps) w in
        Every IsRefused answers × (tables after.store ≡ tables w.store)
  unfolding apply_all apply
  all-IsRefused n k [] w sellable counter few room first = (tt, refl)
  all-IsRefused n k (p ∷ ps) w sellable counter few room first =
      let (q, there) = first (n + 1) (omega arith) (omega arith) in
      let ((e, failed_with, in_front), raised, kept) =
        create_plan-IsRefused n p q w sellable.0 counter (omega arith) there in
      let (answers, rest) =
        all-IsRefused (n + 1) k ps (create_plan (sqlite_store driver) p w).1 sellable.1 raised
          (omega arith) room (subst (λ t. HasFirst k (db_of t)) (sym kept) first) in
      ((subst (λ r. IsRefused (plan r)) (sym failed_with) in_front, answers), rest ∙ kept)

  -- Over a driver that keeps the documented behaviour of the statements and refuses a primary key
  -- that is in use, a process that begins with empty tables stores every plan of a sequence of
  -- valid ones; a second process on the same database, whose counter starts at 0 again, gets the
  -- error of the database for each of as many valid plans and changes no table.
  pub apply_all-IsRefused :
      IsHealthy driver tables
      → (ps qs : List Plan) (d : D) → db_of (tables d) ≡ empty_db
      → Every IsSellable ps
      → Every IsSellable qs
      → length qs ≤ length ps
      → length ps < 2 ^ 63
      → let (made, filled) =
          apply_all
            (sqlite_store driver)
            (map plan_created ps)
            (record { store = d; id_counter = pos 0 }) in
        let (again, after) =
          apply_all
            (sqlite_store driver)
            (map plan_created qs)
            (record filled { id_counter = pos 0 }) in
        Every IsMade made × Every IsRefused again × (tables after.store ≡ tables filled.store)
  apply_all-IsRefused sound ps qs d empty good_ps good_qs few room =
      let w : World D = record { store = d; id_counter = pos 0 } in
      let (made, first) =
        apply_all-IsMade (sqlite_store-IsStore driver tables sound) 0 ps w good_ps refl
          (omega arith) (subst (IsIssued 0) (sym empty) (empty-IsIssued 0))
          (λ i least most. absurd (omega arith)) in
      let filled = (apply_all (sqlite_store driver) (map plan_created ps) w).1 in
      let (again, kept) =
        all-IsRefused 0 (length ps) qs (record filled { id_counter = pos 0 }) good_qs refl
          (omega arith) room (λ i least most. first i least (omega arith)) in
      (made, again, kept)
