-- ===== src/Store/Sqlite/Errors.antt =====
-- internal/store/sqlite.go: the errors, whatever the driver answers.
use my_demo_app.Prelude.{
  ◌≡◌, refl, true, false, Option, none, some, List, [], ◌∷◌, ◌++◌, if◌then◌else◌,
}
use my_demo_app.Prelude.Int.{ℤ, equal_ℤ, pos}
use my_demo_app.Text.{Str, lit, has_prefix}
use my_demo_app.Time.{Time}
use my_demo_app.Exec.{
  Reply, value, error, Error, Result, not_found, validation, invalid_status_transition, failed, ok,
  err,
}
use my_demo_app.Subscriber.{Plan, Subscriber, UsageRecord}
use my_demo_app.Store.Driver.{Row, Rows, Driver, FirstRow, row, no_rows, broken}
use my_demo_app.Store.Statements.{update_row}
use my_demo_app.Store.Sqlite.{
  update_args, store_error, scan_plan, scan_subscriber, scan_usage, done, scanned, and_more,
  collect, one, all, create_plan, get_plan, list_plans, create_subscriber, get_subscriber,
  list_subscribers, updated, update_subscriber, add_usage, list_usage, ping, delete_all, reset,
}

-- An error of the database, with the package and the operation in front.
abbrev pub IsWrapped : Error → Type 0
IsWrapped (failed message) = has_prefix message (lit "store: ") ≡ true
IsWrapped _ = ⊥

abbrev pub IsWrappedOrMissing : Error → Type 0
IsWrappedOrMissing not_found = Unit
IsWrappedOrMissing e = IsWrapped e

-- What holds of the error of a call, if it has one.
abbrev pub OnError : {A : Type 0} → (Error → Type 0) → Result A → Type 0
OnError P (ok a) = Unit
OnError P (err e) = P e

pub wrapped : (what e : Str) → IsWrapped (store_error what e)
unfolding has_prefix
wrapped what e = refl

wrapped-IsWrappedOrMissing : (e : Error) → IsWrapped e → IsWrappedOrMissing e
wrapped-IsWrappedOrMissing not_found h = tt
wrapped-IsWrappedOrMissing (validation p) h = h
wrapped-IsWrappedOrMissing invalid_status_transition h = h
wrapped-IsWrappedOrMissing (failed message) h = h

done-errors : {A : Type 0} (what : Str) (r : Reply A) → OnError IsWrapped (done what r)
done-errors what (value a) = tt
done-errors what (error e) = wrapped what e

scanned-errors :
    {A : Type 0} (what misfit : Str) (o : Option A) → OnError IsWrapped (scanned what misfit o)
scanned-errors what misfit none = wrapped what misfit
scanned-errors what misfit (some a) = tt

and_more-errors :
    {A : Type 0} (r : Result A) (more : Result (List A))
    → OnError IsWrapped r
    → OnError IsWrapped more
    → OnError IsWrapped (and_more r more)
and_more-errors (err e) more h k = h
and_more-errors (ok a) (err e) h k = k
and_more-errors (ok a) (ok more) h k = tt

or_missing : {A : Type 0} (r : Result A) → OnError IsWrapped r → OnError IsWrappedOrMissing r
or_missing (ok a) h = tt
or_missing (err e) h = wrapped-IsWrappedOrMissing e h

collect-errors :
    {A : Type 0} (misfit : Row → Str) (scan : Row → Option A) (what list : Str) (rows : List Row)
    (failure : Option Str)
    → OnError IsWrapped (collect misfit scan what list rows failure)
unfolding collect
collect-errors misfit scan what list [] none = tt
collect-errors misfit scan what list [] (some e) = wrapped (list ++ lit " rows") e
collect-errors misfit scan what list (r ∷ rows) failure =
    and_more-errors (scanned what (misfit r) (scan r)) (collect misfit scan what list rows failure)
      (scanned-errors what (misfit r) (scan r)) (collect-errors misfit scan what list rows failure)

module _ {D : Type 0} (driver : Driver D) where
  one-errors :
      {A : Type 0} (scan : Row → Option A) (what : Str) (first : FirstRow)
      → OnError IsWrappedOrMissing (one driver scan what first)
  one-errors scan what no_rows = tt
  one-errors scan what (broken e) = wrapped what e
  one-errors scan what (row r) =
      or_missing (scanned what (driver.misfit r) (scan r))
        (scanned-errors what (driver.misfit r) (scan r))

  all-errors :
      {A : Type 0} (scan : Row → Option A) (what list : Str) (reply : Reply Rows)
      → OnError IsWrapped (all driver scan what list reply)
  all-errors scan what list (error e) = wrapped list e
  all-errors scan what list (value answer) =
      collect-errors driver.misfit scan what list answer.rows answer.failure

  updated-errors : (reply : Reply (Reply ℤ)) → OnError IsWrappedOrMissing (updated driver reply)
  updated-errors (error e) = wrapped (lit "update subscriber") e
  updated-errors (value (error e)) = wrapped (lit "update subscriber rows") e
  updated-errors (value (value n)) =
      elim (equal_ℤ n (pos 0))
        as (λ hit.
          OnError {A = Unit {0}} IsWrappedOrMissing (if hit then err not_found else ok tt)) [
            | true ↦ tt
            | false ↦ tt
          ]

  delete_all-errors : (tables : List Str) (d : D) → OnError IsWrapped (delete_all driver tables d).0
  unfolding delete_all
  delete_all-errors [] d = tt
  delete_all-errors (table ∷ more) d =
      let (reply, d') = driver.exec (lit "DELETE FROM " ++ table) [] d in
      elim reply
        as (λ (r : Reply (Reply ℤ)). OnError {A = Unit {0}} IsWrapped (
          (elim r as (λ x. Result (Unit {0}) × D) [
            | value n ↦ delete_all driver more d'
            | error e ↦ (err (store_error (lit "reset " ++ table) e), d')
          ]).0)) [
            | value n ↦ delete_all-errors more d'
            | error e ↦ wrapped (lit "reset " ++ table) e
          ]

  -- Whatever the driver answers, an error of the SQLite store is a wrapped one whose text begins
  -- with store:, or, of the three methods that look for one row by its ID, not found.
  pub sqlite_store-errors :
      (p : Plan) (s : Subscriber) (u : UsageRecord) (id words : Str) (limit offset : ℤ)
      (from to : Time) (d : D)
      → OnError IsWrapped (create_plan driver p d).0
        × OnError IsWrappedOrMissing (get_plan driver id d)
        × OnError IsWrapped (list_plans driver limit offset d)
        × OnError IsWrapped (create_subscriber driver s d).0
        × OnError IsWrappedOrMissing (get_subscriber driver id d)
        × OnError IsWrapped (list_subscribers driver words limit offset d)
        × OnError IsWrappedOrMissing (update_subscriber driver s d).0
        × OnError IsWrapped (add_usage driver u d).0
        × OnError IsWrapped (list_usage driver id from to d)
        × OnError IsWrapped (ping driver d)
        × OnError IsWrapped (reset driver d).0
  unfolding create_plan get_plan list_plans create_subscriber get_subscriber list_subscribers
      update_subscriber add_usage list_usage ping reset
  sqlite_store-errors p s u id words limit offset from to d = (
    done-errors (lit "create plan") _,
    one-errors scan_plan (lit "get plan") _,
    all-errors scan_plan (lit "scan plan") (lit "list plans") _,
    done-errors (lit "create subscriber") _,
    one-errors scan_subscriber (lit "get subscriber") _,
    all-errors scan_subscriber (lit "scan subscriber") (lit "list subscribers") _,
    updated-errors (driver.exec update_row (update_args s) d).0,
    done-errors (lit "add usage") _,
    all-errors scan_usage (lit "scan usage") (lit "list usage") _,
    done-errors (lit "ping") _,
    delete_all-errors _ d,
  )
