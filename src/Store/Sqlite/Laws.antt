-- ===== src/Store/Sqlite/Laws.antt =====
-- internal/store/sqlite.go keeps what the `Store` interface promises, over a healthy driver.
use mathlib.Core.List.{append-nil}
use mathlib.Core.Option.{none-ne-some}
use my_demo_app.Prelude.{
  ◌≡◌, refl, sym, ap, ◌∙◌, inl, inr, Bool, true, false, Option, none, some, List, [], ◌∷◌, ◌++◌,
  arith, if◌then◌else◌, Bool-cases, Option-cases,
}
use my_demo_app.Prelude.Int.{ℤ}
use my_demo_app.Text.{Str, lit, str_eq, str_eq_iff, str_eq_refl}
use my_demo_app.Exec.{Reply, value, not_found, ok, err}
use my_demo_app.Subscriber.{IsCanonical, Plan, Subscriber, UsageRecord}
use my_demo_app.Store.Filter.{keep_if, keep_if-append}
use my_demo_app.Store.Db.{
  Db, or_not_found, put_plan, put_subscriber, put_usage, empty_db, IsFreshUsage, IsStore,
}
use my_demo_app.Store.Driver.{Driver, first_row}
use my_demo_app.Store.Sqlite.{
  create_plan, get_plan, create_subscriber, get_subscriber, update_subscriber, add_usage,
  delete_all, reset, sqlite_store,
}
use my_demo_app.Store.Sqlite.Keys.{
  find_by-append, find_by-replace_by, replace_by-missing, find_by-some, mem-having, having-none,
  having-some,
}
use my_demo_app.Store.Sqlite.Tables.{as_read, Tables, having, find_by, replace_by, IsHealthy}

abbrev pub read_back : Option Subscriber → Option Subscriber
read_back none = none
read_back (some s) = some (as_read s)

-- The three maps of the tables.
abbrev pub db_of : Tables → Db
db_of t = record {
  plans = λ k. find_by (λ (x : Plan). x.id) k t.plans;
  subscribers = λ k. read_back (find_by (λ (x : Subscriber). x.id) k t.subscribers);
  usage = λ k. having (λ (x : UsageRecord). x.subscriber_id) k t.usage;
}

-- An event whose ID is not recorded for any subscriber is not in the table.
usage-fresh :
    (u : UsageRecord) (t : Tables)
    → IsFreshUsage u (db_of t)
    → find_by (λ (x : UsageRecord). x.id) u.id t.usage ≡ none
usage-fresh u t fresh = elim (Option-cases (find_by (λ (x : UsageRecord). x.id) u.id t.usage)) [
  | inl none_there ↦ none_there
  | inr (r, there) ↦
      let (same, mem) = find_by-some (λ (x : UsageRecord). x.id) u.id r t.usage there in
      absurd (
        fresh r.subscriber_id r (mem-having (λ (x : UsageRecord). x.subscriber_id) r t.usage mem)
          same)
]

usage-append :
    (u : UsageRecord) (rows : List UsageRecord) (k : Str)
    → let of = having (λ (x : UsageRecord). x.subscriber_id) in
      of k (rows ++ u ∷ [])
      ≡ (if str_eq u.subscriber_id k then of u.subscriber_id rows ++ u ∷ [] else of k rows)
usage-append u rows k = rw (keep_if-append) (elim (Bool-cases (str_eq u.subscriber_id k)) [
  | inl same ↦
      rw (same, (str_eq_iff u.subscriber_id k).0 same) (unfold keep_if in rw (str_eq_refl k) refl)
  | inr other ↦ rw other (unfold keep_if in rw other (append-nil _))
])

read_back-none : (o : Option Subscriber) → read_back o ≡ none → o ≡ none
read_back-none none h = refl
read_back-none (some s) h = cc

read_back-if :
    (b : Bool) (s : Subscriber) (o : Option Subscriber)
    → IsCanonical s.status
    → read_back (if b then some s else o) ≡ (if b then some s else read_back o)
read_back-if true s o canonical = ap (λ st. some (record s { status = st })) canonical
read_back-if false s o canonical = refl

module _ {D : Type 0} (driver : Driver D) (tables : D → Tables)
    (sound : IsHealthy driver tables) where
  get_plan-find_by :
      (id : Str) (d : D)
      → get_plan driver id d ≡ or_not_found (find_by (λ (x : Plan). x.id) id (tables d).plans)
  unfolding get_plan first_row
  get_plan-find_by id d =
      rw (sound.select_plan_lem id d)
        (elim (Option-cases (find_by (λ (x : Plan). x.id) id (tables d).plans)) [
          | inl missing ↦
              rw (missing, having-none (λ (x : Plan). x.id) id (tables d).plans missing) refl
          | inr (p, there) ↦
              rw (there, (having-some (λ (x : Plan). x.id) id p (tables d).plans there).1) refl
        ])

  get_subscriber-find_by :
      (id : Str) (d : D)
      → get_subscriber driver id d
        ≡ or_not_found (read_back (find_by (λ (x : Subscriber). x.id) id (tables d).subscribers))
  unfolding get_subscriber first_row
  get_subscriber-find_by id d =
      let rows = (tables d).subscribers in
      rw (sound.select_subscriber_lem id d)
        (elim (Option-cases (find_by (λ (x : Subscriber). x.id) id rows)) [
          | inl missing ↦ rw (missing, having-none (λ (x : Subscriber). x.id) id rows missing) refl
          | inr (s, there) ↦
              rw (there, (having-some (λ (x : Subscriber). x.id) id s rows there).1) refl
        ])

  create_plan_lem :
      (p : Plan) (d : D)
      → find_by (λ (x : Plan). x.id) p.id (tables d).plans ≡ none
      → ((create_plan driver p d).0 ≡ ok tt)
        × (db_of (tables (create_plan driver p d).1) ≡ put_plan p (db_of (tables d)))
  unfolding create_plan
  create_plan_lem p d fresh =
      let (done, effect) = sound.insert_plan_lem p d fresh in
      (
        rw done refl,
        rw effect (λ i. record (db_of (tables d)) {
          plans = λ k. find_by-append (λ (x : Plan). x.id) k p (tables d).plans fresh i;
        }),
      )

  create_subscriber_lem :
      (s : Subscriber) (d : D)
      → read_back (find_by (λ (x : Subscriber). x.id) s.id (tables d).subscribers) ≡ none
      → IsCanonical s.status
      → ((create_subscriber driver s d).0 ≡ ok tt)
        × (db_of (tables (create_subscriber driver s d).1) ≡ put_subscriber s (db_of (tables d)))
  unfolding create_subscriber
  create_subscriber_lem s d missing canonical =
      let rows = (tables d).subscribers in
      let fresh = read_back-none (find_by (λ (x : Subscriber). x.id) s.id rows) missing in
      let (done, effect) = sound.insert_subscriber_lem s d fresh in
      let same : as_read s ≡ s = ap (λ st. record s { status = st }) canonical in
      (
        rw done refl,
        rw (effect ∙ ap (λ x. record (tables d) { subscribers = rows ++ x ∷ [] }) same) (λ i.
            record (db_of (tables d)) {
              subscribers = λ k.
                  (ap read_back (find_by-append (λ (x : Subscriber). x.id) k s rows fresh)
                      ∙ read_back-if (str_eq s.id k) s (find_by (λ (x : Subscriber). x.id) k rows)
                          canonical)
                    i;
            }),
      )

  update_subscriber_lem :
      (s old : Subscriber) (d : D)
      → read_back (find_by (λ (x : Subscriber). x.id) s.id (tables d).subscribers) ≡ some old
      → IsCanonical s.status
      → ((update_subscriber driver s d).0 ≡ ok tt)
        × (db_of (tables (update_subscriber driver s d).1) ≡ put_subscriber s (db_of (tables d)))
  unfolding update_subscriber
  update_subscriber_lem s old d there canonical =
      let rows = (tables d).subscribers in
      let (done, effect) = sound.update_row_lem s d in
      let same : as_read s ≡ s = ap (λ st. record s { status = st }) canonical in
      elim (Option-cases (find_by (λ (x : Subscriber). x.id) s.id rows)) [
        | inl missing ↦ absurd (none-ne-some _ (sym (ap read_back missing) ∙ there))
        | inr (match, has) ↦
            let (more, is) = having-some (λ (x : Subscriber). x.id) s.id match rows has in
            (
              rw (done, is) (ground arith),
              rw
                  (effect
                    ∙ ap
                        (λ x. record (tables d) {
                          subscribers = replace_by (λ (r : Subscriber). r.id) x rows;
                        })
                        same)
                  (λ i. record (db_of (tables d)) {
                    subscribers = λ k.
                        (ap read_back
                              (find_by-replace_by (λ (x : Subscriber). x.id) k s match rows has)
                            ∙ read_back-if (str_eq s.id k) s
                                (find_by (λ (x : Subscriber). x.id) k rows) canonical)
                          i;
                  }),
            )
      ]

  update_subscriber_missing :
      (s : Subscriber) (d : D)
      → read_back (find_by (λ (x : Subscriber). x.id) s.id (tables d).subscribers) ≡ none
      → ((update_subscriber driver s d).0 ≡ err not_found)
        × (db_of (tables (update_subscriber driver s d).1) ≡ db_of (tables d))
  unfolding update_subscriber
  update_subscriber_missing s d missing =
      let rows = (tables d).subscribers in
      let none_there = read_back-none (find_by (λ (x : Subscriber). x.id) s.id rows) missing in
      let (done, effect) = sound.update_row_lem s d in
      (
        rw (done, having-none (λ (x : Subscriber). x.id) s.id rows none_there) refl,
        rw effect
            (rw (replace_by-missing (λ (x : Subscriber). x.id) (as_read s) rows none_there) refl),
      )

  add_usage_lem :
      (u : UsageRecord) (d : D)
      → IsFreshUsage u (db_of (tables d))
      → ((add_usage driver u d).0 ≡ ok tt)
        × (db_of (tables (add_usage driver u d).1) ≡ put_usage u (db_of (tables d)))
  unfolding add_usage
  add_usage_lem u d fresh =
      let (done, effect) = sound.insert_usage_lem u d (usage-fresh u (tables d) fresh) in
      (
        rw done refl,
        rw effect
            (λ i. record (db_of (tables d)) { usage = λ k. usage-append u (tables d).usage k i }),
      )

  delete_all-cons :
      (table : Str) (more : List Str) (d : D) (n : Reply ℤ)
      → (driver.exec (lit "DELETE FROM " ++ table) [] d).0 ≡ value n
      → delete_all driver (table ∷ more) d
        ≡ delete_all driver more (driver.exec (lit "DELETE FROM " ++ table) [] d).1
  unfolding delete_all
  delete_all-cons table more d n done = rw (delete_all, done) refl

  reset_lem :
      (d : D) → ((reset driver d).0 ≡ ok tt) × (db_of (tables (reset driver d).1) ≡ empty_db)
  unfolding reset
  reset_lem d =
      let d1 = (driver.exec (lit "DELETE FROM usage") [] d).1 in
      let d2 = (driver.exec (lit "DELETE FROM subscribers") [] d1).1 in
      let (done1, effect1) = sound.delete_usage_lem d in
      let (done2, effect2) = sound.delete_subscribers_lem d1 in
      let (done3, effect3) = sound.delete_plans_lem d2 in
      let d3 = (driver.exec (lit "DELETE FROM plans") [] d2).1 in
      let runs : reset driver d ≡ (ok tt, d3) =
        delete_all-cons (lit "usage") _ d _ done1
        ∙ delete_all-cons (lit "subscribers") _ d1 _ done2
        ∙ delete_all-cons (lit "plans") _ d2 _ done3
        ∙ unfold delete_all in refl in
      rw runs (refl, rw (effect3, effect2, effect1) (unfold find_by keep_if in refl))

  -- Over a driver that keeps the documented behaviour of the statements, every method of the SQLite
  -- store implements the abstract store of three maps, as the in-memory store does: lookups,
  -- inserts under new IDs, updates of present and missing subscribers, recorded usage and the
  -- reset.
  pub sqlite_store-IsStore : IsStore (sqlite_store driver) (λ d. db_of (tables d))
  unfolding sqlite_store
  sqlite_store-IsStore = record {
    get_plan_lem = get_plan-find_by;
    create_plan_lem = create_plan_lem;
    get_subscriber_lem = get_subscriber-find_by;
    create_subscriber_lem = create_subscriber_lem;
    update_subscriber_lem = update_subscriber_lem;
    update_subscriber_missing = update_subscriber_missing;
    add_usage_lem = add_usage_lem;
    reset_lem = reset_lem;
  }
