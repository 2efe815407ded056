-- ===== src/Store/Sqlite/Search.antt =====
-- internal/store/sqlite.go: the search of `ListSubscribers` against the in-memory store's.
use mathlib.Core.List.{Permᴰ, Memᴰ}
use mathlib.Core.List.Pairwise
use my_demo_app.Prelude.{ℕ, ◌≡◌, refl, ap, ◌∙◌, Bool, ◌||◌, none, List, [], ◌∷◌, ◌++◌, map}
use my_demo_app.Prelude.Int.{ℤ, ◌≤ℤ◌, pos}
use my_demo_app.Text.{Str, lit, is_empty}
use my_demo_app.Text.Trim.{trim_space}
use my_demo_app.Exec.{ok}
use my_demo_app.Subscriber.{Subscriber}
use my_demo_app.Store.Filter.{keep_if, keep_if-sublist, keep_if-perm}
use my_demo_app.Store.Sort.{sort_by, HasDistinct, sort_by-perm}
use my_demo_app.Store.Assoc.{values}
use my_demo_app.Store.Memory.{MemoryStore, matches}
use my_demo_app.Store.Memory
use my_demo_app.Store.Driver.{Row, Driver}
use my_demo_app.Store.Sqlite.{search_query, list_subscribers, scan_subscriber, collect}
use my_demo_app.Store.Sqlite.Tables.{Tables, subscriber_row, complete, as_read}
use my_demo_app.Store.Sqlite.Like.{fold_case, like, IsPlain, like-contains}
use my_demo_app.Store.Sqlite.Lists.{paginate-sql_page, paginate-sql_page, sql_page}

-- `WHERE name LIKE '%words%' OR msisdn LIKE '%words%'`, or no `WHERE`.
abbrev pub like_test : Str → Subscriber → Bool
like_test words s =
    is_empty words
    || like (lit "%" ++ words ++ lit "%") s.name
    || like (lit "%" ++ words ++ lit "%") s.msisdn

-- A text that `unicode.ToLower` and the fold of ASCII letters change in the same way.
abbrev pub IsFoldedBy : (ℕ → ℕ) → Str → Type 0
IsFoldedBy lower s = map lower s ≡ map fold_case s

test-agrees :
    (lower : ℕ → ℕ) (words : Str) (s : Subscriber)
    → IsPlain words
    → IsFoldedBy lower words
    → IsFoldedBy lower s.name
    → IsFoldedBy lower s.msisdn
    → matches lower (map lower words) s ≡ like_test words s
unfolding matches is_empty
test-agrees lower [] s plain w n m = refl
test-agrees lower (c ∷ words) s plain w n m =
    rw (w, n, m)
      (rw (like-contains (c ∷ words) s.name plain, like-contains (c ∷ words) s.msisdn plain) refl)

keep_if-agrees :
    {A : Type 0} (f g : A → Bool) (rows : List A)
    → ((a : A) → Memᴰ a rows → f a ≡ g a)
    → keep_if f rows ≡ keep_if g rows
unfolding keep_if
keep_if-agrees f g [] same = refl
keep_if-agrees f g (a ∷ rows) same =
    rw (same a (Memᴰ.head refl), keep_if-agrees f g rows (λ b m. same b (Memᴰ.tail m))) refl

collect_rows :
    (misfit : Row → Str) (what list : Str) (rows : List Subscriber)
    → collect misfit scan_subscriber what list (map subscriber_row rows) none
      ≡ ok (map as_read rows)
unfolding collect
collect_rows misfit what list [] = refl
collect_rows misfit what list (s ∷ rows) = rw (collect_rows misfit what list rows) refl

module _ {D : Type 0} (driver : Driver D) (tables : D → Tables) (lower : ℕ → ℕ) where
  -- Where the driver answers the search query as LIKE is documented, with a positive limit, a
  -- trimmed search without the characters %, _ and ', texts that the stores fold alike, and the
  -- same subscribers, their IDs distinct, the SQLite store lists the page of the in-memory store,
  -- each status as its text is read.
  pub list_subscribers-sqlite :
      (m : MemoryStore) (words : Str) (limit offset : ℤ) (d : D)
      → driver.query (search_query words limit offset) [] d
        ≡ complete (
            map subscriber_row (
              sql_page limit offset (
                sort_by
                  (λ (s : Subscriber). s.id)
                  (keep_if (like_test words) (tables d).subscribers))))
      → pos 1 ≤ℤ limit
      → IsPlain words
      → trim_space words ≡ words
      → IsFoldedBy lower words
      → ((s : Subscriber)
          → Memᴰ s (tables d).subscribers
          → IsFoldedBy lower s.name × IsFoldedBy lower s.msisdn)
      → HasDistinct (λ (s : Subscriber). s.id) (values m.subscribers)
      → Permᴰ (values m.subscribers) (tables d).subscribers
      → (page : List Subscriber) × (Memory.list_subscribers lower words limit offset m ≡ ok page)
        × (list_subscribers driver words limit offset d ≡ ok (map as_read page))
  unfolding list_subscribers Memory.list_subscribers
  list_subscribers-sqlite m words limit offset d answers positive plain trimmed folded names
        distinct same =
      let key : Subscriber → Str = λ s. s.id in
      let rows = (tables d).subscribers in
      let test = matches lower (map lower words) in
      let tests : keep_if test rows ≡ keep_if (like_test words) rows =
        keep_if-agrees test (like_test words) rows
          (λ s there. test-agrees lower words s plain folded (names s there).0 (names s there).1) in
      let sorted : sort_by key (keep_if test (values m.subscribers))
          ≡ sort_by key (keep_if (like_test words) rows) =
        sort_by-perm key (keep_if-perm test same)
          (Pairwise.sublistᴰ (keep_if-sublist test (values m.subscribers)) distinct)
        ∙ ap (sort_by key) tests in
      let page = sql_page limit offset (sort_by key (keep_if (like_test words) rows)) in
      (
        page,
        rw trimmed (
            ap ok (
              paginate-sql_page limit offset (sort_by key (keep_if test (values m.subscribers)))
                positive
              ∙ ap (sql_page limit offset) sorted)),
        rw answers (collect_rows driver.misfit _ _ page),
      )
