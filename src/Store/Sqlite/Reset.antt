-- ===== src/Store/Sqlite/Reset.antt =====
-- internal/store/sqlite.go: `Reset` empties the tables one by one, without a transaction.
use my_demo_app.Prelude.{ap, ◌≡◌, refl, ap, ◌⊎◌, inl, inr, List, [], ◌∷◌, ◌++◌}
use my_demo_app.Prelude.Int.{ℤ}
use my_demo_app.Text.{Str, lit}
use my_demo_app.Exec.{Reply, value, error, Result, ok, err}
use my_demo_app.Store.Driver.{Driver}
use my_demo_app.Store.Sqlite.{store_error, delete_all, reset}

-- What Reset leaves behind from `d`: it stops at the first table that fails, with the tables before
-- it emptied.
pub data ResetOutcome {D : Type 0} (driver : Driver D) (d : D)
    : Result (Unit {0}) × D → Type 0 where
  usage_failed :
      (e : Str) (d1 : D)
      → driver.exec (lit "DELETE FROM usage") [] d ≡ (error e, d1)
      → ResetOutcome driver d (err (store_error (lit "reset usage") e), d1)
  subscribers_failed :
      (n : Reply ℤ) (e : Str) (d1 d2 : D)
      → driver.exec (lit "DELETE FROM usage") [] d ≡ (value n, d1)
      → driver.exec (lit "DELETE FROM subscribers") [] d1 ≡ (error e, d2)
      → ResetOutcome driver d (err (store_error (lit "reset subscribers") e), d2)
  plans_failed :
      (n k : Reply ℤ) (e : Str) (d1 d2 d3 : D)
      → driver.exec (lit "DELETE FROM usage") [] d ≡ (value n, d1)
      → driver.exec (lit "DELETE FROM subscribers") [] d1 ≡ (value k, d2)
      → driver.exec (lit "DELETE FROM plans") [] d2 ≡ (error e, d3)
      → ResetOutcome driver d (err (store_error (lit "reset plans") e), d3)
  all_emptied :
      (n k m : Reply ℤ) (d1 d2 d3 : D)
      → driver.exec (lit "DELETE FROM usage") [] d ≡ (value n, d1)
      → driver.exec (lit "DELETE FROM subscribers") [] d1 ≡ (value k, d2)
      → driver.exec (lit "DELETE FROM plans") [] d2 ≡ (value m, d3)
      → ResetOutcome driver d (ok tt, d3)

Exec-cases :
    {D : Type 0} (out : Reply (Reply ℤ) × D)
    → ((n : Reply ℤ) × (d : D) × (out ≡ (value n, d)))
      ⊎ ((e : Str) × (d : D) × (out ≡ (error e, d)))
Exec-cases (value n, d) = inl (n, d, refl)
Exec-cases (error e, d) = inr (e, d, refl)

module _ {D : Type 0} (driver : Driver D) where
  delete_all-done :
      (table : Str) (more : List Str) (d d' : D) (n : Reply ℤ)
      → driver.exec (lit "DELETE FROM " ++ table) [] d ≡ (value n, d')
      → delete_all driver (table ∷ more) d ≡ delete_all driver more d'
  unfolding delete_all
  delete_all-done table more d d' n e =
      rw (delete_all, e) (ap (λ (p : Reply (Reply ℤ) × D). delete_all driver more p.1) e)

  delete_all-failed :
      (table : Str) (more : List Str) (d d' : D) (message : Str)
      → driver.exec (lit "DELETE FROM " ++ table) [] d ≡ (error message, d')
      → delete_all driver (table ∷ more) d ≡ (err (store_error (lit "reset " ++ table) message), d')
  unfolding delete_all
  delete_all-failed table more d d' message e =
      rw (delete_all, e)
        (ap (λ (p : Reply (Reply ℤ) × D). (err (store_error (lit "reset " ++ table) message), p.1))
          e)

  -- Whatever the driver answers, Reset empties usage, subscribers and plans in this order and stops
  -- at the first statement that fails, with an error that names the table and what the statements
  -- before it did left done.
  pub reset-ResetOutcome : (d : D) → ResetOutcome driver d (reset driver d)
  unfolding reset
  reset-ResetOutcome d = elim (Exec-cases (driver.exec (lit "DELETE FROM usage") [] d)) [
    | inr (e, d1, bad) ↦ rw (delete_all-failed (lit "usage") _ d d1 e bad) (usage_failed e d1 bad)
    | inl (n, d1, a) ↦
        rw (delete_all-done (lit "usage") _ d d1 n a)
          (elim (Exec-cases (driver.exec (lit "DELETE FROM subscribers") [] d1)) [
            | inr (e, d2, bad) ↦
                rw (delete_all-failed (lit "subscribers") _ d1 d2 e bad)
                  (subscribers_failed n e d1 d2 a bad)
            | inl (k, d2, b) ↦
                rw (delete_all-done (lit "subscribers") _ d1 d2 k b)
                  (elim (Exec-cases (driver.exec (lit "DELETE FROM plans") [] d2)) [
                    | inr (e, d3, bad) ↦
                        rw (delete_all-failed (lit "plans") _ d2 d3 e bad)
                          (plans_failed n k e d1 d2 d3 a b bad)
                    | inl (m, d3, c) ↦
                        rw (delete_all-done (lit "plans") _ d2 d3 m c)
                          (unfold delete_all in all_emptied n k m d1 d2 d3 a b c)
                  ])
          ])
  ]
