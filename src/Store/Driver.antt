-- ===== src/Store/Driver.antt =====
-- `database/sql` as internal/store/sqlite.go uses it, over a driver that is a parameter (it is
-- modernc.org/sqlite): what it answers to a statement's text and arguments, and what it makes of the
-- database.
use my_demo_app.Exec.{Reply, value, error}
use my_demo_app.Prelude.{Option, none, some, List, [], ◌∷◌}
use my_demo_app.Prelude.Int.{ℤ}
use my_demo_app.Text.{Str}
use my_demo_app.Time.{Time}

-- A value of a column or of an argument.
pub data Value : Type 0 where
  text : Str → Value
  integer : ℤ → Value
  timestamp : Time → Value

abbrev pub Row : Type 0
Row = List Value

-- The rows of a query up to the end, or up to the error that `rows.Err()` then returns.
pub record Rows : Type 0 where
  pub rows : List Row
  pub failure : Option Str

-- `ExecContext`, with the answer of `RowsAffected`, `QueryContext` and `PingContext`.
pub record Driver (D : Type 0) : Type 0 where
  pub exec : Str → List Value → D → Reply (Reply ℤ) × D
  pub query : Str → List Value → D → Reply Rows
  pub ping : D → Reply (Unit {0})
  -- The text with which `Scan` refuses a row that does not fit.
  pub misfit : Row → Str

-- What `QueryRowContext` leaves for `Scan`: the first row, none, or an error.
pub data FirstRow : Type 0 where
  row : Row → FirstRow
  no_rows : FirstRow
  broken : Str → FirstRow

abbrev first_of : List Row → Option Str → FirstRow
first_of [] none = no_rows
first_of [] (some e) = broken e
first_of (r ∷ rs) failure = row r

unfoldable pub first_row : Reply Rows → FirstRow
first_row (error e) = broken e
first_row (value answer) = first_of answer.rows answer.failure
