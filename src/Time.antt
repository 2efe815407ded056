-- ===== src/Time.antt =====
-- What the code uses of Go's `time`: instants with a location, their order, and the calendar.
-- An instant is a number of nanoseconds since 0001-01-01T00:00:00Z, the zero `time.Time`; earlier
-- instants are not modelled.
pub mod Calendar
pub mod Bounds
pub mod Utc
use my_demo_app.Prelude.{
  ℕ, zero, suc, ◌+◌, ◌-◌, ◌*◌, ◌/◌, ◌%◌, ◌^◌, ◌≤◌, ◌<◌, ◌≡◌, refl, sym, ap, ap₂, ◌∙◌, ◌≡⟨◌⟩◌, ◌∎,
  ◌≢◌, ◌↔◌, ◌⊎◌, inl, inr, Bool, true, false, not, ◌&&◌, ◌||◌, Option, none, some, List, [], ◌∷◌,
  ◌++◌, map, arith, ltb, leb, ◌==◌, if◌then◌else◌, ltb→lt, lt→ltb, leb→le, ==_iff, tests,
  Bool-cases, Option-cases, length, get_elem?, set, length-append, length-set, get_elem?-set_self,
  get_elem?-set_ne, get_or, take, drop, replicate, take-append-drop, length-take, length-drop,
  length-replicate, length-map,
}
use my_demo_app.Prelude.Int.{
  ℤ, pos_part, neg_part, sub_ℕ, ◌+ℤ◌, ◌-ℤ◌, ◌*ℤ◌, ◌≤ℤ◌, ltb_ℤ, +ℤ_comm, +ℤ_assoc, +ℤ_cancel,
  ≤ℤ_total, +ℤ_parts, -ℤ_parts, eq_of_parts, int_laws, +ℤ_mono, pos, negsuc,
}
use my_demo_app.Word.{wrap64}

-- A `time.Location`: the offset from UTC in seconds at each second since the year 1.
abbrev pub Location : Type 0
Location = ℕ → ℤ

abbrev pub utc : Location
utc second = pos 0

pub record Time : Type 0 where
  pub instant : ℕ
  pub location : Location

abbrev pub second_ns : ℕ
second_ns = 1_000_000_000

abbrev pub hour_ns : ℕ
hour_ns = 3_600_000_000_000

-- `t.Before(u)`, `t.After(u)`, `t.Equal(u)` and `t.IsZero()` compare instants.
abbrev pub before : Time → Time → Bool
before t u = ltb t.instant u.instant

abbrev pub after : Time → Time → Bool
after t u = ltb u.instant t.instant

abbrev pub equal : Time → Time → Bool
equal t u = t.instant == u.instant

abbrev pub is_zero : Time → Bool
is_zero t = t.instant == 0

-- `t.In(loc)`: `t.Local()` and `t.UTC()` are the same instant in another location.
abbrev pub within : Location → Time → Time
within loc t = record t { location = loc }

-- `t.Sub(u)`: nanoseconds, held to the range of an `int64`.
unfoldable pub sub : Time → Time → ℤ
sub t u =
    let d = sub_ℕ t.instant u.instant in
    if leb (2 ^ 63) (pos_part d)
    then pos (2 ^ 63 - 1)
    else if leb (2 ^ 63) (neg_part d)
    then negsuc (2 ^ 63 - 1)
    else d
