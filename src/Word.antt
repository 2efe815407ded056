-- ===== src/Word.antt =====
-- Go's `int64` (and `int`, which has 64 bits on the servers' platforms): an integer, with the
-- wrap-around of its arithmetic written out by `wrap64`.
use my_demo_app.Prelude.{ℕ, ◌+◌, ◌-◌, ◌%◌, ◌^◌, ◌≤◌, ◌<◌, ◌≡◌, arith, ltb, if◌then◌else◌, ap}
use my_demo_app.Prelude.Int.{
  ℤ, pos, negsuc, pos_part, neg_part, ◌+ℤ◌, ◌*ℤ◌, +ℤ_parts, +ℤ_comm, ◌-ℤ◌,
}

-- The integer that a bit pattern below 2 ^ 64 stands for.
abbrev pub signed64 : ℕ → ℤ
signed64 w = if ltb w (2 ^ 63) then pos w else negsuc (2 ^ 64 - w - 1)

-- The bit pattern of an integer.
abbrev pub bits64 : ℤ → ℕ
bits64 z = (pos_part z + (2 ^ 64 - neg_part z % 2 ^ 64)) % 2 ^ 64

unfoldable pub wrap64 : ℤ → ℤ
wrap64 z = signed64 (bits64 z)

-- The values of an `int64`.
pub record IsInt64 (z : ℤ) : Type 0 where
  pub below : pos_part z < 2 ^ 63
  pub above : neg_part z ≤ 2 ^ 63

-- Where the exact result fits, wrapping changes nothing.
pub wrap64_id : (z : ℤ) → IsInt64 z → wrap64 z ≡ z
unfolding wrap64
wrap64_id z h = ground arith

pub wrap64-IsInt64 : (z : ℤ) → IsInt64 (wrap64 z)
unfolding wrap64
wrap64-IsInt64 z = ground arith

pub bits64-signed64 : (w : ℕ) → w < 2 ^ 64 → bits64 (signed64 w) ≡ w
bits64-signed64 w h = ground arith

pub bits64-add : (a b : ℤ) → bits64 (a +ℤ b) ≡ (bits64 a + bits64 b) % 2 ^ 64
bits64-add a b = omega (arith, +ℤ_parts a b)

-- A sum may be wrapped at every step or once at the end.
pub wrap64-add_left : (a b : ℤ) → wrap64 (wrap64 a +ℤ b) ≡ wrap64 (a +ℤ b)
unfolding wrap64
wrap64-add_left a b = ap signed64 (
    omega (
      arith,
      bits64-add (signed64 (bits64 a)) b,
      bits64-add a b,
      bits64-signed64 (bits64 a) (omega arith),
    ))

pub wrap64-add_right : (a b : ℤ) → wrap64 (a +ℤ wrap64 b) ≡ wrap64 (a +ℤ b)
wrap64-add_right a b = rw (+ℤ_comm a (wrap64 b), wrap64-add_left b a, +ℤ_comm b a)

-- `a += b` and `a * b` on an `int64`.
unfoldable pub add64 : ℤ → ℤ → ℤ
add64 a b = wrap64 (a +ℤ b)

-- A counter goes up by one while it does not wrap.
pub add64_one : (n : ℕ) → n + 1 < 2 ^ 63 → add64 (pos n) (pos 1) ≡ pos (n + 1)
unfolding add64 ◌+ℤ◌ wrap64
add64_one n room = ground arith

unfoldable pub sub64 : ℤ → ℤ → ℤ
sub64 a b = wrap64 (a -ℤ b)

unfoldable pub mul64 : ℤ → ℤ → ℤ
mul64 a b = wrap64 (a *ℤ b)

-- The conversion to `int32`, which keeps the low 32 bits.
unfoldable pub wrap32 : ℤ → ℤ
wrap32 z = let w = bits64 z % 2 ^ 32 in if ltb w (2 ^ 31) then pos w else negsuc (2 ^ 32 - w - 1)
