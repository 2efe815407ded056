-- ===== src/Text/Order.antt =====
-- The order of strings is a strict total order.
use my_demo_app.Text.{Str, str_ltb}
use my_demo_app.Prelude.{◌≡◌, refl, true, false, [], ◌∷◌, arith, Bool-cases, inl, inr}

pub str_ltb_irrefl : (s : Str) → str_ltb s s ≡ false
unfolding str_ltb
str_ltb_irrefl [] = refl
str_ltb_irrefl (a ∷ s) = ground (arith, str_ltb_irrefl s)

pub str_ltb_trans : (s t u : Str) → str_ltb s t ≡ true → str_ltb t u ≡ true → str_ltb s u ≡ true
unfolding str_ltb
str_ltb_trans [] [] u h k = ground arith
str_ltb_trans [] (b ∷ t) [] h k = ground arith
str_ltb_trans [] (b ∷ t) (c ∷ u) h k = refl
str_ltb_trans (a ∷ s) [] u h k = ground arith
str_ltb_trans (a ∷ s) (b ∷ t) [] h k = ground arith
str_ltb_trans (a ∷ s) (b ∷ t) (c ∷ u) h k = ground (arith, str_ltb_trans s t u)

-- Strings neither of which is before the other are the same.
pub str_ltb_connex : (s t : Str) → str_ltb s t ≡ false → str_ltb t s ≡ false → s ≡ t
unfolding str_ltb
str_ltb_connex [] [] h k = refl
str_ltb_connex [] (b ∷ t) h k = ground arith
str_ltb_connex (a ∷ s) [] h k = ground arith
str_ltb_connex (a ∷ s) (b ∷ t) h k = ground (arith, str_ltb_connex s t)

pub str_ltb_asym : (s t : Str) → str_ltb s t ≡ true → str_ltb t s ≡ false
str_ltb_asym s t h = elim (Bool-cases (str_ltb t s)) [
  | inl k ↦ cc (str_ltb_trans s t s h k, str_ltb_irrefl s)
  | inr k ↦ k
]
