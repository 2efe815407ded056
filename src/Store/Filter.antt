-- ===== src/Store/Filter.antt =====
-- The loop that appends the elements of a list that pass a test.
use mathlib.Core.List.{Sublistᴰ, Permᴰ}
use mathlib.Core.List.Permᴰ
use my_demo_app.Prelude.{
  ◌≡◌, refl, inl, inr, Bool, List, [], ◌∷◌, ◌++◌, arith, if◌then◌else◌, Bool-cases,
}

unfoldable pub keep_if : {A : Type 0} → (A → Bool) → List A → List A
keep_if test [] = []
keep_if test (x ∷ xs) = if test x then x ∷ keep_if test xs else keep_if test xs

module _ {A : Type 0} (test : A → Bool) where
  pub keep_if-sublist : (xs : List A) → Sublistᴰ (keep_if test xs) xs
  unfolding keep_if
  keep_if-sublist [] = Sublistᴰ.slnil
  keep_if-sublist (x ∷ xs) = elim (Bool-cases (test x)) [
    | inl kept ↦ rw kept (Sublistᴰ.cons-cons refl (keep_if-sublist xs))
    | inr left ↦ rw left (Sublistᴰ.cons (keep_if-sublist xs))
  ]

  pub keep_if-append :
      (xs ys : List A) → keep_if test (xs ++ ys) ≡ keep_if test xs ++ keep_if test ys
  unfolding keep_if
  keep_if-append [] ys = refl
  keep_if-append (x ∷ xs) ys = ground (arith, keep_if-append xs ys)

  keep_if-cons :
      (x : A) (xs ys : List A)
      → Permᴰ (keep_if test xs) (keep_if test ys)
      → Permᴰ (keep_if test (x ∷ xs)) (keep_if test (x ∷ ys))
  unfolding keep_if
  keep_if-cons x xs ys p = elim (Bool-cases (test x)) [
    | inl kept ↦ rw kept (Permᴰ.cons refl p)
    | inr left ↦ rw left p
  ]

  keep_if-swap :
      (x y : A) (zs : List A) → Permᴰ (keep_if test (x ∷ y ∷ zs)) (keep_if test (y ∷ x ∷ zs))
  unfolding keep_if
  keep_if-swap x y zs = elim (Bool-cases (test x)) [
    | inl kept ↦ elim (Bool-cases (test y)) [
      | inl kept' ↦ rw (kept, kept') (Permᴰ.swap refl refl)
      | inr left ↦ rw (kept, left) (Permᴰ.refl (x ∷ keep_if test zs))
    ]
    | inr left ↦ rw left (Permᴰ.refl (keep_if test (y ∷ zs)))
  ]

  pub keep_if-perm : {xs ys : List A} → Permᴰ xs ys → Permᴰ (keep_if test xs) (keep_if test ys)
  keep_if-perm Permᴰ.nil = Permᴰ.refl (keep_if test [])
  keep_if-perm (Permᴰ.cons {a} {l₁ = l} {l₂ = k} e p) =
      rw (← e) (keep_if-cons a l k (keep_if-perm p))
  keep_if-perm (Permᴰ.swap {a} {b} {l = l} e f) = rw (← e, ← f) (keep_if-swap a b l)
  keep_if-perm (Permᴰ.trans p q) = Permᴰ.trans (keep_if-perm p) (keep_if-perm q)
