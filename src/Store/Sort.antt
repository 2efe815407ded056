-- ===== src/Store/Sort.antt =====
-- `sort.Slice(out, func(i, j int) bool { return out[i].ID < out[j].ID })`: the sorted order of a
-- list by a string key. Where the keys differ it is the only one, whatever the algorithm.
use mathlib.Core.List.{Permᴰ, Pairwise, rel_of_Pairwise-cons, Pairwise-cons, mem-cons_self}
use mathlib.Core.List.Permᴰ
use mathlib.Core.HLevel.{¬_prop}
use my_demo_app.Prelude.{
  ◌≡◌, refl, sym, ap₂, ◌∙◌, ◌≢◌, inl, inr, false, List, [], ◌∷◌, arith, if◌then◌else◌, Bool-cases,
}
use my_demo_app.Text.{Str, str_ltb}
use my_demo_app.Text.Order.{str_ltb_trans, str_ltb_connex, str_ltb_asym}

module _ {A : Type 0} (key : A → Str) where
  unfoldable pub insert_sorted : A → List A → List A
  insert_sorted x [] = x ∷ []
  insert_sorted x (y ∷ ys) = if str_ltb (key y) (key x) then y ∷ insert_sorted x ys else x ∷ y ∷ ys

  unfoldable pub sort_by : List A → List A
  sort_by [] = []
  sort_by (x ∷ xs) = insert_sorted x (sort_by xs)

  -- No element is before the one in front of it.
  abbrev pub IsSorted : List A → Type 0
  IsSorted [] = Unit
  IsSorted (x ∷ []) = Unit
  IsSorted (x ∷ y ∷ ys) = (str_ltb (key y) (key x) ≡ false) × IsSorted (y ∷ ys)

  -- Two elements with different keys may be inserted in either order.
  insert_sorted-swap :
      (x y : A) (zs : List A)
      → key x ≢ key y
      → insert_sorted x (insert_sorted y zs) ≡ insert_sorted y (insert_sorted x zs)
  unfolding insert_sorted
  insert_sorted-swap x y [] ne =
      ground (arith, str_ltb_asym (key x) (key y), str_ltb_connex (key x) (key y))
  insert_sorted-swap x y (z ∷ zs) ne = ground (
    arith,
    str_ltb_asym (key x) (key y),
    str_ltb_connex (key x) (key y),
    str_ltb_trans (key z) (key x) (key y),
    str_ltb_trans (key z) (key y) (key x),
    insert_sorted-swap x y zs ne,
  )

  abbrev pub HasDistinct : List A → Type 0
  HasDistinct = Pairwise (λ a b. key a ≢ key b)

  HasDistinct-perm : {xs ys : List A} → Permᴰ xs ys → HasDistinct xs → HasDistinct ys
  HasDistinct-perm = Permᴰ.pairwise (λ a b. ¬_prop) (λ a b h e. h (sym e))

  -- Lists of the same elements, with different keys, sort to the same list.
  pub sort_by-perm : {xs ys : List A} → Permᴰ xs ys → HasDistinct xs → sort_by xs ≡ sort_by ys
  unfolding sort_by
  sort_by-perm Permᴰ.nil h = refl
  sort_by-perm (Permᴰ.cons e p) h = ap₂ insert_sorted e (sort_by-perm p (Pairwise-cons.0 h).1)
  sort_by-perm (Permᴰ.swap {a} {b} {l} e f) h =
      insert_sorted-swap a b (sort_by l) (rel_of_Pairwise-cons h mem-cons_self)
      ∙ ap₂ (λ u v. insert_sorted u (insert_sorted v (sort_by l))) f e
  sort_by-perm (Permᴰ.trans p q) h = sort_by-perm p h ∙ sort_by-perm q (HasDistinct-perm p h)

  insert_sorted-IsSorted : (x : A) (ys : List A) → IsSorted ys → IsSorted (insert_sorted x ys)
  unfolding insert_sorted
  insert_sorted-IsSorted x [] h = tt
  insert_sorted-IsSorted x (y ∷ []) h = ground (arith, str_ltb_asym (key y) (key x))
  insert_sorted-IsSorted x (y ∷ z ∷ zs) h =
      ground (arith, str_ltb_asym (key y) (key x), insert_sorted-IsSorted x (z ∷ zs))

  -- The result is in order.
  pub sort_by-IsSorted : (xs : List A) → IsSorted (sort_by xs)
  unfolding sort_by
  sort_by-IsSorted [] = tt
  sort_by-IsSorted (x ∷ xs) = insert_sorted-IsSorted x (sort_by xs) (sort_by-IsSorted xs)

  insert_sorted-perm : (x : A) (ys : List A) → Permᴰ (insert_sorted x ys) (x ∷ ys)
  unfolding insert_sorted
  insert_sorted-perm x [] = Permᴰ.refl (x ∷ [])
  insert_sorted-perm x (y ∷ ys) = elim (Bool-cases (str_ltb (key y) (key x))) [
    | inl less ↦
        rw less (Permᴰ.trans (Permᴰ.cons refl (insert_sorted-perm x ys)) (Permᴰ.swap refl refl))
    | inr more ↦ rw more (Permᴰ.refl (x ∷ y ∷ ys))
  ]

  -- The result has the elements of the list.
  pub sort_by-perm_self : (xs : List A) → Permᴰ (sort_by xs) xs
  unfolding sort_by
  sort_by-perm_self [] = Permᴰ.nil
  sort_by-perm_self (x ∷ xs) =
      Permᴰ.trans (insert_sorted-perm x (sort_by xs)) (Permᴰ.cons refl (sort_by-perm_self xs))
