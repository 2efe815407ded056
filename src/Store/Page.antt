-- ===== src/Store/Page.antt =====
-- internal/store/memory.go: `paginatePlans` and `paginateSubscribers`, one text for two types.
use my_demo_app.Prelude.{
  ℕ, zero, suc, ◌≤◌, ◌≡◌, refl, ap, Bool, not, ◌&&◌, List, [], ◌∷◌, arith, if◌then◌else◌, length,
  take, drop,
}
use my_demo_app.Prelude.Int.{ℤ, pos_part, ltb_ℤ, pos}

abbrev leb_ℤ : ℤ → ℤ → Bool
leb_ℤ a b = not (ltb_ℤ b a)

module _ {A : Type 0} where
  unfoldable pub paginate : List A → ℤ → ℤ → List A
  paginate items limit offset =
      let start = if ltb_ℤ offset (pos 0) then pos 0 else offset in
      let rest = drop (pos_part start) items in
      if leb_ℤ (pos (length items)) start
      then []
      else if ltb_ℤ (pos 0) limit && ltb_ℤ limit (pos (length rest))
      then take (pos_part limit) rest
      else rest

  take_all : (n : ℕ) (xs : List A) → length xs ≤ n → take n xs ≡ xs
  take_all zero [] h = refl
  take_all zero (x ∷ xs) h = absurd (omega arith)
  take_all (suc n) [] h = refl
  take_all (suc n) (x ∷ xs) h = ap (λ ys. x ∷ ys) (take_all n xs (omega arith))

  drop_all : (n : ℕ) (xs : List A) → length xs ≤ n → drop n xs ≡ []
  drop_all zero [] h = refl
  drop_all zero (x ∷ xs) h = absurd (omega arith)
  drop_all (suc n) [] h = refl
  drop_all (suc n) (x ∷ xs) h = drop_all n xs (omega arith)

  take-nil : (n : ℕ) → take {A = A} n [] ≡ []
  take-nil zero = refl
  take-nil (suc n) = refl

  -- The page of at most `limit` items, all where `limit` is not positive, after `offset` items, none
  -- where it is negative.
  pub paginate_lem :
      (items : List A) (limit offset : ℤ)
      → paginate items limit offset ≡ (
          if ltb_ℤ (pos 0) limit
          then take (pos_part limit) (drop (pos_part offset) items)
          else drop (pos_part offset) items)
  unfolding paginate
  paginate_lem items limit offset = ground (
    arith,
    take-nil (pos_part limit),
    drop_all (pos_part offset) items,
    take_all (pos_part limit) (drop (pos_part offset) items),
    take_all (pos_part limit) items,
  )
