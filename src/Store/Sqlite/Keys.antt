-- ===== src/Store/Sqlite/Keys.antt =====
-- Rows by their key: lookups, appended and replaced rows.
use mathlib.Core.List.{Memᴰ}
use mathlib.Core.Option.{some-injective}
use my_demo_app.Prelude.{
  ◌≡◌, refl, sym, ap, ◌∙◌, inl, inr, false, none, some, List, [], ◌∷◌, ◌++◌, arith, if◌then◌else◌,
  Bool-cases,
}
use my_demo_app.Text.{Str, str_eq, str_eq_iff, str_eq_refl}
use my_demo_app.Store.Filter.{keep_if}
use my_demo_app.Store.Sqlite.Tables.{having, find_by, replace_by}

module _ {A : Type 0} (key : A → Str) where
  pub find_by-append :
      (k : Str) (new : A) (rows : List A)
      → find_by key (key new) rows ≡ none
      → find_by key k (rows ++ new ∷ [])
        ≡ (if str_eq (key new) k then some new else find_by key k rows)
  unfolding find_by
  find_by-append k new [] h = refl
  find_by-append k new (a ∷ rows) h = ground (
    arith,
    str_eq_iff (key a) k,
    str_eq_iff (key new) k,
    str_eq_iff (key a) (key new),
    find_by-append k new rows,
  )

  find_by-replace_by_self :
      (new old : A) (rows : List A)
      → find_by key (key new) rows ≡ some old
      → find_by key (key new) (replace_by key new rows) ≡ some new
  unfolding find_by replace_by
  find_by-replace_by_self new old [] h = cc
  find_by-replace_by_self new old (a ∷ rows) h =
      ground (arith, str_eq_refl (key new), find_by-replace_by_self new old rows)

  find_by-replace_by_other :
      (k : Str) (new : A) (rows : List A)
      → str_eq (key new) k ≡ false
      → find_by key k (replace_by key new rows) ≡ find_by key k rows
  unfolding find_by replace_by
  find_by-replace_by_other k new [] h = refl
  find_by-replace_by_other k new (a ∷ rows) h =
      ground (arith, str_eq_iff (key a) (key new), find_by-replace_by_other k new rows h)

  pub find_by-replace_by :
      (k : Str) (new old : A) (rows : List A)
      → find_by key (key new) rows ≡ some old
      → find_by key k (replace_by key new rows)
        ≡ (if str_eq (key new) k then some new else find_by key k rows)
  find_by-replace_by k new old rows h = elim (Bool-cases (str_eq (key new) k)) [
    | inl same ↦
        rw (same, ← (str_eq_iff (key new) k).0 same) (find_by-replace_by_self new old rows h)
    | inr other ↦ rw other (find_by-replace_by_other k new rows other)
  ]

  pub replace_by-missing :
      (new : A) (rows : List A) → find_by key (key new) rows ≡ none → replace_by key new rows ≡ rows
  unfolding find_by replace_by
  replace_by-missing new [] h = refl
  replace_by-missing new (a ∷ rows) h = ground (arith, replace_by-missing new rows)

  -- What a lookup by the primary key finds is the first of the rows that match.
  pub find_by-having :
      (k : Str) (rows : List A)
      → find_by key k rows ≡ elim (having key k rows) [ [] ↦ none | a ∷ more ↦ some a ]
  unfolding find_by keep_if
  find_by-having k [] = refl
  find_by-having k (a ∷ rows) = ground (arith, find_by-having k rows)

pub find_by-some :
    {A : Type 0} (key : A → Str) (k : Str) (a : A) (rows : List A)
    → find_by key k rows ≡ some a
    → (key a ≡ k) × Memᴰ a rows
unfolding find_by
find_by-some key k a [] h = cc
find_by-some key k a (b ∷ rows) h = elim (Bool-cases (str_eq (key b) k)) [
  | inl same ↦
      let is : b ≡ a = some-injective _ _ (rw same at h) in
      (sym (ap key is) ∙ (str_eq_iff (key b) k).0 same, Memᴰ.head (sym is))
  | inr other ↦ let (at, there) = find_by-some key k a rows (rw other at h) in (at, Memᴰ.tail there)
]

pub mem-having :
    {A : Type 0} (key : A → Str) (a : A) (rows : List A)
    → Memᴰ a rows
    → Memᴰ a (having key (key a) rows)
unfolding keep_if
mem-having key a [] m = elim m [ ]
mem-having key a (b ∷ rows) (Memᴰ.head e) = rw (← e, str_eq_refl (key a)) (Memᴰ.head refl)
mem-having key a (b ∷ rows) (Memᴰ.tail m) = elim (Bool-cases (str_eq (key b) (key a))) [
  | inl same ↦ rw same (Memᴰ.tail (mem-having key a rows m))
  | inr other ↦ rw other (mem-having key a rows m)
]

-- Without a match no row is affected, and with one some row is.
pub having-none :
    {A : Type 0} (key : A → Str) (k : Str) (rows : List A)
    → find_by key k rows ≡ none
    → having key k rows ≡ []
unfolding find_by keep_if
having-none key k [] h = refl
having-none key k (a ∷ rows) h = ground (arith, having-none key k rows)

pub having-some :
    {A : Type 0} (key : A → Str) (k : Str) (a : A) (rows : List A)
    → find_by key k rows ≡ some a
    → (m : List A) × (having key k rows ≡ a ∷ m)
unfolding find_by keep_if
having-some key k a [] h = cc
having-some key k a (b ∷ rows) h = elim (Bool-cases (str_eq (key b) k)) [
  | inl same ↦
      rw same
        (having key k rows, ap (λ x. x ∷ having key k rows) (some-injective _ _ (rw same at h)))
  | inr other ↦ rw other (having-some key k a rows (rw other at h))
]
