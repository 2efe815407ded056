-- ===== src/Store/Assoc.antt =====
-- Go's `map[string]V` as an association list; its order stands for the order of an iteration.
use my_demo_app.Prelude.{
  ◌≡◌, refl, inl, inr, false, Option, none, some, List, [], ◌∷◌, map, arith, if◌then◌else◌,
  Bool-cases,
}
use my_demo_app.Text.{Str, str_eq, str_eq_iff}

abbrev pub Assoc {ℓ} : Type ℓ → Type ℓ
Assoc V = List (Str × V)

module _ {ℓ} {V : Type ℓ} where
  -- `v, ok := m[k]`
  unfoldable pub lookup : Str → Assoc V → Option V
  lookup k [] = none
  lookup k ((j, v) ∷ m) = if str_eq j k then some v else lookup k m

  -- `m[k] = v`
  unfoldable pub insert : Str → V → Assoc V → Assoc V
  insert k v [] = (k, v) ∷ []
  insert k v ((j, w) ∷ m) = if str_eq j k then (k, v) ∷ m else (j, w) ∷ insert k v m

  -- The values in the order of an iteration.
  abbrev pub values : Assoc V → List V
  values m = map (λ (e : Str × V). e.1) m

  -- No key stands twice, as in a map.
  abbrev pub IsFresh : Str → Assoc V → Type 0
  IsFresh k [] = Unit
  IsFresh k ((j, v) ∷ m) = (str_eq j k ≡ false) × IsFresh k m

  abbrev pub HasDistinctKeys : Assoc V → Type 0
  HasDistinctKeys [] = Unit
  HasDistinctKeys ((k, v) ∷ m) = IsFresh k m × HasDistinctKeys m

  pub lookup-insert :
      (k j : Str) (v : V) (m : Assoc V)
      → lookup j (insert k v m) ≡ (if str_eq k j then some v else lookup j m)
  unfolding lookup insert
  lookup-insert k j v [] = refl
  lookup-insert k j v ((i, w) ∷ m) =
      ground (arith, str_eq_iff k j, str_eq_iff i k, str_eq_iff i j, lookup-insert k j v m)

  pub lookup-IsFresh : (k : Str) (m : Assoc V) → lookup k m ≡ none → IsFresh k m
  unfolding lookup
  lookup-IsFresh k [] h = tt
  lookup-IsFresh k ((j, v) ∷ m) h = ground (arith, lookup-IsFresh k m)

  insert-IsFresh :
      (k j : Str) (v : V) (m : Assoc V)
      → str_eq k j ≡ false
      → IsFresh j m
      → IsFresh j (insert k v m)
  unfolding insert
  insert-IsFresh k j v [] ne h = (ne, tt)
  insert-IsFresh k j v ((i, w) ∷ m) ne h = ground (arith, insert-IsFresh k j v m)

  pub insert-HasDistinctKeys :
      (k : Str) (v : V) (m : Assoc V) → HasDistinctKeys m → HasDistinctKeys (insert k v m)
  unfolding insert
  insert-HasDistinctKeys k v [] h = (tt, tt)
  insert-HasDistinctKeys k v ((i, w) ∷ m) (fresh, h) = elim (Bool-cases (str_eq i k)) [
    | inl same ↦ rw same (rw ((str_eq_iff i k).0 same) at fresh, h)
    | inr other ↦ rw other (
      insert-IsFresh k i v m (ground (arith, str_eq_iff k i, str_eq_iff i k)) fresh,
      insert-HasDistinctKeys k v m h,
    )
  ]
