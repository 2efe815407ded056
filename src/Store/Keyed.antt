-- ===== src/Store/Keyed.antt =====
-- Maps whose values carry their key.
use mathlib.Core.List.{Pairwise, Mem, Pairwise-cons, mem-cons, not-mem-nil}
use mathlib.Core.Logic.Or
use mathlib.Core.HLevel.{¬_prop}
use my_demo_app.Prelude.{◌≡◌, refl, ap, ◌≢◌, [], ◌∷◌, arith}
use my_demo_app.Text.{Str, str_eq_iff}
use my_demo_app.Store.Assoc.{Assoc, insert, values, IsFresh, HasDistinctKeys}
use my_demo_app.Store.Sort.{HasDistinct}

module _ {V : Type 0} (key : V → Str) where
  -- Every value stands under its own key.
  abbrev pub KeyedBy : Assoc V → Type 0
  KeyedBy [] = Unit
  KeyedBy ((k, v) ∷ m) = (k ≡ key v) × KeyedBy m

  pub insert-KeyedBy : (v : V) (m : Assoc V) → KeyedBy m → KeyedBy (insert (key v) v m)
  unfolding insert
  insert-KeyedBy v [] h = (refl, tt)
  insert-KeyedBy v ((j, w) ∷ m) h = ground (arith, insert-KeyedBy v m)

  key-ne :
      (k : Str) (m : Assoc V) → IsFresh k m → KeyedBy m → (v : V) → Mem v (values m) → k ≢ key v
  key-ne k [] fresh keyed v there = absurd (not-mem-nil there)
  key-ne k ((j, w) ∷ m) fresh keyed v there =
      Or.elim ¬_prop (mem-cons.0 there) (λ e. ground (arith, str_eq_iff j k, ap key e))
        (key-ne k m fresh.1 keyed.1 v)

  pub values-HasDistinct :
      (m : Assoc V) → HasDistinctKeys m → KeyedBy m → HasDistinct key (values m)
  values-HasDistinct [] h k = Pairwise.nil
  values-HasDistinct ((j, w) ∷ m) h k =
      Pairwise-cons.1
        (λ v there. rw (← k.0) (key-ne j m h.0 k.1 v there), values-HasDistinct m h.1 k.1)
