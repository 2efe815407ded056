-- ===== src/Store/Sqlite/Like.antt =====
-- `LIKE` of SQLite, by its documentation, for a pattern that is a text between two `%`.
use my_demo_app.Prelude.{
  ℕ, ◌+◌, ◌≡◌, refl, ap₂, ◌≢◌, Bool, true, false, ◌&&◌, ◌||◌, [], ◌∷◌, ◌++◌, map, arith, leb, ◌==◌,
  if◌then◌else◌,
}
use my_demo_app.Text.{Str, has_prefix, contains}

abbrev percent : ℕ
percent = 37

abbrev underscore : ℕ
underscore = 95

abbrev quote_mark : ℕ
quote_mark = 39

-- `LIKE` does not tell the cases of ASCII letters apart.
unfoldable pub fold_case : ℕ → ℕ
fold_case c = if leb 65 c && leb c 90 then c + 32 else c

unfoldable any_suffix : (Str → Bool) → Str → Bool
any_suffix test [] = test []
any_suffix test (c ∷ s) = test (c ∷ s) || any_suffix test s

unfoldable pub like : Str → Str → Bool
unfolding any_suffix fold_case
like [] [] = true
like [] (c ∷ s) = false
like (p ∷ ps) s = if p == percent then any_suffix (like ps) s else elim s [
  | [] ↦ false
  | c ∷ s' ↦ (p == underscore || fold_case p == fold_case c) && like ps s'
]

-- A text in which no character means anything to the query or to the pattern.
abbrev pub IsPlain : Str → Type 0
IsPlain [] = Unit
IsPlain (c ∷ s) = (c ≢ percent) × (c ≢ underscore) × (c ≢ quote_mark) × IsPlain s

any_suffix_nil : (s : Str) → any_suffix (like []) s ≡ true
unfolding any_suffix like
any_suffix_nil [] = refl
any_suffix_nil (c ∷ s) = any_suffix_nil s

like-has_prefix :
    (q s : Str)
    → IsPlain q
    → like (q ++ percent ∷ []) s ≡ has_prefix (map fold_case s) (map fold_case q)
unfolding like has_prefix
like-has_prefix [] [] plain = unfold any_suffix in refl
like-has_prefix [] (c ∷ s) plain = any_suffix_nil (c ∷ s)
like-has_prefix (p ∷ q) [] (a, b, c, plain) = ground arith
like-has_prefix (p ∷ q) (x ∷ s) (a, b, c, plain) = ground (arith, like-has_prefix q s plain)

contains_pattern :
    (q s : Str)
    → IsPlain q
    → any_suffix (like (q ++ percent ∷ [])) s ≡ contains (map fold_case s) (map fold_case q)
unfolding any_suffix contains
contains_pattern q [] plain = like-has_prefix q [] plain
contains_pattern q (c ∷ s) plain =
    ap₂ (λ x y. x || y) (like-has_prefix q (c ∷ s) plain) (contains_pattern q s plain)

-- The pattern of a search finds the texts that contain it, but for the case of ASCII letters.
pub like-contains :
    (q s : Str)
    → IsPlain q
    → like (percent ∷ q ++ percent ∷ []) s ≡ contains (map fold_case s) (map fold_case q)
unfolding like
like-contains q s plain = contains_pattern q s plain
